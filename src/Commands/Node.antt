-- ===== src/Commands/Node.antt =====
-- noop, info, reboot and golden_install.
use k_fsw.Base.{
  ℕ, Bool, some, ◌++◌, not, if◌then◌else◌, ℤ, ok, is_ok, is_negative, ◌==ℤ◌, enoent, eacces, ebusy,
}
use k_fsw.Text.{Bytes, codes, decimal, signed, str_eq}
use k_fsw.Env.{Proc, pure, ◌>>=◌, ◌>>◌, call, tell, recall}
use k_fsw.Parameters.System.{SystemValues, reboot_pin_matches}
use k_fsw.Commands.{
  command_ok, command_denied, command_failed, command_busy, CommandResult, CommandConfig,
  CommandCall, log_warning, lastwords_write, sys_reboot, golden_install, schedule_reboot,
  CommandEnv, Handler, answered, marked,
}

-- KFSW_COMMAND_REBOOT_DELAY_MS
abbrev pub reboot_delay_ms : ℕ
reboot_delay_ms = 500

-- The pin of table 2, or without parameters the compiled default.
unfoldable pub pin_accepted : CommandConfig → SystemValues → Bytes → Bool
pin_accepted c v pin =
    if c.param then reboot_pin_matches v (some pin) else str_eq pin (codes "0000")

module _ (c : CommandConfig) (env : CommandEnv) where
  unfoldable pub command_noop : Handler
  command_noop args node result =
      pure (ok, answered c command_ok (codes "noop from node " ++ decimal node))

  abbrev storage_word : Bool → Bytes
  storage_word ready = if ready then codes "ready" else codes "down"

  unfoldable pub command_info : Handler
  command_info args node result =
      if c.storage
      then (do
        uptime ← recall env.uptime_ms
        ready ← recall env.storage_ready
        free ← recall env.storage_free_bytes
        pure (
          ok,
          answered c command_ok (
              codes "uptime_ms="
              ++ decimal uptime
              ++ codes " storage="
              ++ storage_word ready
              ++ codes " free_bytes="
              ++ decimal free),
        ))
      else (do
        uptime ← recall env.uptime_ms
        pure (
          ok,
          answered c command_ok (codes "uptime_ms=" ++ decimal uptime ++ codes " storage=absent"),
        ))

  -- The note that is left before the reset; without parameters the boot count is 0.
  abbrev last_words : Proc CommandCall (Unit {0})
  last_words = do
    uptime ← recall env.uptime_ms
    boots ← recall env.boot_count
    tell (lastwords_write uptime (if c.param then boots else 0))

  unfoldable pub reboot_work_handler : Proc CommandCall (Unit {0})
  reboot_work_handler = do
    tell (log_warning (codes "Rebooting on command"))
    if c.lastwords then last_words else pure tt
    tell sys_reboot

  abbrev refused : Bytes → ℕ → Proc CommandCall (ℤ × CommandResult)
  refused what node = do
    tell (
        log_warning
          (what ++ codes " refused: node " ++ decimal node ++ codes " quoted the wrong pin"))
    pure (eacces, answered c command_denied (codes "wrong pin"))

  -- What `k_work_schedule` gave is below 0 when it failed.
  abbrev when_scheduled : Bytes → ℕ → CommandResult → ℤ → Proc CommandCall (ℤ × CommandResult)
  when_scheduled what node result outcome =
      if is_negative outcome then pure (ebusy, marked result command_busy) else (do
        tell (log_warning (what ++ codes " requested by node " ++ decimal node))
        pure (
          ok,
          answered c command_ok (codes "rebooting in " ++ decimal reboot_delay_ms ++ codes " ms"),
        ))

  abbrev scheduled : Bytes → ℕ → CommandResult → Proc CommandCall (ℤ × CommandResult)
  scheduled what node result = do
    outcome ← call env.result (schedule_reboot reboot_delay_ms)
    when_scheduled what node result outcome

  unfoldable pub command_reboot : SystemValues → Handler
  command_reboot v args node result =
      if not (pin_accepted c v (args 0).text)
      then refused (codes "Reboot") node
      else scheduled (codes "Reboot") node result

  -- `command_golden_install`, behind the installation.
  abbrev installed : ℕ → CommandResult → ℤ → Proc CommandCall (ℤ × CommandResult)
  installed node result outcome =
      if not (is_ok outcome)
      then pure (
        outcome,
        answered c (if outcome ==ℤ enoent then command_denied else command_failed)
            (codes "install failed (" ++ signed outcome ++ codes ")"),
      )
      else scheduled (codes "Recovery image") node result

  unfoldable pub command_golden_install : SystemValues → Handler
  command_golden_install v args node result =
      if not (pin_accepted c v (args 0).text)
      then refused (codes "Recovery") node
      else (do outcome ← call env.result golden_install; installed node result outcome)
