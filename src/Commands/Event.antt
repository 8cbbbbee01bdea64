-- ===== src/Commands/Event.antt =====
-- event_stats and event_tail.
use k_fsw.Base.{ℕ, ◌/◌, ◌%◌, ◌++◌, not, ltb, if◌then◌else◌, ℤ, ok, is_ok, einval}
use k_fsw.Text.{Bytes, codes, decimal, hex_bytes}
use k_fsw.Env.{Proc, pure, ◌>>=◌, call, recall}
use k_fsw.Commands.{
  command_ok, command_failed, command_invalid_argument, CommandResult, CommandConfig, CommandCall,
  event_get, EventRecord, CommandEnv, Handler, answered, marked,
}

abbrev uint16_max : ℕ
uint16_max = 65535

module _ (c : CommandConfig) (env : CommandEnv) where
  unfoldable pub command_event_stats : Handler
  command_event_stats args node result = do
    stats ← recall env.event_stats
    pure (
      ok,
      answered c command_ok (
          codes "held="
          ++ decimal stats.held
          ++ codes "/"
          ++ decimal stats.capacity
          ++ codes " recorded="
          ++ decimal stats.recorded
          ++ codes " overwritten="
          ++ decimal stats.overwritten
          ++ codes " rejected="
          ++ decimal stats.rejected),
    )

  -- The line for one record; its time is printed in 32 bits.
  abbrev event_line : EventRecord → Bytes
  event_line r =
      codes "seq="
      ++ decimal r.sequence
      ++ codes " t_ms="
      ++ decimal (r.monotonic_us / 1000 % 4294967296)
      ++ codes " src="
      ++ env.event_source_name r.source
      ++ codes " id="
      ++ decimal r.id
      ++ codes " sev="
      ++ decimal r.severity
      ++ codes " data="
      ++ hex_bytes r.payload

  abbrev event_found : ℕ → ℤ → Proc CommandCall (ℤ × CommandResult)
  event_found age outcome =
      if not (is_ok outcome)
      then pure (outcome, answered c command_failed (codes "no record at age " ++ decimal age))
      else (do r ← recall env.event_record; pure (ok, answered c command_ok (event_line r)))

  unfoldable pub command_event_tail : Handler
  command_event_tail args node result =
      if ltb uint16_max (args 0).u32
      then pure (einval, marked result command_invalid_argument)
      else (do outcome ← call env.result (event_get (args 0).u32); event_found (args 0).u32 outcome)
