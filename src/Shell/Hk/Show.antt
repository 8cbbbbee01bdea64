-- ===== src/Shell/Hk/Show.antt =====
-- `hk show`: the counters, and the reports that are defined.
use k_fsw.Base.{
  ℕ, zero, suc, ◌+◌, ◌/◌, ◌%◌, Bool, not, List, [], ◌∷◌, ◌++◌, ◌==◌, if◌then◌else◌, ℤ, ok, is_ok,
  length,
}
use k_fsw.Text.{Bytes, codes, decimal, signed, hex_byte}
use k_fsw.Hk.Header.{Entry}
use k_fsw.Env.{Proc, pure, ◌>>=◌, ◌>>◌, tell, recall}
use k_fsw.Shell.Service.{hk_get_definition, hk_get_beacon}
use k_fsw.Shell.{ShellCall, shell_print, ask}
use k_fsw.Shell.Hk.{HkShell}

-- `struct kfsw_hk_stats`
pub record HkStats : Type 0 where
  pub reports : ℕ
  pub collections : ℕ
  pub scheduled_attempts : ℕ
  pub missed_slots : ℕ
  pub settings_dirty : Bool
  pub last_save_error : ℤ
  pub last_load_error : ℤ
  pub failures : ℕ
  pub entries_failed : ℕ
  pub overwritten : ℕ
  pub last_seconds : ℕ
  pub beacons_sent : ℕ
  pub beacons_skipped : ℕ

-- CONFIG_KFSW_HK_PERSISTENCE and CONFIG_KFSW_HK_BEACON, and what the service leaves behind its
-- pointers: the counters, a definition, and a report's class, period, depth and beacon as they are
-- for the report or as the caller set them.
pub record ShowEnv : Type 0 where
  pub shell : HkShell
  pub persistence : Bool
  pub beacon : Bool
  pub stats : List ShellCall → HkStats
  pub definition : List ShellCall → List Entry
  pub retrieval_class : List ShellCall → ℕ → ℕ
  pub period : List ShellCall → ℕ → ℕ
  pub depth : List ShellCall → ℕ → ℕ
  pub beacon_node : List ShellCall → ℕ
  pub beacon_ms : List ShellCall → ℕ

abbrev line : Bytes → ℕ → Proc ShellCall (Unit {0})
line name n = tell (shell_print (name ++ codes ": " ++ decimal n))

unfoldable pub print_entries : List Entry → Proc ShellCall (Unit {0})
print_entries [] = pure tt
print_entries (e ∷ es) = do
  tell (
      shell_print (
        codes "  node "
        ++ decimal e.node
        ++ codes "  table "
        ++ decimal (e.param_id / 256)
        ++ codes "  offset 0x"
        ++ hex_byte (e.param_id % 256)))
  print_entries es

module _ (env : ShowEnv) where
  unfoldable pub print_stats : HkStats → Proc ShellCall (Unit {0})
  print_stats s = do
    line (codes "reports defined") s.reports
    line (codes "collections") s.collections
    tell (
        shell_print (
          codes "scheduled attempts: "
          ++ decimal s.scheduled_attempts
          ++ codes ", missed slots: "
          ++ decimal s.missed_slots))
    if env.persistence
        then tell (
            shell_print (
              codes "settings: "
              ++ (if s.settings_dirty then codes "unsaved" else codes "saved")
              ++ codes ", save error: "
              ++ signed s.last_save_error
              ++ codes ", load error: "
              ++ signed s.last_load_error))
        else pure tt
    line (codes "failed collections") s.failures
    line (codes "absent values") s.entries_failed
    line (codes "samples overwritten") s.overwritten
    line (codes "last collection") s.last_seconds
    if env.beacon then line (codes "beacons sent") s.beacons_sent else pure tt
    if env.beacon then line (codes "beacons skipped") s.beacons_skipped else pure tt

  abbrev beacon_line : ℕ → ℕ → Proc ShellCall (Unit {0})
  beacon_line node ms =
      if ms == 0
      then pure tt
      else tell (
          shell_print (
            codes "  beacons to node "
            ++ decimal node
            ++ codes " every "
            ++ decimal ms
            ++ codes " ms"))

  -- Only where beaconing is on.
  unfoldable pub print_beacon : ℕ → Proc ShellCall (Unit {0})
  print_beacon report = do
    result ← ask env.shell.result (hk_get_beacon report)
    node ← recall env.beacon_node
    ms ← recall env.beacon_ms
    if is_ok result then beacon_line node ms else pure tt

  -- A report that is not defined is passed over.
  unfoldable pub show_report : ℕ → Proc ShellCall (Unit {0})
  show_report report = ask env.shell.result (hk_get_definition report) >>= λ result.
      if not (is_ok result) then pure tt else (do
        entries ← recall env.definition
        period ← recall env.period
        depth ← recall env.depth
        class ← recall env.retrieval_class
        tell (
            shell_print
              (codes "report " ++ decimal report ++ codes " class " ++ decimal (class report)))
        tell (
            shell_print (
              codes "report "
              ++ decimal report
              ++ codes ": "
              ++ decimal (length entries)
              ++ codes " values, period "
              ++ decimal (period report)
              ++ codes " ms, "
              ++ decimal (depth report)
              ++ codes " samples held"))
        if env.beacon then print_beacon report else pure tt
        print_entries entries)

  -- The loop over the reports, from one on, for so many more; a uint8_t holds their number.
  unfoldable pub show_from : ℕ → ℕ → Proc ShellCall ℤ
  show_from report zero = pure ok
  show_from report (suc more) = show_report report >> show_from (report + 1) more

  unfoldable pub cmd_hk_show : Proc ShellCall ℤ
  cmd_hk_show = do s ← recall env.stats; print_stats s; show_from 0 env.shell.reports
