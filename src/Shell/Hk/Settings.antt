-- ===== src/Shell/Hk/Settings.antt =====
-- Clearing, collecting, and the settings of a report: its period, its file and its beacon.
use k_fsw.Base.{
  ℕ, ◌%◌, ◌&&◌, List, ◌∷◌, ◌++◌, ◌==◌, if◌then◌else◌, ℤ, is_ok, ◌==ℤ◌, not, ok, erange,
}
use k_fsw.Text.{Bytes, codes, decimal, signed}
use k_fsw.Env.{Proc, pure, ◌>>=◌, ◌>>◌, tell}
use k_fsw.Shell.Service.{
  hk_clear, hk_collect, hk_set_period, hk_set_store, hk_clear_store, hk_set_beacon, hk_save,
}
use k_fsw.Shell.{ShellCall, shell_print, ask}
use k_fsw.Shell.Hk.{HkShell, refuse, names_node, settled, with_u32, run_remote}

module _ (env : HkShell) where
  -- On this node.
  unfoldable pub clear_local : Bytes → Proc ShellCall ℤ
  clear_local first = with_u32 env first (codes "report") (λ report. do
    result ← ask env.result (hk_clear (report % 256))
    settled env (codes "clear report " ++ decimal report)
        (codes "report " ++ decimal report ++ codes " cleared") result)

  unfoldable pub cmd_hk_clear : Bytes → List Bytes → Proc ShellCall ℤ
  cmd_hk_clear first words =
      if env.command_csp && names_node (first ∷ words) 1
      then run_remote env (codes "hk_clear") first words
      else clear_local first

  abbrev pub collected : ℕ → ℤ → Proc ShellCall ℤ
  collected report result =
      if not (is_ok result)
      then refuse (codes "collect report " ++ decimal report ++ codes ": " ++ signed result) result
      else (do
        tell (shell_print (codes "report " ++ decimal report ++ codes " collected"))
        pure ok)

  unfoldable pub cmd_hk_collect : Bytes → Proc ShellCall ℤ
  cmd_hk_collect first =
      with_u32 env first (codes "report")
        (λ report. ask env.result (hk_collect (report % 256)) >>= collected report)

  unfoldable pub period_local : Bytes → Bytes → Proc ShellCall ℤ
  period_local first second = with_u32 env first (codes "report") (λ report.
      with_u32 env second (codes "period") (λ period. do
        result ← ask env.result (hk_set_period (report % 256) period)
        settled env (codes "period for report " ++ decimal report)
            (codes "report " ++ decimal report ++ codes " every " ++ decimal period ++ codes " ms")
            result))

  unfoldable pub cmd_hk_period : Bytes → Bytes → List Bytes → Proc ShellCall ℤ
  cmd_hk_period first second words =
      if env.command_csp && names_node (first ∷ second ∷ words) 2
      then run_remote env (codes "hk_period") first (second ∷ words)
      else period_local first second

  abbrev store_text : ℕ → ℕ → Bytes
  store_text report interval =
      if interval == 0
      then codes "report "
        ++ decimal report
        ++ codes " keeps samples in RAM only; the file it wrote stays"
      else codes "report "
        ++ decimal report
        ++ codes " stores every "
        ++ decimal interval
        ++ codes " ms"

  unfoldable pub cmd_hk_store : Bytes → Bytes → Proc ShellCall ℤ
  cmd_hk_store first second = with_u32 env first (codes "report") (λ report.
      with_u32 env second (codes "interval") (λ interval. do
        result ← ask env.result (hk_set_store (report % 256) interval)
        settled env (codes "store for report " ++ decimal report) (store_text report interval)
            result))

  unfoldable pub cmd_hk_store_clear : Bytes → Proc ShellCall ℤ
  cmd_hk_store_clear first = with_u32 env first (codes "report") (λ report. do
    result ← ask env.result (hk_clear_store (report % 256))
    settled env (codes "store_clear for report " ++ decimal report)
        (codes "report " ++ decimal report ++ codes " stops storing and its file is removed")
        result)

  abbrev beacon_text : ℕ → ℕ → ℕ → Bytes
  beacon_text report node interval =
      if interval == 0
      then codes "report " ++ decimal report ++ codes " stops beaconing"
      else codes "report "
        ++ decimal report
        ++ codes " beacons to node "
        ++ decimal node
        ++ codes " every "
        ++ decimal interval
        ++ codes " ms"

  -- An interval below the floor has a text of its own.
  abbrev pub beacon_set : ℕ → ℕ → ℕ → ℤ → Proc ShellCall ℤ
  beacon_set report node interval result =
      if not (result ==ℤ env.build.applied_unsaved) && (result ==ℤ erange)
      then refuse
          (codes "beacon interval must be 0 or at least "
            ++ decimal env.beacon_floor_ms
            ++ codes " ms")
          result
      else settled env (codes "beacon for report " ++ decimal report)
          (beacon_text report node interval) result

  unfoldable pub cmd_hk_beacon : Bytes → Bytes → Bytes → Proc ShellCall ℤ
  cmd_hk_beacon first second third = with_u32 env first (codes "report") (λ report.
      with_u32 env second (codes "node") (λ node. with_u32 env third (codes "interval") (λ interval.
        ask env.result (hk_set_beacon (report % 256) (node % 65536) interval)
        >>= beacon_set report node interval)))

  abbrev pub saved : ℤ → Proc ShellCall ℤ
  saved result =
      if not (is_ok result)
      then refuse (codes "Save failed: " ++ signed result) result
      else (do tell (shell_print (codes "Settings saved")); pure result)

  unfoldable pub cmd_hk_save : Proc ShellCall ℤ
  cmd_hk_save = ask env.result hk_save >>= saved
