-- ===== src/Shell/Resmon.antt =====
-- app/src/shell/shell_resmon.c: the `resmon` commands, for the stacks of the threads. What the
-- service answers is a function of the history.
use k_fsw.Base.{
  ℕ, Bool, not, ◌||◌, List, ◌++◌, ltb, if◌then◌else◌, ℤ, ok, is_ok, is_negative, einval,
}
use k_fsw.Text.{Bytes, codes, decimal, signed}
use k_fsw.Env.{Proc, pure, ◌>>=◌, ◌>>◌, recall}
use k_fsw.Shell.Service.{ServiceCall, resmon_sample, resmon_set_alert_percent}
use k_fsw.Shell.{ShellCall, ask}
use k_fsw.Shell.Report.{row, refuse, done_with}

-- `struct kfsw_resmon_status`
pub record ResmonStatus : Type 0 where
  pub running : Bool
  pub threads : ℕ
  pub unmeasured : ℕ
  pub last_used_percent : ℕ
  pub worst_used_percent : ℕ
  pub worst_thread : Bytes
  pub worst_unused_bytes : ℕ
  pub worst_stack_bytes : ℕ
  pub tightest_unused_bytes : ℕ
  pub tightest_stack_bytes : ℕ
  pub tightest_thread : Bytes
  pub alert_percent : ℕ
  pub sweeps : ℕ
  pub alerts : ℕ

-- `shell_strtoul` in base 0, and what the service gives.
pub record ResmonShell : Type 0 where
  pub strtoul_any : Bytes → ℕ × ℤ
  pub result : List ShellCall → ServiceCall → ℤ
  pub status : List ShellCall → ResmonStatus

abbrev of_bytes : ℕ → ℕ → Bytes
of_bytes free all = decimal free ++ codes " of " ++ decimal all ++ codes " bytes"

-- `print_status`, and the success that both callers return behind it.
unfoldable print_resmon : ResmonStatus → Proc ShellCall ℤ
print_resmon s = do
  row (codes "state") (if s.running then codes "sweeping" else codes "stopped")
  row (codes "threads")
      (decimal s.threads ++ codes " read, " ++ decimal s.unmeasured ++ codes " unmeasured")
  row (codes "last_used") (decimal s.last_used_percent ++ codes "%")
  row (codes "worst_used") (decimal s.worst_used_percent ++ codes "% on " ++ s.worst_thread)
  row (codes "worst_free") (of_bytes s.worst_unused_bytes s.worst_stack_bytes)
  row (codes "tightest")
      (of_bytes s.tightest_unused_bytes s.tightest_stack_bytes ++ codes " on " ++ s.tightest_thread)
  row (codes "alert_at") (decimal s.alert_percent ++ codes "%")
  row (codes "sweeps") (decimal s.sweeps ++ codes " alerts: " ++ decimal s.alerts)
  pure ok

module _ (env : ResmonShell) where
  unfoldable cmd_resmon_show : Proc ShellCall ℤ
  cmd_resmon_show = recall env.status >>= print_resmon

  abbrev sampled : ℤ → Proc ShellCall ℤ
  sampled threads =
      if is_negative threads
      then refuse (codes "Sweep failed: " ++ signed threads) threads
      else cmd_resmon_show

  unfoldable cmd_resmon_sample : Proc ShellCall ℤ
  unfolding cmd_resmon_show
  cmd_resmon_sample = ask env.result resmon_sample >>= sampled

  abbrev alert_set : ℕ → ℤ → Proc ShellCall ℤ
  alert_set percent result =
      if not (is_ok result)
      then refuse (codes "Percentage refused: " ++ signed result) result
      else done_with (codes "Resource monitor alert: " ++ decimal percent ++ codes "%")

  abbrev set_alert : Bytes → ℕ × ℤ → Proc ShellCall ℤ
  set_alert text (percent, error) =
      if not (is_ok error) || ltb 4294967295 percent
      then refuse (codes "Invalid percentage: " ++ text) einval
      else ask env.result (resmon_set_alert_percent percent) >>= alert_set percent

  unfoldable pub cmd_resmon_alert : Bytes → Proc ShellCall ℤ
  cmd_resmon_alert text = set_alert text (env.strtoul_any text)
