-- ===== src/Shell/Health.antt =====
-- app/src/shell/shell_health.c: the `health` commands, for the supervision of components. What the
-- service answers and leaves in a structure are functions of the history.
use k_fsw.Base.{
  ℕ, zero, suc, ◌+◌, ◌%◌, Bool, not, ◌||◌, Option, none, some, List, ◌++◌, ltb, ◌==◌, length,
  if◌then◌else◌, ℤ, ok, is_ok, einval,
}
use k_fsw.Text.{Bytes, codes, decimal, str_eq, pad_left, pad_right}
use k_fsw.Env.{Proc, pure, ◌>>=◌, ◌>>◌, tell, recall}
use k_fsw.Shell.Service.{
  ServiceCall, health_get_status, health_get_component, health_register, health_report,
}
use k_fsw.Shell.{ShellCall, shell_print, shell_error, ask}
use k_fsw.Shell.Report.{row, number_row, yes_no, refuse, unless_failed, done_with}

-- `struct kfsw_health_status`
pub record HealthStatus : Type 0 where
  pub state : ℕ
  pub feeding : Bool
  pub count : ℕ
  pub faults : ℕ
  pub feeds : ℕ
  pub faulted_by : Bytes

-- `struct kfsw_health_component`
pub record Watched : Type 0 where
  pub name : Bytes
  pub deadline_ms : ℕ
  pub since_report_ms : ℕ
  pub reports : ℕ
  pub overdue : Bool

-- KFSW_HEALTH_MAX_COMPONENTS, `shell_strtoul` in base 0, `kfsw_health_state_name`, and what the
-- service gives; the handle is that of a registration that succeeded.
pub record HealthShell : Type 0 where
  pub max_components : ℕ
  pub strtoul_any : Bytes → ℕ × ℤ
  pub state_name : ℕ → Bytes
  pub result : List ShellCall → ServiceCall → ℤ
  pub status : List ShellCall → HealthStatus
  pub component : List ShellCall → Watched
  pub handle : List ShellCall → ℕ

abbrev columns : Bytes → Bytes → Bytes → Bytes → Bytes → Bytes
columns name deadline since reports state =
    pad_right 16 name
    ++ codes " "
    ++ pad_left 10 deadline
    ++ codes " "
    ++ pad_left 10 since
    ++ codes " "
    ++ pad_left 8 reports
    ++ codes " "
    ++ state

abbrev watched_line : Watched → Bytes
watched_line c =
    columns c.name (decimal c.deadline_ms) (decimal c.since_report_ms) (decimal c.reports)
      (if c.overdue then codes "overdue" else codes "ok")

module _ (env : HealthShell) where
  abbrev print_health : HealthStatus → Proc ShellCall ℤ
  print_health s = do
    tell (shell_print (codes "K-FSW health"))
    row (codes "state") (env.state_name s.state)
    row (codes "feeding") (yes_no s.feeding)
    number_row (codes "components") s.count
    number_row (codes "faults") s.faults
    number_row (codes "feeds") s.feeds
    if length s.faulted_by == 0 then pure tt else row (codes "faulted_by") s.faulted_by
    pure ok

  unfoldable cmd_health_status : Proc ShellCall ℤ
  cmd_health_status =
      ask env.result health_get_status
      >>= unless_failed (codes "health status unavailable") (recall env.status >>= print_health)

  abbrev print_watched : ℕ → Watched → Proc ShellCall ℕ
  print_watched shown c = do tell (shell_print (watched_line c)); pure ((shown + 1) % 256)

  abbrev component_read : ℕ → ℤ → Proc ShellCall ℕ
  component_read shown result =
      if not (is_ok result) then pure shown else recall env.component >>= print_watched shown

  -- The loop, from an index on for so many; it ends with the count of those shown.
  unfoldable list_components : ℕ → ℕ → ℕ → Proc ShellCall ℕ
  list_components zero index shown = pure shown
  list_components (suc left) index shown =
      ask env.result (health_get_component index)
      >>= component_read shown
      >>= list_components left (index + 1)

  abbrev components_listed : ℕ → Proc ShellCall ℤ
  components_listed shown = done_with (codes "Components listed: " ++ decimal shown)

  unfoldable cmd_health_list : Proc ShellCall ℤ
  cmd_health_list = do
    tell (
        shell_print (
          columns (codes "NAME") (codes "DEADLINE") (codes "SINCE") (codes "REPORTS")
            (codes "STATE")))
    list_components env.max_components 0 0 >>= components_listed

  abbrev print_handle : Bytes → ℕ → ℕ → Proc ShellCall ℤ
  print_handle name deadline handle = do
    tell (
        shell_print (
          codes "Watching "
          ++ name
          ++ codes " with a "
          ++ decimal deadline
          ++ codes " ms deadline; nothing is reporting it"))
    done_with (codes "Report it with: health report " ++ decimal handle)

  abbrev watch_for : Bytes → Bytes → ℕ × ℤ → Proc ShellCall ℤ
  watch_for name text (deadline, error) =
      if not (is_ok error) || deadline == 0 || ltb 4294967295 deadline
      then refuse (codes "Invalid deadline: " ++ text) einval
      else ask env.result (health_register name deadline)
        >>= unless_failed (codes "could not watch " ++ name)
            (recall env.handle >>= print_handle name deadline)

  abbrev watch_unconfirmed : Proc ShellCall ℤ
  watch_unconfirmed = do
    tell (shell_error (codes "This registers a component that nothing reports."))
    tell (shell_error (codes "The board will reset once its deadline passes."))
    refuse (codes "Run: health watch <name> <deadline_ms> confirm") einval

  -- Its arguments are none where there are not three of them.
  unfoldable pub cmd_health_watch : Option (Bytes × Bytes × Bytes) → Proc ShellCall ℤ
  cmd_health_watch none = watch_unconfirmed
  cmd_health_watch (some (name, deadline, word)) =
      if not (str_eq word (codes "confirm"))
      then watch_unconfirmed
      else watch_for name deadline (env.strtoul_any deadline)

  abbrev report_to : Bytes → ℕ × ℤ → Proc ShellCall ℤ
  report_to text (handle, error) =
      if not (is_ok error) || ltb 255 handle
      then refuse (codes "Invalid handle: " ++ text) einval
      else ask env.result (health_report handle)
        >>= unless_failed (codes "could not report handle " ++ decimal handle)
            (done_with (codes "Reported"))

  unfoldable pub cmd_health_report : Bytes → Proc ShellCall ℤ
  cmd_health_report text = report_to text (env.strtoul_any text)
