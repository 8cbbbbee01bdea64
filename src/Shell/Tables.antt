-- ===== src/Shell/Tables.antt =====
-- app/src/shell/shell_table.c: the `table` commands, for parameter tables that come as files. What
-- the service answers and leaves in a structure are functions of the history; a report is printed
-- whether the service accepts the file or not.
use k_fsw.Base.{ℕ, not, ◌||◌, List, ◌++◌, ltb, length, ◌==◌, if◌then◌else◌, ℤ, ok, is_ok, einval}
use k_fsw.Text.{Bytes, codes, decimal, signed, hex_fixed}
use k_fsw.Env.{Proc, pure, ◌>>=◌, ◌>>◌, tell, recall}
use k_fsw.Shell.Service.{
  ServiceCall, table_get_status, table_validate, table_load, table_revert, table_dump,
}
use k_fsw.Shell.{ShellCall, shell_error, ShellParts, ask}
use k_fsw.Shell.Report.{row, number_row, refuse, done_with}

-- `struct kfsw_table_report`
pub record TableReport : Type 0 where
  pub table : ℕ
  pub entries : ℕ
  pub accepted : ℕ
  pub failed_entry : ℕ
  pub failed_offset : ℕ
  pub reason : ℤ

-- `struct kfsw_table_status`
pub record TableStatus : Type 0 where
  pub state : ℕ
  pub table : ℕ
  pub entries : ℕ
  pub path : Bytes
  pub loads : ℕ
  pub rejections : ℕ
  pub reverts : ℕ

-- `kfsw_table_state_name`, and what the service gives, with the entries that a dump has written.
pub record TableShell : Type 0 where
  pub parts : ShellParts
  pub state_name : ℕ → Bytes
  pub result : List ShellCall → ServiceCall → ℤ
  pub report : List ShellCall → TableReport
  pub status : List ShellCall → TableStatus
  pub dumped : List ShellCall → ℕ

abbrev print_refusal : TableReport → Proc ShellCall (Unit {0})
print_refusal r =
    if r.failed_entry == 0
    then pure tt
    else tell (
        shell_error (
          codes "refused at entry "
          ++ decimal r.failed_entry
          ++ codes ", offset 0x"
          ++ hex_fixed 2 r.failed_offset
          ++ codes " ("
          ++ signed r.reason
          ++ codes ")"))

unfoldable print_report : TableReport → Proc ShellCall (Unit {0})
print_report r = do
  number_row (codes "table") r.table
  row (codes "entries") (decimal r.entries ++ codes " accepted: " ++ decimal r.accepted)
  print_refusal r

-- A failed call, with its result at the end of the line.
abbrev unless_refused : Bytes → Proc ShellCall ℤ → ℤ → Proc ShellCall ℤ
unless_refused text next result =
    if not (is_ok result) then refuse (text ++ codes ": " ++ signed result) result else next

module _ (env : TableShell) where
  abbrev print_tables : TableStatus → Proc ShellCall ℤ
  print_tables s = do
    row (codes "state") (env.state_name s.state)
    row (codes "last")
        (codes "table " ++ decimal s.table ++ codes ", " ++ decimal s.entries ++ codes " entries")
    row (codes "file") (if length s.path == 0 then codes "(none)" else s.path)
    row (codes "loads") (
        decimal s.loads
        ++ codes " rejections: "
        ++ decimal s.rejections
        ++ codes " reverts: "
        ++ decimal s.reverts)
    pure ok

  unfoldable cmd_table_show : Proc ShellCall ℤ
  cmd_table_show =
      ask env.result table_get_status
      >>= unless_refused (codes "Table status unavailable") (recall env.status >>= print_tables)

  abbrev validated : ℤ → Proc ShellCall ℤ
  validated result = do
    report ← recall env.report
    print_report report
    unless_refused (codes "Table file refused")
        (done_with (codes "Table file would be accepted whole; nothing was applied")) result

  unfoldable cmd_table_check : Bytes → Proc ShellCall ℤ
  cmd_table_check path = ask env.result (table_validate path) >>= validated

  abbrev loaded : ℤ → Proc ShellCall ℤ
  loaded result = do
    report ← recall env.report
    print_report report
    unless_refused (codes "Table file refused, nothing applied")
        (done_with (
          codes "Table "
          ++ decimal report.table
          ++ codes " loaded, "
          ++ decimal report.accepted
          ++ codes " entries; revert with 'table revert'"))
        result

  unfoldable cmd_table_load : Bytes → Proc ShellCall ℤ
  cmd_table_load path = ask env.result (table_load path) >>= loaded

  unfoldable cmd_table_revert : Proc ShellCall ℤ
  cmd_table_revert =
      ask env.result table_revert
      >>= unless_refused (codes "Nothing to revert") (done_with (codes "Previous values are back"))

  abbrev print_dumped : ℕ → Bytes → ℕ → Proc ShellCall ℤ
  print_dumped table path entries = done_with (
      codes "Table "
      ++ decimal table
      ++ codes " written to "
      ++ path
      ++ codes ", "
      ++ decimal entries
      ++ codes " entries")

  abbrev dump_table : Bytes → ℕ × ℤ → Proc ShellCall ℤ
  dump_table path (table, error) =
      if not (is_ok error) || table == 0 || ltb 99 table
      then refuse (codes "Table must be in range 1..99") einval
      else ask env.result (table_dump table path)
        >>= unless_refused (codes "Table dump failed")
            (recall env.dumped >>= print_dumped table path)

  unfoldable pub cmd_table_dump : Bytes → Bytes → Proc ShellCall ℤ
  cmd_table_dump table path = dump_table path (env.parts.strtoul table)
