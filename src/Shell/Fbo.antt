-- ===== src/Shell/Fbo.antt =====
-- app/src/shell/shell_fbo.c: the `fbo` commands, for procedures and the queue of commands that are
-- released later. What the services answer and leave in a structure are functions of the history.
use k_fsw.Base.{
  ℕ, zero, suc, ◌+◌, ◌%◌, ◌^◌, Bool, not, ◌||◌, List, [], ◌∷◌, ◌++◌, ltb, ◌==◌, if◌then◌else◌,
  length, ℤ, ok, is_ok, einval,
}
use k_fsw.Text.{Bytes, codes, decimal, signed, hex_fixed}
use k_fsw.Env.{Proc, pure, ◌>>=◌, ◌>>◌, tell, recall}
use k_fsw.Shell.Service.{
  ServiceCall, TypedArg, u32_arg, text_arg, command_invoke_args, fbo_schedule_get_status,
  fbo_schedule_get_entry, fbo_run, fbo_stop, fbo_get_status,
}
use k_fsw.Shell.{ShellCall, shell_print, service, ShellParts, ask}
use k_fsw.Shell.Report.{row, number_row, yes_no, refuse, unless_failed, done_with}

-- When an entry is due: at a UTC time, or so many seconds behind its scheduling, of which some
-- remain.
pub data Due : Type 0 where
  at_utc : ℤ → Due
  after_delay : ℕ → ℕ → Due

-- `struct kfsw_fbo_schedule_entry`
pub record ScheduleEntry : Type 0 where
  pub index : ℕ
  pub due : Due
  pub node : ℕ
  pub status : ℕ
  pub line : Bytes

-- `struct kfsw_fbo_schedule_status`
pub record ScheduleStatus : Type 0 where
  pub entries : ℕ
  pub capacity : ℕ
  pub scheduled : ℕ
  pub running : ℕ
  pub completed : ℕ
  pub failures : ℕ
  pub overdue : ℕ
  pub cancelled : ℕ
  pub clock_set : Bool
  pub latency_s : ℕ
  pub next_due_s : ℕ
  pub next_due_utc : ℤ
  pub releases : ℕ
  pub refusals : ℕ
  pub overdues : ℕ
  pub clock_steps : ℕ
  pub hash : ℕ
  pub last_error : ℤ

-- `struct kfsw_fbo_status`
pub record ProcedureStatus : Type 0 where
  pub name : Bytes
  pub is_running : Bool
  pub line : ℕ
  pub last_result : ℤ
  pub runs : ℕ
  pub lines_run : ℕ
  pub lines_failed : ℕ
  pub lines_skipped : ℕ

-- The reply of a command: the name of its status, and its detail.
pub record Reply : Type 0 where
  pub status_name : Bytes
  pub detail : Bytes

-- The numbers of the states of an entry, and what the services give.
pub record FboShell : Type 0 where
  pub parts : ShellParts
  pub state_scheduled : ℕ
  pub state_running : ℕ
  pub state_completed : ℕ
  pub state_failed : ℕ
  pub state_overdue : ℕ
  pub state_cancelled : ℕ
  pub result : List ShellCall → ServiceCall → ℤ
  pub reply : List ShellCall → Reply
  pub entry : List ShellCall → ScheduleEntry
  pub schedule : List ShellCall → ScheduleStatus
  pub procedure : List ShellCall → ProcedureStatus

module _ (env : FboShell) where
  unfoldable pub entry_status : ℕ → Bytes
  entry_status status =
      if status == env.state_scheduled
      then codes "scheduled"
      else if status == env.state_running
      then codes "running"
      else if status == env.state_completed
      then codes "completed"
      else if status == env.state_failed
      then codes "failed"
      else if status == env.state_overdue
      then codes "overdue"
      else if status == env.state_cancelled
      then codes "cancelled"
      else codes "unknown"

  abbrev print_reply : Bytes → ℤ → Reply → Proc ShellCall ℤ
  print_reply name outcome reply = do
    row name (
        reply.status_name
        ++ (if length reply.detail == 0 then [] else codes " (" ++ reply.detail ++ codes ")"))
    pure outcome

  abbrev was_invoked : Bytes → ℤ → Proc ShellCall ℤ
  was_invoked name outcome = recall env.reply >>= print_reply name outcome

  unfoldable pub invoke : Bytes → List TypedArg → Proc ShellCall ℤ
  invoke name args = ask env.result (command_invoke_args name args) >>= was_invoked name

  -- `shell_strtoul` in base 10, with the bound of both callers.
  abbrev number_error : ℕ × ℤ → Bool
  number_error (number, error) = not (is_ok error) || ltb 65535 number

  unfoldable pub cmd_fbo_sched_add : Bytes → Bytes → Bytes → Proc ShellCall ℤ
  cmd_fbo_sched_add due node line =
      if number_error (env.parts.strtoul node)
      then refuse (codes "node must be a number, 0 for this one") einval
      else invoke (codes "fbo_sched_add")
          (text_arg due ∷ u32_arg (env.parts.strtoul node).0 ∷ text_arg line ∷ [])

  unfoldable pub cmd_fbo_sched_cancel : Bytes → Proc ShellCall ℤ
  cmd_fbo_sched_cancel index =
      if number_error (env.parts.strtoul index)
      then refuse (codes "index must be a number") einval
      else invoke (codes "fbo_sched_cancel") (u32_arg (env.parts.strtoul index).0 ∷ [])

  unfoldable cmd_fbo_sched_clear : Proc ShellCall ℤ
  cmd_fbo_sched_clear = invoke (codes "fbo_sched_clear") []

  abbrev pub due_text : Due → Bytes
  due_text (at_utc seconds) = codes "@" ++ signed seconds
  due_text (after_delay delay remaining) =
      codes "+" ++ decimal delay ++ codes "s in=" ++ decimal remaining ++ codes "s"

  abbrev pub entry_line : ScheduleEntry → Bytes
  entry_line e =
      decimal e.index
      ++ codes " "
      ++ due_text e.due
      ++ codes " node="
      ++ decimal e.node
      ++ codes " "
      ++ entry_status e.status
      ++ codes " "
      ++ e.line

  abbrev print_entry : ℕ → ScheduleEntry → Proc ShellCall ℕ
  print_entry shown e = do tell (shell_print (entry_line e)); pure ((shown + 1) % 2 ^ 32)

  abbrev entry_read : ℕ → ℤ → Proc ShellCall ℕ
  entry_read shown result =
      if not (is_ok result) then pure shown else recall env.entry >>= print_entry shown

  -- The loop, from an index on for so many entries; it ends with the count of those shown.
  unfoldable print_schedule_entries : ℕ → ℕ → ℕ → Proc ShellCall ℕ
  print_schedule_entries zero index shown = pure shown
  print_schedule_entries (suc left) index shown =
      ask env.result (fbo_schedule_get_entry index)
      >>= entry_read shown
      >>= print_schedule_entries left (index + 1)

  abbrev listed : ℕ → Proc ShellCall ℤ
  listed shown = if shown == 0 then done_with (codes "the queue is empty") else pure ok

  abbrev list_entries : ScheduleStatus → Proc ShellCall ℤ
  list_entries status = print_schedule_entries status.capacity 0 0 >>= listed

  unfoldable cmd_fbo_sched_list : Proc ShellCall ℤ
  cmd_fbo_sched_list =
      ask env.result fbo_schedule_get_status
      >>= unless_failed (codes "queue unavailable") (recall env.schedule >>= list_entries)

  abbrev print_schedule : ScheduleStatus → Proc ShellCall ℤ
  print_schedule s = do
    row (codes "entries") (decimal s.entries ++ codes "/" ++ decimal s.capacity)
    number_row (codes "scheduled") s.scheduled
    number_row (codes "running") s.running
    number_row (codes "completed") s.completed
    number_row (codes "failed") s.failures
    number_row (codes "overdue") s.overdue
    number_row (codes "cancelled") s.cancelled
    row (codes "clock set") (yes_no s.clock_set)
    row (codes "latency") (decimal s.latency_s ++ codes " s")
    row (codes "next relative") (decimal s.next_due_s ++ codes " s")
    row (codes "next absolute") (signed s.next_due_utc)
    number_row (codes "releases") s.releases
    number_row (codes "refusals") s.refusals
    number_row (codes "overdues") s.overdues
    number_row (codes "clock steps") s.clock_steps
    row (codes "queue") (codes "0x" ++ hex_fixed 8 s.hash)
    row (codes "last error") (signed s.last_error)
    pure ok

  unfoldable cmd_fbo_sched_status : Proc ShellCall ℤ
  cmd_fbo_sched_status =
      ask env.result fbo_schedule_get_status
      >>= unless_failed (codes "queue unavailable") (recall env.schedule >>= print_schedule)

  abbrev run_started : Bytes → ℤ → Proc ShellCall ℤ
  run_started name result =
      if not (is_ok result)
      then refuse (codes "run " ++ name ++ codes ": " ++ signed result) result
      else done_with (name ++ codes " started")

  unfoldable cmd_fbo_run : Bytes → Proc ShellCall ℤ
  cmd_fbo_run name = ask env.result (fbo_run name) >>= run_started name

  unfoldable cmd_fbo_stop : Proc ShellCall ℤ
  cmd_fbo_stop = do tell (service fbo_stop); done_with (codes "stop requested")

  abbrev print_procedure : ProcedureStatus → Proc ShellCall ℤ
  print_procedure s = do
    row (codes "procedure") (if length s.name == 0 then codes "none" else s.name)
    row (codes "running") (yes_no s.is_running)
    number_row (codes "line") s.line
    row (codes "last result") (signed s.last_result)
    number_row (codes "runs") s.runs
    number_row (codes "lines run") s.lines_run
    number_row (codes "lines failed") s.lines_failed
    number_row (codes "lines skipped") s.lines_skipped
    pure ok

  unfoldable cmd_fbo_status : Proc ShellCall ℤ
  cmd_fbo_status =
      ask env.result fbo_get_status
      >>= unless_failed (codes "status unavailable") (recall env.procedure >>= print_procedure)
