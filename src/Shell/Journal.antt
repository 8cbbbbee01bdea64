-- ===== src/Shell/Journal.antt =====
-- app/src/shell/shell_journal.c: the `journal` commands, for the events that are kept on flash. The
-- records that a read of another node brings are a function of the history.
use k_fsw.Base.{
  ℕ, ◌%◌, Bool, true, not, ◌||◌, Option, none, some, List, [], ◌∷◌, ◌++◌, ltb, ◌==◌, if◌then◌else◌,
  ℤ, ok, is_ok, ◌==ℤ◌, einval, eio, enotsup,
}
use k_fsw.Text.{Bytes, codes, decimal, signed, hex_bytes}
use k_fsw.Env.{Proc, pure, ◌>>=◌, ◌>>◌, tell, recall}
use k_fsw.Shell.Service.{ServiceCall, log_remote_read}
use k_fsw.Shell.{ShellCall, shell_print, ShellParts, ask}
use k_fsw.Shell.Event.{EventRecord}
use k_fsw.Shell.Report.{number_row, refuse}
use k_fsw.Shell.Remote.{parse_node, remote_failed}
use k_fsw.Shell.Command.{RunEnv, run_command, this_node}

-- `struct kfsw_journal_record`
pub record JournalRecord : Type 0 where
  pub sequence : ℕ
  pub boot : ℕ
  pub utc_seconds : ℤ
  pub utc_valid : Bool
  pub event : EventRecord

-- KFSW_LOG_HISTORY_MAX_READ, the names of the sources, the command registry, and what the services
-- give.
pub record JournalShell : Type 0 where
  pub parts : ShellParts
  pub registry : RunEnv
  pub max_read : ℕ
  pub source_name : ℕ → Bytes
  pub result : List ShellCall → ServiceCall → ℤ
  pub records : List ShellCall → List JournalRecord

module _ (env : JournalShell) where
  abbrev run_on : Bytes → List Bytes → Option ℕ → Proc ShellCall ℤ
  run_on command argv none = pure einval
  run_on command argv (some node) = run_command env.registry node command argv

  -- `run`: the node if one is named, and the arguments behind it.
  unfoldable run : Bytes → Option Bytes → List Bytes → Proc ShellCall ℤ
  run command none argv = run_on command argv (some this_node)
  run command (some node) argv = parse_node env.parts node >>= run_on command argv

  unfoldable cmd_journal_stats : Option Bytes → Proc ShellCall ℤ
  cmd_journal_stats node = run (codes "journal_stats") node []

  unfoldable cmd_journal_tail : Option Bytes → Bytes → Proc ShellCall ℤ
  cmd_journal_tail node age = run (codes "journal_tail") node (age ∷ [])

  unfoldable cmd_journal_time : Option Bytes → Bytes → Proc ShellCall ℤ
  cmd_journal_time node age = run (codes "journal_time") node (age ∷ [])

  unfoldable print_event : JournalRecord → Proc ShellCall (Unit {0})
  print_event r = tell (
      shell_print (
        codes "seq="
        ++ decimal r.sequence
        ++ codes " boot="
        ++ decimal r.boot
        ++ codes " utc="
        ++ signed r.utc_seconds
        ++ (if r.utc_valid then [] else codes "?")
        ++ codes " src="
        ++ env.source_name r.event.source
        ++ codes " id="
        ++ decimal r.event.id
        ++ codes " sev="
        ++ decimal r.event.severity
        ++ codes " data="
        ++ hex_bytes r.event.payload))

  abbrev print_records : List JournalRecord → Proc ShellCall (Unit {0})
  print_records [] = pure tt
  print_records (r ∷ rs) = print_event r >> print_records rs

  abbrev journal_line : ℕ → Bytes → Bytes
  journal_line node text = codes "journal remote: node " ++ decimal node ++ text

  abbrev remote_result : ℕ → ℤ → Proc ShellCall ℤ
  remote_result node result =
      if result ==ℤ enotsup
      then refuse (journal_line node (codes " keeps no journal")) result
      else if result ==ℤ eio
      then refuse (journal_line node (codes " cut the read short")) result
      else if is_ok result
      then pure ok
      else remote_failed (codes "journal remote") node result

  -- What the visitor is given is printed while the call runs.
  abbrev journal_read : ℕ → ℤ → Proc ShellCall ℤ
  journal_read node result = do
    records ← recall env.records
    print_records records
    remote_result node result

  abbrev count_of : Option Bytes → ℕ × ℤ
  count_of none = (env.max_read, ok)
  count_of (some text) = env.parts.strtoul text

  abbrev read_counted : ℕ × ℤ → ℕ → Proc ShellCall ℤ
  read_counted (count, error) node =
      if not (is_ok error) || count == 0 || ltb env.max_read count
      then refuse
          (codes "Usage: journal remote <node> [count 1.." ++ decimal env.max_read ++ codes "]")
          einval
      else (do
        number_row (codes "node") node
        result ← ask env.result (log_remote_read node true (count % 65536) 0)
        journal_read node result)

  abbrev read_on : ℕ × ℤ → Option ℕ → Proc ShellCall ℤ
  read_on count none = pure einval
  read_on count (some node) = read_counted count node

  unfoldable cmd_journal_remote : Bytes → Option Bytes → Proc ShellCall ℤ
  cmd_journal_remote node count = parse_node env.parts node >>= read_on (count_of count)
