-- ===== src/Shell/Event.antt =====
-- app/src/shell/shell_event.c: the `event` commands, for the record of events. The events that are
-- visited and the counters are functions of the history.
use k_fsw.Base.{
  ℕ, ◌+◌, ◌%◌, ◌/◌, ◌^◌, Bool, Option, none, some, List, [], ◌∷◌, ◌++◌, if◌then◌else◌, ℤ, ok,
  einval,
}
use k_fsw.Text.{Bytes, codes, decimal, hex_bytes, pad_left, pad_right}
use k_fsw.Env.{Proc, pure, ◌>>=◌, ◌>>◌, tell, recall}
use k_fsw.Shell.Service.{event_clear}
use k_fsw.Shell.{ShellCall, shell_print, service, ShellParts}
use k_fsw.Shell.Report.{row, number_row, done_with}
use k_fsw.Shell.Remote.{parse_node}
use k_fsw.Shell.Command.{RunEnv, run_command, this_node}

-- `struct kfsw_event_record`, its payload of `payload_size` bytes.
pub record EventRecord : Type 0 where
  pub sequence : ℕ
  pub monotonic_us : ℕ
  pub source : ℕ
  pub severity : ℕ
  pub id : ℕ
  pub payload : List ℕ

-- `struct kfsw_event_stats`
pub record EventStats : Type 0 where
  pub held : ℕ
  pub capacity : ℕ
  pub recorded : ℕ
  pub overwritten : ℕ
  pub rejected : ℕ

-- CONFIG_KFSW_COMMAND_CSP, the names of the sources and severities, the command registry, and what
-- the service gives.
pub record EventShell : Type 0 where
  pub parts : ShellParts
  pub registry : RunEnv
  pub command_csp : Bool
  pub source_name : ℕ → Bytes
  pub severity_name : ℕ → Bytes
  pub records : List ShellCall → List EventRecord
  pub stats : List ShellCall → EventStats

module _ (env : EventShell) where
  unfoldable print_payload : EventRecord → Proc ShellCall (Unit {0})
  print_payload r = tell (
      shell_print (
        pad_left 8 (decimal r.sequence)
        ++ codes " "
        ++ pad_left 10 (decimal (r.monotonic_us / 1000))
        ++ codes " "
        ++ pad_right 8 (env.source_name r.source)
        ++ codes " "
        ++ pad_right 8 (env.severity_name r.severity)
        ++ codes " "
        ++ pad_left 5 (decimal r.id)
        ++ codes " "
        ++ hex_bytes r.payload))

  -- The visit, with the count of the events shown.
  unfoldable print_events : List EventRecord → ℕ → Proc ShellCall ℕ
  print_events [] shown = pure shown
  print_events (r ∷ rs) shown = print_payload r >> print_events rs ((shown + 1) % 2 ^ 32)

  unfoldable cmd_event_list : Proc ShellCall ℤ
  cmd_event_list = do
    tell (shell_print (codes "     SEQ    TIME_MS SOURCE   SEVERITY    ID PAYLOAD"))
    records ← recall env.records
    shown ← print_events records 0
    done_with (codes "Events listed: " ++ decimal shown)

  abbrev print_event_stats : EventStats → Proc ShellCall ℤ
  print_event_stats s = do
    tell (shell_print (codes "K-FSW events"))
    row (codes "held") (decimal s.held ++ codes "/" ++ decimal s.capacity)
    number_row (codes "recorded") s.recorded
    number_row (codes "overwritten") s.overwritten
    number_row (codes "rejected") s.rejected
    pure ok

  abbrev run_on : Bytes → List Bytes → Option ℕ → Proc ShellCall ℤ
  run_on name argv none = pure einval
  run_on name argv (some node) = run_command env.registry node name argv

  -- Without CONFIG_KFSW_COMMAND_CSP a node is not read.
  unfoldable cmd_event_stats : Option Bytes → Proc ShellCall ℤ
  cmd_event_stats none = recall env.stats >>= print_event_stats
  cmd_event_stats (some node) =
      if env.command_csp
      then parse_node env.parts node >>= run_on (codes "event_stats") []
      else recall env.stats >>= print_event_stats

  unfoldable cmd_event_tail : Option Bytes → Bytes → Proc ShellCall ℤ
  cmd_event_tail none age = run_on (codes "event_tail") (age ∷ []) (some this_node)
  cmd_event_tail (some node) age =
      parse_node env.parts node >>= run_on (codes "event_tail") (age ∷ [])

  unfoldable cmd_event_clear : Proc ShellCall ℤ
  cmd_event_clear = do tell (service event_clear); done_with (codes "Event record cleared")
