-- ===== src/Shell/Limits.antt =====
-- app/src/shell/shell_limits.c: the `limits` commands, for the rules on parameters. What the
-- service answers and the rules that it visits are functions of the history.
use k_fsw.Base.{
  ℕ, Bool, not, Option, none, some, List, [], ◌∷◌, ◌++◌, ◌==◌, if◌then◌else◌, ℤ, ok, is_ok,
  is_negative, einval, ◌==ℤ◌,
}
use k_fsw.Text.{Bytes, codes, decimal, signed, pad_left, pad_right}
use k_fsw.Env.{Proc, pure, ◌>>=◌, ◌>>◌, tell, recall}
use k_fsw.Shell.Service.{ServiceCall, limits_load, limits_sweep}
use k_fsw.Shell.{ShellCall, shell_print, ask}
use k_fsw.Shell.Report.{row, number_row, refuse, done_with}

-- `struct kfsw_limits_status`; without a rule that has fired there is none, and no time.
pub record LimitsStatus : Type 0 where
  pub running : Bool
  pub rules : ℕ
  pub sweeps : ℕ
  pub fires : ℕ
  pub failures : ℕ
  pub last_fired : Option (ℕ × ℕ)
  pub parse_errors : ℕ
  pub error_line : ℕ
  pub error : Bytes

-- `struct kfsw_limits_rule`
pub record Rule : Type 0 where
  pub index : ℕ
  pub parameter : Bytes
  pub cmp : ℕ
  pub bound_text : Bytes
  pub dwell : ℕ
  pub node : ℕ
  pub latched : Bool
  pub action : Bytes

-- CONFIG_KFSW_LIMITS_FILE, `kfsw_limits_cmp_text`, and what the service gives.
pub record LimitsShell : Type 0 where
  pub default_file : Bytes
  pub cmp_text : ℕ → Bytes
  pub enabled : List ShellCall → Bool
  pub interval_ms : List ShellCall → ℕ
  pub result : List ShellCall → ServiceCall → ℤ
  pub status : List ShellCall → LimitsStatus
  pub rules : List ShellCall → List Rule

-- The columns behind the index of a rule.
abbrev columns : Bytes → Bytes → Bytes → Bytes → Bytes → Bytes → Bytes → Bytes → Bytes
columns index parameter op bound dwell node state action =
    pad_left 3 index
    ++ codes "  "
    ++ pad_right 24 parameter
    ++ codes " "
    ++ pad_right 2 op
    ++ codes " "
    ++ pad_right 12 bound
    ++ codes " "
    ++ pad_left 5 dwell
    ++ codes " "
    ++ pad_left 5 node
    ++ codes "  "
    ++ pad_right 7 state
    ++ codes " "
    ++ action

module _ (env : LimitsShell) where
  unfoldable limits_state : Bool → Bool → Bytes
  limits_state enabled running =
      if not enabled then codes "disabled" else if running then codes "sweeping" else codes "manual"

  abbrev print_fired : Option (ℕ × ℕ) → Proc ShellCall (Unit {0})
  print_fired none = row (codes "last_fired") (codes "none")
  print_fired (some (index, ms)) =
      row (codes "last_fired")
        (codes "rule " ++ decimal index ++ codes " at " ++ decimal ms ++ codes " ms")

  abbrev print_error : LimitsStatus → Proc ShellCall (Unit {0})
  print_error s =
      if s.error_line == 0
      then pure tt
      else row (codes "last_error") (codes "line " ++ decimal s.error_line ++ codes ": " ++ s.error)

  abbrev print_limits : LimitsStatus → Proc ShellCall ℤ
  print_limits s = do
    enabled ← recall env.enabled
    row (codes "state") (limits_state enabled s.running)
    number_row (codes "rules") s.rules
    interval ← recall env.interval_ms
    row (codes "interval") (decimal interval ++ codes " ms")
    row (codes "sweeps") (
        decimal s.sweeps
        ++ codes " fires: "
        ++ decimal s.fires
        ++ codes " failures: "
        ++ decimal s.failures)
    print_fired s.last_fired
    number_row (codes "parse_errors") s.parse_errors
    print_error s
    pure ok

  unfoldable cmd_limits_status : Proc ShellCall ℤ
  cmd_limits_status = recall env.status >>= print_limits

  unfoldable print_rule : Rule → Proc ShellCall (Unit {0})
  print_rule r = tell (
      shell_print (
        columns (decimal r.index) r.parameter (env.cmp_text r.cmp) r.bound_text (decimal r.dwell)
          (decimal r.node) (if r.latched then codes "fired" else codes "armed") r.action))

  unfoldable print_rules : List Rule → Proc ShellCall ℤ
  print_rules [] = pure ok
  print_rules (r ∷ rs) = print_rule r >> print_rules rs

  unfoldable cmd_limits_list : Proc ShellCall ℤ
  cmd_limits_list = do
    tell (
        shell_print (
          columns (codes "idx") (codes "parameter") (codes "op") (codes "bound") (codes "dwell")
            (codes "node") (codes "state") (codes "action")))
    recall env.rules >>= print_rules

  abbrev not_loaded : ℤ → Proc ShellCall ℤ
  not_loaded result = refuse (codes "Load failed: " ++ signed result) result

  -- Why a file is refused, where the status says a line.
  abbrev refused_at : Bytes → ℤ → LimitsStatus → Proc ShellCall ℤ
  refused_at name result s =
      if s.error_line == 0
      then not_loaded result
      else refuse (name ++ codes " refused, line " ++ decimal s.error_line ++ codes ": " ++ s.error)
          result

  abbrev print_loaded : Bytes → LimitsStatus → Proc ShellCall ℤ
  print_loaded name s =
      done_with (codes "Loaded " ++ decimal s.rules ++ codes " rules from " ++ name)

  abbrev was_loaded : Bytes → ℤ → Proc ShellCall ℤ
  was_loaded name result =
      if result ==ℤ einval
      then recall env.status >>= refused_at name result
      else if not (is_ok result)
      then not_loaded result
      else recall env.status >>= print_loaded name

  abbrev load_file : Bytes → Proc ShellCall ℤ
  load_file name = ask env.result (limits_load name) >>= was_loaded name

  unfoldable cmd_limits_load : Option Bytes → Proc ShellCall ℤ
  cmd_limits_load none = load_file env.default_file
  cmd_limits_load (some name) = load_file name

  abbrev swept : ℤ → Proc ShellCall ℤ
  swept rules =
      if is_negative rules
      then refuse (codes "Sweep refused: " ++ signed rules) rules
      else done_with (codes "Evaluated " ++ signed rules ++ codes " rules")

  unfoldable cmd_limits_sweep : Proc ShellCall ℤ
  cmd_limits_sweep = ask env.result limits_sweep >>= swept
