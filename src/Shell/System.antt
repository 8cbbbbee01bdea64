-- ===== src/Shell/System.antt =====
-- app/src/shell/shell_system.c: the commands `status`, `time`, `version` and `reboot`.
pub mod Revisions
mod Enough
pub mod Log
mod Tests
use k_fsw.Base.{
  ℕ, zero, suc, Bool, not, Option, none, some, List, [], ◌∷◌, ◌++◌, length, ◌==◌, if◌then◌else◌, ℤ,
  ok, is_ok, einval,
}
use k_fsw.Text.{Bytes, codes, decimal, str_eq}
use k_fsw.Env.{Proc, pure, ◌>>=◌, ◌>>◌, tell, recall}
use k_fsw.Parameters.Definition.{ParamType, string}
use k_fsw.Shell.Service.{ServiceCall, ParamValue, param_remote_get}
use k_fsw.Shell.{ShellCall, shell_print, ShellParts, ask}
use k_fsw.Shell.Remote.{parse_node, remote_failed}
use k_fsw.Shell.Command.{RunEnv, run_command, this_node}

-- `struct kfsw_boot_diagnostics`, as it is printed.
pub record BootDiagnostics : Type 0 where
  pub attempts : ℕ
  pub revert_reason : ℕ
  pub valid : Bool

-- The options CONFIG_KFSW_COMMAND_CSP, CONFIG_KFSW_PARAM_CSP and CONFIG_KFSW_CSP with its address;
-- the texts of the build; and what the services give.
pub record SystemShell : Type 0 where
  pub parts : ShellParts
  pub registry : RunEnv
  pub command_csp : Bool
  pub param_csp : Bool
  pub csp_address : Option ℕ
  pub role : Bytes
  pub instance_name : Bytes
  pub board_target : Bytes
  pub soc : Bytes
  pub kernel_version : Bytes
  pub revisions : Bytes
  pub hardware_id : Bytes
  pub image_version : Bytes
  pub diagnostics : List ShellCall → BootDiagnostics
  pub own_address : List ShellCall → ℕ
  pub uptime_ms : List ShellCall → ℕ
  pub uptime_us : List ShellCall → ℕ
  pub result : List ShellCall → ServiceCall → ℤ
  pub value : List ShellCall → ParamValue

abbrev pub row : Bytes → Bytes → Proc ShellCall (Unit {0})
row name text = tell (shell_print (name ++ codes ": " ++ text))

-- The repository of a label.
unfoldable pub repository_of : Bytes → Option Bytes
unfolding str_eq
repository_of label =
    if str_eq label (codes "app")
    then some (codes "k-fsw")
    else if str_eq label (codes "plat")
    then some (codes "kfsw-platform")
    else if str_eq label (codes "svc")
    then some (codes "kfsw-services")
    else if str_eq label (codes "comms")
    then some (codes "kfsw-comms")
    else if str_eq label (codes "mod")
    then some (codes "kfsw-modules")
    else if str_eq label (codes "csp")
    then some (codes "kfsw-libcsp")
    else if str_eq label (codes "param")
    then some (codes "kfsw-libparam")
    else none

-- A text up to its first space, and what is left from there on.
abbrev pub into_first : ℕ → Bytes × Bytes → Bytes × Bytes
into_first c (word, behind) = (c ∷ word, behind)

unfoldable pub until_space : Bytes → Bytes × Bytes
until_space [] = ([], [])
until_space (c ∷ cs) =
    let rest = into_first c (until_space cs) in if c == b' ' then ([], c ∷ cs) else rest

unfoldable pub past_spaces : Bytes → Bytes
past_spaces [] = []
past_spaces (c ∷ cs) = let rest = past_spaces cs in if c == b' ' then rest else c ∷ cs

-- A word at its first colon.
abbrev pub into_label : ℕ → Option (Bytes × Bytes) → Option (Bytes × Bytes)
into_label c none = none
into_label c (some (label, revision)) = some (c ∷ label, revision)

unfoldable pub at_colon : Bytes → Option (Bytes × Bytes)
at_colon [] = none
at_colon (c ∷ cs) =
    let rest = into_label c (at_colon cs) in if c == b':' then some ([], cs) else rest

abbrev name_or : Bytes → Option Bytes → Bytes
name_or label none = label
name_or label (some name) = name

unfoldable pub revision_line : Bytes → Bytes → Bytes
revision_line label revision =
    codes "  " ++ name_or label (repository_of label) ++ codes ": " ++ revision

-- A word with a colon is printed, another is not.
abbrev pub print_split : Option (Bytes × Bytes) → Proc ShellCall (Unit {0})
print_split none = pure tt
print_split (some (label, revision)) = tell (shell_print (revision_line label revision))

-- The loop, on fuel of the bytes left.
unfoldable pub print_words : ℕ → Bytes → Proc ShellCall (Unit {0})
print_words zero text = pure tt
print_words (suc fuel) [] = pure tt
print_words (suc fuel) (c ∷ cs) =
    let split = until_space (c ∷ cs) in
    print_split (at_colon split.0) >> print_words fuel (past_spaces split.1)

unfoldable pub print_revisions : Bytes → Proc ShellCall (Unit {0})
print_revisions text = do tell (shell_print (codes "revisions:")); print_words (length text) text

module _ (env : SystemShell) where
  abbrev print_remote_value : ParamValue → Proc ShellCall ℤ
  print_remote_value v = elim v.type [ string ↦ print_revisions v.text >> pure ok | _ ↦ pure ok ]

  abbrev value_read : ℕ → ℤ → Proc ShellCall ℤ
  value_read node result =
      if not (is_ok result)
      then remote_failed (codes "status revisions") node result
      else recall env.value >>= print_remote_value

  -- The parameter client reads other nodes; this one answers from here.
  abbrev revisions_of : ℕ → ℕ → Proc ShellCall ℤ
  revisions_of node own =
      if node == own
      then print_revisions env.revisions >> pure ok
      else ask env.result (param_remote_get node (codes "boot_revisions")) >>= value_read node

  abbrev info_run : ℕ → ℤ → Proc ShellCall ℤ
  info_run node result =
      if not env.param_csp
      then pure result
      else if not (is_ok result)
      then pure result
      else recall env.own_address >>= revisions_of node

  unfoldable remote_status : ℕ → Proc ShellCall ℤ
  remote_status node = run_command env.registry node (codes "info") [] >>= info_run node

  abbrev status_of : Option ℕ → Proc ShellCall ℤ
  status_of none = pure einval
  status_of (some node) = remote_status node

  abbrev print_csp_address : Option ℕ → Proc ShellCall (Unit {0})
  print_csp_address none = pure tt
  print_csp_address (some address) = row (codes "CSP node") (decimal address)

  abbrev local_status : Proc ShellCall ℤ
  local_status = do
    tell (shell_print (codes "K-FSW status"))
    row (codes "Role") env.role
    row (codes "Name") env.instance_name
    print_csp_address env.csp_address
    row (codes "board") env.board_target
    row (codes "unit") env.hardware_id
    ms ← recall env.uptime_ms
    row (codes "uptime_ms") (decimal ms)
    print_revisions env.revisions
    pure ok

  -- A node is only read in a build that can reach it.
  unfoldable cmd_status : Option Bytes → Proc ShellCall ℤ
  cmd_status none = local_status
  cmd_status (some text) =
      if env.command_csp then parse_node env.parts text >>= status_of else local_status

  unfoldable cmd_time : Proc ShellCall ℤ
  cmd_time = do
    ms ← recall env.uptime_ms
    row (codes "monotonic_ms") (decimal ms)
    us ← recall env.uptime_us
    row (codes "monotonic_us") (decimal us)
    pure ok

  abbrev print_trial : BootDiagnostics → Proc ShellCall ℤ
  print_trial d = do
    tell (
        shell_print (
          codes "Boot trial: attempts="
          ++ decimal d.attempts
          ++ codes " revert_reason="
          ++ decimal d.revert_reason
          ++ codes " valid="
          ++ (if d.valid then codes "1" else codes "0")))
    pure ok

  unfoldable cmd_version : Proc ShellCall ℤ
  cmd_version = do
    row (codes "K-FSW") env.image_version
    row (codes "Revisions") env.revisions
    row (codes "Zephyr") env.kernel_version
    row (codes "Board") env.board_target
    row (codes "SoC") env.soc
    row (codes "Unit") env.hardware_id
    recall env.diagnostics >>= print_trial

  unfoldable cmd_reboot : Bytes → Proc ShellCall ℤ
  cmd_reboot pin = run_command env.registry this_node (codes "reboot") (pin ∷ [])
