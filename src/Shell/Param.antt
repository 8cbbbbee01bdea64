-- ===== src/Shell/Param.antt =====
-- app/src/shell/shell_param.c: the `param` commands. This file reads and writes one value; a
-- command takes the words behind its name, the last one as an Option where it may be missing.
pub mod Format
pub mod Set
pub mod Fit
pub mod Columns
pub mod Listing
pub mod Table
pub mod Windows
pub mod Tables
pub mod Snapshot
mod Tests
use k_fsw.Base.{
  ℕ, ◌+◌, ◌%◌, Bool, true, false, not, ◌&&◌, ◌||◌, Option, none, some, List, [], ◌∷◌, ◌++◌, ltb,
  ◌==◌, if◌then◌else◌, ℤ, ok, is_ok, ◌==ℤ◌, einval, enoent, eacces, emsgsize,
}
use k_fsw.Text.{Bytes, codes, decimal, signed, str_eq}
use k_fsw.Env.{Proc, pure, ◌>>=◌, ◌>>◌, tell, recall}
use k_fsw.Parameters.Definition.{ParamType}
use k_fsw.Shell.Service.{
  ServiceCall, ParamValue, param_get, param_set, param_get_info, param_remote_get, param_remote_set,
}
use k_fsw.Shell.{ShellCall, shell_print, shell_error, ShellParts, ask}
use k_fsw.Shell.Remote.{no_answer, remote_failed}
use k_fsw.Shell.Param.Format.{FormatParts, format_param_value}

-- `struct kfsw_param_info` and `struct kfsw_param_table_info`; a text that may be NULL is an Option.
pub record ParamInfo : Type 0 where
  pub name : Bytes
  pub table : ℕ
  pub table_name : Option Bytes
  pub offset : ℕ
  pub type : ParamType
  pub flags : ℕ
  pub unit : Option Bytes
  pub description : Option Bytes

pub record TableInfo : Type 0 where
  pub id : ℕ
  pub name : Bytes
  pub count : ℕ
  pub description : Option Bytes

-- The options CONFIG_KFSW_PARAM_CSP, CONFIG_KFSW_PARAM_PERSISTENCE and
-- CONFIG_KFSW_PARAM_REMOTE_POOL_SIZE, KFSW_PARAM_STRING_MAX, KFSW_PARAM_NAME_MAX and the first and
-- last table; what the parameter service names and parses; and what its calls answer and leave
-- behind their pointers: a value, a window of values, the descriptors or the tables that a visit
-- goes through, one descriptor, and the numbers of the snapshot.
pub record ParamShell : Type 0 where
  pub parts : ShellParts
  pub format : FormatParts
  pub csp : Bool
  pub persistence : Bool
  pub remote_pool_size : ℕ
  pub string_max : ℕ
  pub name_max : ℕ
  pub core_first : ℕ
  pub module_last : ℕ
  pub type_name : ParamType → Bytes
  pub mode_name : ℕ → Bytes
  pub band_name : ℕ → Bytes
  pub parse_text : Bytes → ParamValue → ℤ × ParamValue
  pub result : List ShellCall → ServiceCall → ℤ
  pub own_address : List ShellCall → ℕ
  pub value : List ShellCall → ParamValue
  pub window : List ShellCall → ℕ → ParamValue
  pub visited : List ShellCall → List ParamInfo
  pub tables : List ShellCall → List TableInfo
  pub info : List ShellCall → ParamInfo
  pub kept : List ShellCall → ℕ
  pub persist_bytes : List ShellCall → ℕ

-- THIS_NODE
abbrev pub this_node : ℕ
this_node = 0

abbrev pub refuse : Bytes → ℤ → Proc ShellCall ℤ
refuse text result = do tell (shell_error text); pure result

-- Behind a step that has told why it gives nothing: -EINVAL.
abbrev pub or_einval : (ℕ → Proc ShellCall ℤ) → Option ℕ → Proc ShellCall ℤ
or_einval next none = pure einval
or_einval next (some n) = next n

unfoldable pub print_param_error : Bytes → Bytes → ℤ → Proc ShellCall ℤ
print_param_error operation name result =
    if result ==ℤ enoent
    then refuse (operation ++ codes ": parameter '" ++ name ++ codes "' not found") result
    else if result ==ℤ eacces
    then refuse
        (operation
          ++ codes ": parameter '"
          ++ name
          ++ codes "' is read-only or service is not ready")
        result
    else if result ==ℤ emsgsize
    then refuse (operation ++ codes ": value type or size does not match '" ++ name ++ codes "'")
        result
    else refuse
        (operation
          ++ codes ": parameter '"
          ++ name
          ++ codes "' failed ("
          ++ signed result
          ++ codes ")")
        result

module _ (env : ParamShell) where
  abbrev pub node_read : ℕ × ℤ → Proc ShellCall (Option ℕ)
  node_read (parsed, parse_error) =
      if not (is_ok parse_error) || parsed == 0 || ltb env.parts.broadcast_address parsed
      then (do
        tell (
            shell_error
              (codes "CSP node must be in range 1.." ++ decimal env.parts.broadcast_address))
        pure none)
      else (do
        address ← recall env.own_address
        pure (some (if parsed == address then this_node else parsed % 65536)))

  -- `parse_param_node`: the node, or none with -EINVAL; this node's own address is no node.
  unfoldable pub parse_param_node : Bytes → Proc ShellCall (Option ℕ)
  parse_param_node text = node_read (env.parts.strtoul text)

  -- KFSW_PARAM_VALUE_TEXT_SIZE
  abbrev pub value_text : ParamValue → Bytes
  value_text v = format_param_value env.format (env.string_max + 3) v

  unfoldable pub print_param_value : ℕ → Bytes → ParamValue → Proc ShellCall (Unit {0})
  print_param_value node name v =
      if node == this_node
      then tell (shell_print (name ++ codes " = " ++ value_text v))
      else tell (shell_print (decimal node ++ codes ":" ++ name ++ codes " = " ++ value_text v))

  abbrev pub read_call : ℕ → Bytes → ServiceCall
  read_call node name = if node == this_node then param_get name else param_remote_get node name

  -- Behind a call on a node: the node did not answer, the call failed, or it goes on.
  abbrev pub on_answer : Bytes → ℕ → Bytes → (Unit {0} → Proc ShellCall ℤ) → ℤ → Proc ShellCall ℤ
  on_answer operation node name next result =
      if not (node == this_node) && no_answer result
      then remote_failed (codes "param " ++ operation) node result
      else if not (is_ok result)
      then print_param_error operation name result
      else next tt

  unfoldable pub get_value : ℕ → Bytes → Proc ShellCall ℤ
  get_value node name =
      ask env.result (read_call node name)
      >>= on_answer (codes "get") node name
          (λ _. do v ← recall env.value; print_param_value node name v; pure ok)

  -- One word is the name; of two the first is the node.
  unfoldable pub cmd_param_get : Bytes → Option Bytes → Proc ShellCall ℤ
  cmd_param_get first none = get_value this_node first
  cmd_param_get first (some name) =
      parse_param_node first >>= or_einval (λ node. get_value node name)

  -- The value as it is stored now, and whether it applies at the next boot.
  abbrev pub stored_here : Bytes → ℤ → Proc ShellCall ℤ
  stored_here name result =
      if not (is_ok result) then print_param_error (codes "set") name result else (do
        v ← recall env.value
        print_param_value this_node name v
        known ← ask env.result (param_get_info name)
        info ← recall env.info
        if is_ok known && str_eq (env.mode_name info.flags) (codes "b")
            then tell (shell_print (codes "stored; takes effect after reboot"))
            else pure tt
        pure ok)

  abbrev pub set_here : Bytes → ParamValue → Proc ShellCall ℤ
  set_here name v = ask env.result (param_set name v) >>= λ result.
      if is_ok result
      then ask env.result (param_get name) >>= stored_here name
      else stored_here name result

  abbrev pub set_there : ℕ → Bytes → ParamValue → Proc ShellCall ℤ
  set_there node name v =
      ask env.result (param_remote_set node name v)
      >>= on_answer (codes "set") node name (λ _. do print_param_value node name v; pure ok)

  abbrev pub set_parsed : ℕ → Bytes → Bytes → ℤ × ParamValue → Proc ShellCall ℤ
  set_parsed node name text (result, v) =
      if not (is_ok result)
      then refuse
          (codes "set: invalid " ++ env.type_name v.type ++ codes " value '" ++ text ++ codes "'")
          result
      else if node == this_node
      then set_here name v
      else set_there node name v

  -- The present value gives the type that the text is read as.
  unfoldable pub set_value : ℕ → Bytes → Bytes → Proc ShellCall ℤ
  set_value node name text =
      ask env.result (read_call node name)
      >>= on_answer (codes "set") node name
          (λ _. do old ← recall env.value; set_parsed node name text (env.parse_text text old))

  -- Two words are the name and the text; of three the first is the node.
  unfoldable pub cmd_param_set : Bytes → Bytes → Option Bytes → Proc ShellCall ℤ
  cmd_param_set first second none = set_value this_node first second
  cmd_param_set first second (some text) =
      parse_param_node first >>= or_einval (λ node. set_value node second text)
