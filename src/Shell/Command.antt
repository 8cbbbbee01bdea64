-- ===== src/Shell/Command.antt =====
-- app/src/shell/shell_command.c: the front end of the command registry.
pub mod Fields
pub mod Order
mod Tests
use k_fsw.Base.{
  ℕ, zero, suc, ◌+◌, ◌-◌, Bool, true, false, not, ◌&&◌, ◌||◌, Option, none, some, List, [], ◌∷◌,
  ◌++◌, ltb, leb, ◌==◌, if◌then◌else◌, ℤ, ok, is_ok, einval, eacces, eio, enoent, enotsup,
  enametoolong, ◌==ℤ◌, length, take, drop,
}
use k_fsw.Text.{Bytes, codes, decimal, str_eq, fitted}
use k_fsw.Env.{Proc, pure, ◌>>=◌, ◌>>◌, call, tell, recall}
use k_fsw.Commands.{CommandArg}
use k_fsw.Shell.{ShellCall, shell_print, shell_error, command_invoke, command_invoke_remote}
use k_fsw.Shell.Remote.{remote_failed}

-- The loop of `all_fields`, on whether a word has begun and whether it has an equals sign.
unfoldable pub fields_from : Bool → Bool → Bytes → Bool
fields_from in_word has_equals [] = not in_word || has_equals
fields_from in_word has_equals (c ∷ cs) =
    let next_word = fields_from false false cs in
    let same_word = fields_from true (has_equals || c == b'=') cs in
    if c == b' ' then (if in_word && not has_equals then false else next_word) else same_word

unfoldable pub all_fields : Bytes → Bool
unfolding fields_from
all_fields = fields_from false false

-- The words of a text, as `strtok_r` on a space finds them: runs of spaces separate. The word at
-- the front may be empty.
abbrev pub add_word : Bytes × List Bytes → List Bytes
add_word ([], ws) = ws
add_word (c ∷ w, ws) = (c ∷ w) ∷ ws

abbrev pub into_word : ℕ → Bytes × List Bytes → Bytes × List Bytes
into_word c (w, ws) = (c ∷ w, ws)

unfoldable pub front_word : Bytes → Bytes × List Bytes
front_word [] = ([], [])
front_word (c ∷ cs) =
    let rest = front_word cs in if c == b' ' then ([], add_word rest) else into_word c rest

abbrev pub words : Bytes → List Bytes
words text = add_word (front_word text)

-- A field at its first equals sign.
abbrev push_name : ℕ → Option (Bytes × Bytes) → Option (Bytes × Bytes)
push_name c none = none
push_name c (some (name, value)) = some (c ∷ name, value)

unfoldable pub at_equals : Bytes → Option (Bytes × Bytes)
at_equals [] = none
at_equals (c ∷ cs) =
    let rest = push_name c (at_equals cs) in if c == b'=' then some ([], cs) else rest

unfoldable pub print_field : Bytes → Proc ShellCall (Unit {0})
print_field field = elim (at_equals field) [
  | none ↦ tell (shell_print field)
  | some (name, value) ↦ tell (shell_print (name ++ codes ": " ++ value))
]

abbrev pub print_all : List Bytes → Proc ShellCall (Unit {0})
print_all [] = pure tt
print_all (field ∷ fields) = print_field field >> print_all fields

-- `kfsw_shell_print_fields`, with KFSW_COMMAND_MAX_DETAIL_SIZE.
unfoldable pub print_fields : ℕ → Bytes → Proc ShellCall (Unit {0})
print_fields detail_size text =
    if length text == 0
    then pure tt
    else if not (all_fields text)
    then tell (shell_print text)
    else print_all (words (fitted detail_size text))

-- The result of an invocation: whether its status is OK, and the status's name.
pub record CommandReply : Type 0 where
  pub accepted : Bool
  pub status_name : Bytes
  pub detail : Bytes

-- The registry: whether it is initialized, the types of a command's arguments by their numbers, and
-- `kfsw_command_parse_arg`; CONFIG_KFSW_COMMAND_CSP, KFSW_COMMAND_MAX_TEXT_SIZE and
-- KFSW_COMMAND_MAX_DETAIL_SIZE; and what an invocation gives.
pub record RunEnv : Type 0 where
  pub initialized : Bool
  pub find : Bytes → Option (List ℕ)
  pub parse_arg : Bytes → ℕ → ℤ × CommandArg
  pub command_csp : Bool
  pub max_text_size : ℕ
  pub detail_size : ℕ
  pub result : List ShellCall → ShellCall → ℤ
  pub reply : List ShellCall → CommandReply

-- KFSW_SHELL_THIS_NODE
abbrev pub this_node : ℕ
this_node = 0

-- The last word and those before it.
abbrev pub before_last : Bytes → Option (List Bytes × Bytes) → List Bytes × Bytes
before_last w none = ([], w)
before_last w (some (ws, l)) = (w ∷ ws, l)

unfoldable pub last_word : List Bytes → Option (List Bytes × Bytes)
last_word [] = none
last_word (w ∷ ws) = some (before_last w (last_word ws))

-- Whether `--retry` ends the words for another node, and the words without it.
unfoldable pub take_retry : ℕ → List Bytes → Bool × List Bytes
take_retry node argv = elim (last_word argv) [
  | none ↦ (false, argv)
  | some (rest, word) ↦
      if not (node == this_node) && str_eq word (codes "--retry")
      then (true, rest)
      else (false, argv)
]

abbrev pub refuse : Bytes → ℤ → Proc ShellCall ℤ
refuse text result = do tell (shell_error text); pure result

-- The loop over the arguments: the error of the first that is refused, or all of them.
pub data Parsed : Type 0 where
  bad_argument : Bytes → ℕ → ℤ → Parsed
  good_arguments : List CommandArg → Parsed

abbrev pub with_argument : CommandArg → Parsed → Parsed
with_argument arg (bad_argument text type outcome) = bad_argument text type outcome
with_argument arg (good_arguments args) = good_arguments (arg ∷ args)

module _ (env : RunEnv) where
  -- Why an argument is refused.
  abbrev pub argument_error : Bytes → ℕ → ℤ → Bytes
  argument_error text type outcome =
      if outcome ==ℤ enametoolong
      then codes "argument is longer than " ++ decimal env.max_text_size ++ codes " bytes"
      else if outcome ==ℤ enotsup
      then codes "argument type " ++ decimal type ++ codes " is not supported here"
      else codes "invalid argument '" ++ text ++ codes "'"

  unfoldable pub parse_arguments : List Bytes → List ℕ → Parsed
  parse_arguments (text ∷ argv) (type ∷ types) =
      let rest = with_argument (env.parse_arg text type).1 (parse_arguments argv types) in
      if is_ok (env.parse_arg text type).0
      then rest
      else bad_argument text type (env.parse_arg text type).0
  parse_arguments _ _ = good_arguments []

  -- Behind the invocation.
  abbrev pub answered : ℕ → Bytes → CommandReply → Proc ShellCall ℤ
  answered node name r =
      if not r.accepted
      then refuse
          (name
            ++ codes ": "
            ++ r.status_name
            ++ (if length r.detail == 0 then [] else codes ", ")
            ++ r.detail)
          eio
      else (do
        if node == this_node then pure tt else tell (shell_print (codes "node: " ++ decimal node))
        print_fields env.detail_size r.detail
        pure ok)

  abbrev pub reached : ℕ → Bytes → ℤ → Proc ShellCall ℤ
  reached node name outcome =
      if not (is_ok outcome)
      then remote_failed name node outcome
      else recall env.reply >>= answered node name

  -- `invoke_remote`, and what follows it.
  abbrev pub invoked : ℕ → Bytes → List CommandArg → Bool → Proc ShellCall ℤ
  invoked node name args retry =
      if node == this_node
      then (do tell (command_invoke name args); r ← recall env.reply; answered node name r)
      else if env.command_csp
      then call env.result (command_invoke_remote node name args retry) >>= reached node name
      else refuse (codes "Reaching another node needs CONFIG_KFSW_COMMAND_CSP") enotsup

  abbrev pub with_arguments : ℕ → Bytes → Bool → Parsed → Proc ShellCall ℤ
  with_arguments node name retry (bad_argument text type outcome) =
      refuse (argument_error text type outcome) outcome
  with_arguments node name retry (good_arguments args) = invoked node name args retry

  abbrev pub known : ℕ → Bytes → Bool × List Bytes → List ℕ → Proc ShellCall ℤ
  known node name (retry, argv) types =
      if not (length argv == length types)
      then refuse
          (name
            ++ codes " takes "
            ++ decimal (length types)
            ++ codes " argument(s), got "
            ++ decimal (length argv))
          einval
      else with_arguments node name retry (parse_arguments argv types)

  abbrev pub looked_up : ℕ → Bytes → List Bytes → Option (List ℕ) → Proc ShellCall ℤ
  looked_up node name argv none = refuse (name ++ codes " is not in this build") enoent
  looked_up node name argv (some types) = known node name (take_retry node argv) types

  -- `kfsw_shell_run_command`
  unfoldable pub run_command : ℕ → Bytes → List Bytes → Proc ShellCall ℤ
  run_command node name argv =
      if not env.initialized
      then refuse (codes "Command registry is not initialized") eacces
      else looked_up node name argv (env.find name)
