-- ===== src/Shell/Remexec.antt =====
-- app/src/shell/shell_remexec.c: asking another node what it offers, and to run it.
mod Allowlist
pub mod Join
pub mod Sent
mod Tests
use k_fsw.Base.{
  ℕ, zero, suc, ◌+◌, ◌-◌, Bool, true, false, not, ◌&&◌, Option, none, some, List, [], ◌∷◌, ◌++◌,
  leb, ltb, ◌==◌, if◌then◌else◌, ℤ, ok, is_ok, einval, eacces, eio, enametoolong, ◌==ℤ◌, length,
}
use k_fsw.Text.{Bytes, codes, decimal, signed, str_eq}
use k_fsw.Env.{Proc, pure, ◌>>=◌, ◌>>◌, call, tell, recall}
use k_fsw.Shell.{
  ShellCall, shell_print, shell_error, shell_warn, remexec_list_remote, remexec_run_remote,
  ShellParts,
}
use k_fsw.Shell.Remote.{parse_node, remote_failed}

-- KFSW_REMEXEC_OK, KFSW_REMEXEC_FAILED and the others.
pub data RemexecStatus : Type 0 where
  remexec_ok : RemexecStatus
  remexec_failed : RemexecStatus
  remexec_other : ℕ → RemexecStatus

-- `struct kfsw_remexec_reply`
pub record RemexecReply : Type 0 where
  pub status : RemexecStatus
  pub command_result : ℤ
  pub size : ℕ
  pub produced : ℕ
  pub dropped : ℕ
  pub truncated : Bool
  pub text : Bytes

-- KFSW_REMEXEC_COMMAND_MAX, the name of a status, and what the exchange gives.
pub record RemexecEnv : Type 0 where
  pub parts : ShellParts
  pub command_max : ℕ
  pub status_name : RemexecStatus → Bytes
  pub result : List ShellCall → ShellCall → ℤ
  pub reply : List ShellCall → RemexecReply

-- The loop of `join_command`, on the line so far; none is a line that does not fit.
unfoldable pub join_words : ℕ → Bytes → List Bytes → Option Bytes
join_words capacity line [] = some line
join_words capacity line (word ∷ words) =
    let rest = join_words capacity (line ++ b' ' ∷ word) words in
    if leb capacity (length line + length word + 1) then none else rest

-- `join_command`; the first word has no space in front.
unfoldable pub join_command : ℕ → List Bytes → Option Bytes
join_command capacity [] = some []
join_command capacity (word ∷ words) =
    if leb capacity (length word) then none else join_words capacity word words

-- The lines of a text, as `strchr` for a newline finds them; nothing follows a newline at the end.
abbrev before_line : ℕ → List Bytes → List Bytes
before_line c [] = (c ∷ []) ∷ []
before_line c (line ∷ lines) = (c ∷ line) ∷ lines

unfoldable pub text_lines : Bytes → List Bytes
text_lines [] = []
text_lines (c ∷ cs) = if c == 10 then [] ∷ text_lines cs else before_line c (text_lines cs)

-- What stands before and behind the first tab.
abbrev push_front : ℕ → Option (Bytes × Bytes) → Option (Bytes × Bytes)
push_front c none = none
push_front c (some (name, help)) = some (c ∷ name, help)

unfoldable pub at_tab : Bytes → Option (Bytes × Bytes)
at_tab [] = none
at_tab (c ∷ cs) = let rest = push_front c (at_tab cs) in if c == 9 then some ([], cs) else rest

abbrev spaces : ℕ → Bytes
spaces zero = []
spaces (suc n) = b' ' ∷ spaces n

-- One line: `%-24.*s %.*s` with a tab, as it is without one, and nothing if it is empty.
unfoldable pub print_line : Bytes → Proc ShellCall (Unit {0})
print_line line = elim (at_tab line) [
  | some (name, help) ↦ tell (shell_print (name ++ spaces (24 - length name) ++ b' ' ∷ help))
  | none ↦ if length line == 0 then pure tt else tell (shell_print line)
]

abbrev pub print_each : List Bytes → Proc ShellCall (Unit {0})
print_each [] = pure tt
print_each (line ∷ lines) = print_line line >> print_each lines

unfoldable pub print_lines : Bytes → Proc ShellCall (Unit {0})
print_lines text = print_each (text_lines text)

-- `failed`; -EINVAL is a node that asks itself.
unfoldable pub failed : Bytes → ℕ → ℤ → Proc ShellCall ℤ
failed what node result =
    if result ==ℤ einval
    then (do
      tell (
          shell_error (
            what
            ++ codes ": node "
            ++ decimal node
            ++ codes " cannot be asked to run its own commands"))
      pure result)
    else remote_failed what node result

abbrev pub is_remexec_ok : RemexecStatus → Bool
is_remexec_ok remexec_ok = true
is_remexec_ok _ = false

abbrev pub has_run : RemexecStatus → Bool
has_run remexec_ok = true
has_run remexec_failed = true
has_run _ = false

-- An error line, and the result that goes with it.
abbrev pub refuse : Bytes → ℤ → Proc ShellCall ℤ
refuse text result = do tell (shell_error text); pure result

module _ (env : RemexecEnv) where
  abbrev pub too_long : Proc ShellCall ℤ
  too_long =
      refuse (codes "A command is at most " ++ decimal env.command_max ++ codes " bytes")
        enametoolong

  abbrev pub listing : RemexecReply → Proc ShellCall ℤ
  listing r =
      if not (is_remexec_ok r.status)
      then refuse (codes "remexec: " ++ r.text) eacces
      else if r.size == 0
      then (do tell (shell_print (codes "no commands are offered for remote execution")); pure ok)
      else (do
        print_lines r.text
        if r.truncated
            then tell (
                shell_warn (
                  codes "listing truncated: "
                  ++ decimal r.dropped
                  ++ codes " byte(s) dropped; ask for a command"))
            else pure tt
        pure ok)

  abbrev pub listed : ℕ → ℤ → Proc ShellCall ℤ
  listed node result =
      if not (is_ok result)
      then failed (codes "remexec get") node result
      else (do tell (shell_print (codes "node: " ++ decimal node)); r ← recall env.reply; listing r)

  unfoldable pub get_offered : ℕ → List Bytes → Proc ShellCall ℤ
  get_offered node argv = elim (join_command (env.command_max + 1) argv) [
    | none ↦ too_long
    | some prefix ↦ call env.result (remexec_list_remote node prefix) >>= listed node
  ]

  abbrev pub output_line : RemexecReply → Bytes
  output_line r =
      if r.truncated
      then codes "output: "
        ++ decimal r.size
        ++ codes " of "
        ++ decimal r.produced
        ++ codes " bytes, truncated, "
        ++ decimal r.dropped
        ++ codes " dropped"
      else codes "output: " ++ decimal r.size ++ codes " bytes"

  abbrev pub outcome : RemexecReply → Proc ShellCall ℤ
  outcome r =
      if not (is_remexec_ok r.status)
      then refuse
          (codes "remexec: "
            ++ env.status_name r.status
            ++ codes ", the command returned "
            ++ signed r.command_result)
          eio
      else (do tell (shell_print (codes "status: " ++ env.status_name r.status)); pure ok)

  abbrev pub answer : RemexecReply → Proc ShellCall ℤ
  answer r =
      if not (has_run r.status)
      then refuse (codes "remexec: " ++ r.text) eacces
      else (do tell (shell_print (output_line r)); print_lines r.text; outcome r)

  abbrev pub ran : ℕ → Bytes → ℤ → Proc ShellCall ℤ
  ran node line result =
      if not (is_ok result) then failed (codes "remexec run") node result else (do
        tell (shell_print (codes "node: " ++ decimal node))
        tell (shell_print (codes "command: " ++ line))
        r ← recall env.reply
        answer r)

  abbrev pub run_line : ℕ → Bytes → Proc ShellCall ℤ
  run_line node [] = refuse (codes "Usage: remexec <node> run \"command args\"") einval
  run_line node (c ∷ cs) = call env.result (remexec_run_remote node (c ∷ cs)) >>= ran node (c ∷ cs)

  unfoldable pub run_offered : ℕ → List Bytes → Proc ShellCall ℤ
  run_offered node argv = elim (join_command (env.command_max + 1) argv) [
    | none ↦ too_long
    | some line ↦ run_line node line
  ]

  abbrev pub for_node : Bytes → List Bytes → Option ℕ → Proc ShellCall ℤ
  for_node verb words none = pure einval
  for_node verb words (some node) =
      if str_eq verb (codes "get")
      then get_offered node words
      else if str_eq verb (codes "run")
      then run_offered node words
      else refuse (codes "Usage: remexec <node> get [command] | remexec <node> run \"command\"")
          einval

  -- `cmd_remexec`, on the words behind `remexec`: the node, the verb and the rest.
  unfoldable pub cmd_remexec : Bytes → Bytes → List Bytes → Proc ShellCall ℤ
  cmd_remexec node verb words = parse_node env.parts node >>= for_node verb words
