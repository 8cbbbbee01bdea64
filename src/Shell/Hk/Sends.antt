-- ===== src/Shell/Hk/Sends.antt =====
-- A definition that is run on another node: the one invocation that it makes.
use k_fsw.Base.{ℕ, ◌≤◌, ◌<◌, ◌≡◌, refl, Option, true, false, some, List, [], ◌∷◌, arith, ok}
use k_fsw.Text.{Bytes, codes}
use k_fsw.Commands.{CommandArg}
use k_fsw.Shell.{ShellCall, ShellParts, command_invoke_remote}
use k_fsw.Shell.Remote.{parse_node}
use k_fsw.Shell.Command
use k_fsw.Shell.Command.{
  RunEnv, run_command, looked_up, invoked, take_retry, last_word, parse_arguments,
}
use k_fsw.Shell.Command.Order.{invocations, reached-quiet}
use k_fsw.Shell.Hk.Words.{IsWord}

-- The number is that of a node that can be addressed.
pub record NamesNode (p : ShellParts) (text : Bytes) (n : ℕ) : Type 0 where
  pub reads : p.strtoul text ≡ (n, ok)
  pub positive : 0 < n
  pub below : n < p.broadcast_address
  pub narrow : p.broadcast_address ≤ 65536

pub parse_node-NamesNode :
    (p : ShellParts) (text : Bytes) (n : ℕ) (h : List ShellCall)
    → NamesNode p text n
    → parse_node p text h ≡ (some n, h)
unfolding parse_node
parse_node-NamesNode p text n h names =
    rw names.reads (ground (arith, names.positive, names.below, names.narrow))

-- The registry is up, other nodes can be reached, and it knows the definition command with two
-- arguments, which the words are accepted as.
pub record Registered (r : RunEnv) (report text : Bytes) (first second : CommandArg) : Type 0 where
  pub up : r.initialized ≡ true
  pub csp : r.command_csp ≡ true
  pub number_type : ℕ
  pub text_type : ℕ
  pub found : r.find (codes "hk_define") ≡ some (number_type ∷ text_type ∷ [])
  pub number : r.parse_arg report number_type ≡ (ok, first)
  pub words : r.parse_arg text text_type ≡ (ok, second)

parse_definition :
    (r : RunEnv) (report text : Bytes) (first second : CommandArg)
    → (reg : Registered r report text first second)
    → parse_arguments r (report ∷ text ∷ []) (reg.number_type ∷ reg.text_type ∷ [])
      ≡ Command.good_arguments (first ∷ second ∷ [])
unfolding parse_arguments
parse_definition r report text first second reg = rw reg.number (rw reg.words refl)

take_no_retry :
    (node : ℕ) (report text : Bytes)
    → IsWord text
    → take_retry node (report ∷ text ∷ []) ≡ (false, report ∷ text ∷ [])
unfolding take_retry last_word
take_no_retry node report text word = ground (arith, word)

module _ (r : RunEnv) (node : ℕ) (positive : 0 < node) where
  invoked-far :
      (name : Bytes) (args : List CommandArg) (h : List ShellCall)
      → r.command_csp ≡ true
      → invocations (invoked r node name args false h).1
        ≡ command_invoke_remote node name args false ∷ invocations h
  invoked-far name args h csp =
      let there = command_invoke_remote node name args false in
      ground (arith, reached-quiet r node name (r.result h there) (there ∷ h))

  looked_up-far :
      (report text : Bytes) (first second : CommandArg) (h : List ShellCall)
      (types : Option (List ℕ))
      → IsWord text
      → (reg : Registered r report text first second)
      → types ≡ some (reg.number_type ∷ reg.text_type ∷ [])
      → invocations (looked_up r node (codes "hk_define") (report ∷ text ∷ []) types h).1
        ≡ command_invoke_remote node (codes "hk_define") (first ∷ second ∷ []) false ∷ invocations h
  looked_up-far report text first second h types word reg known = rw known (
      rw (take_no_retry node report text word) (
        rw (parse_definition r report text first second reg)
          (invoked-far (codes "hk_define") (first ∷ second ∷ []) h reg.csp)))

  pub run_definition :
      (report text : Bytes) (first second : CommandArg) (h : List ShellCall)
      → IsWord text
      → Registered r report text first second
      → invocations (run_command r node (codes "hk_define") (report ∷ text ∷ []) h).1
        ≡ command_invoke_remote node (codes "hk_define") (first ∷ second ∷ []) false ∷ invocations h
  unfolding run_command
  run_definition report text first second h word reg = ground (
    arith,
    reg.up,
    looked_up-far report text first second h (r.find (codes "hk_define")) word reg reg.found,
  )
