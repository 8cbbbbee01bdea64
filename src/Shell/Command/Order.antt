-- ===== src/Shell/Command/Order.antt =====
-- What a command run from the shell invokes.
use k_fsw.Base.{
  ℕ, ◌≡◌, refl, ap, sym, ◌⊎◌, inl, inr, Bool, true, false, not, ◌&&◌, Option, none, some, List, [],
  ◌∷◌, ◌++◌, arith, ◌==◌, if◌then◌else◌, length, ℤ, is_ok, eacces, Bool-cases, Option-cases,
}
use k_fsw.Text.{Bytes, codes, decimal, fitted}
use k_fsw.Commands.{CommandArg}
use k_fsw.Shell.{ShellCall, shell_print, command_invoke, command_invoke_remote}
use k_fsw.Shell.Remote.{remote_failed}
use k_fsw.Shell.Command.{
  RunEnv, CommandReply, Parsed, bad_argument, good_arguments, with_argument, parse_arguments,
  take_retry, this_node, print_field, print_all, print_fields, at_equals, words, answered, reached,
  invoked, with_arguments, known, looked_up, run_command, refuse,
}

-- The invocations among all calls.
abbrev pub invocations : List ShellCall → List ShellCall
invocations [] = []
invocations (command_invoke name args ∷ h) = command_invoke name args ∷ invocations h
invocations (command_invoke_remote node name args retry ∷ h) =
    command_invoke_remote node name args retry ∷ invocations h
invocations (_ ∷ h) = invocations h

print_field-quiet :
    (field : Bytes) (h : List ShellCall) → invocations (print_field field h).1 ≡ invocations h
unfolding print_field
print_field-quiet field h = elim (Option-cases (at_equals field)) [
  | inl plain ↦ rw (plain, invocations, print_field) refl
  | inr ((name, value), split) ↦ rw (split, invocations, print_field) refl
]

print_all-quiet :
    (fields : List Bytes) (h : List ShellCall) → invocations (print_all fields h).1 ≡ invocations h
print_all-quiet [] h = refl
print_all-quiet (f ∷ fs) h = cc (print_all-quiet fs (print_field f h).1, print_field-quiet f h)

print_fields-quiet :
    (size : ℕ) (text : Bytes) (h : List ShellCall)
    → invocations (print_fields size text h).1 ≡ invocations h
unfolding print_fields
print_fields-quiet size text h = ground (arith, print_all-quiet (words (fitted size text)) h)

-- Every word is accepted as an argument of its type.
abbrev pub all_accepted : RunEnv → List Bytes → List ℕ → Bool
all_accepted env (text ∷ argv) (type ∷ types) =
    is_ok (env.parse_arg text type).0 && all_accepted env argv types
all_accepted env _ _ = true

-- The arguments that the words stand for.
abbrev pub arguments : RunEnv → List Bytes → List ℕ → List CommandArg
arguments env (text ∷ argv) (type ∷ types) = (env.parse_arg text type).1 ∷ arguments env argv types
arguments env _ _ = []

-- What the loop over the arguments gives.
abbrev ParsedRight : RunEnv → List Bytes → List ℕ → Parsed → Type 0
ParsedRight env argv types (bad_argument text type outcome) =
    (all_accepted env argv types ≡ false) × (is_ok outcome ≡ false)
ParsedRight env argv types (good_arguments args) =
    (all_accepted env argv types ≡ true) × (args ≡ arguments env argv types)

with_argument-right :
    (env : RunEnv) (text : Bytes) (type : ℕ) (argv : List Bytes) (types : List ℕ) (p : Parsed)
    → is_ok (env.parse_arg text type).0 ≡ true
    → ParsedRight env argv types p
    → ParsedRight env (text ∷ argv) (type ∷ types) (with_argument (env.parse_arg text type).1 p)
with_argument-right env text type argv types (bad_argument t n outcome) good right = rw good right
with_argument-right env text type argv types (good_arguments args) good right =
    (rw good right.0, ap (λ more. (env.parse_arg text type).1 ∷ more) right.1)

parse_arguments-right :
    (env : RunEnv) (argv : List Bytes) (types : List ℕ)
    → ParsedRight env argv types (parse_arguments env argv types)
unfolding parse_arguments
parse_arguments-right env (text ∷ argv) (type ∷ types) =
    let rest = parse_arguments-right env argv types in
    elim (Bool-cases (is_ok (env.parse_arg text type).0)) [
      | inl good ↦
          rw good (
            with_argument-right env text type argv types (parse_arguments env argv types) good rest)
      | inr bad ↦ rw bad (rw (bad, all_accepted) refl, bad)
    ]
parse_arguments-right env [] types = (refl, refl)
parse_arguments-right env (text ∷ argv) [] = (refl, refl)

module _ (env : RunEnv) (node : ℕ) (name : Bytes) where
  answered-quiet :
      (r : CommandReply) (h : List ShellCall)
      → invocations (answered env node name r h).1 ≡ invocations h
  answered-quiet r h = ground (
    arith,
    print_fields-quiet env.detail_size r.detail h,
    print_fields-quiet env.detail_size r.detail (shell_print (codes "node: " ++ decimal node) ∷ h),
  )

  pub reached-quiet :
      (outcome : ℤ) (h : List ShellCall)
      → invocations (reached env node name outcome h).1 ≡ invocations h
  unfolding remote_failed
  reached-quiet outcome h = elim (Bool-cases (is_ok outcome)) [
    | inl good ↦ rw good (answered-quiet (env.reply h) h)
    | inr bad ↦ rw bad (ground arith)
  ]

  -- The one call that is made: here, or to the node that is named.
  abbrev pub Invokes : List CommandArg → Bool → List ShellCall → List ShellCall → Type 0
  Invokes args retry after before =
      (((node == this_node) ≡ true) × (after ≡ command_invoke name args ∷ before))
      ⊎ (((node == this_node) ≡ false)
          × (env.command_csp ≡ true)
          × (after ≡ command_invoke_remote node name args retry ∷ before))

  invoked-once :
      (args : List CommandArg) (retry : Bool) (h : List ShellCall)
      → ((is_ok (invoked env node name args retry h).0 ≡ false)
          × (invocations (invoked env node name args retry h).1 ≡ invocations h))
        ⊎ Invokes args retry (invocations (invoked env node name args retry h).1) (invocations h)
  invoked-once args retry h =
      let here = command_invoke name args ∷ h in
      let there = command_invoke_remote node name args retry in
      let quiet = answered-quiet (env.reply here) here in
      let far = reached-quiet (env.result h there) (there ∷ h) in
      elim (Bool-cases (node == this_node)) [
        | inl local ↦ inr (inl (local, rw local (rw local at quiet)))
        | inr remote ↦ elim (Bool-cases env.command_csp) [
          | inr absent ↦ inl (ground arith, ground arith)
          | inl composed ↦ inr (inr (remote, composed, ground (arith, far)))
        ]
      ]

  -- The command is known with these argument types, the registry is up, and every word, without
  -- the one that asks for a retry, is accepted as an argument of its type; then it is invoked once.
  abbrev pub RunsAs : List ℕ → Bool × List Bytes → List ShellCall → List ShellCall → Type 0
  RunsAs types (retry, words) after before =
      (env.initialized ≡ true)
      × (env.find name ≡ some types)
      × ((length words == length types) ≡ true)
      × (all_accepted env words types ≡ true)
      × Invokes (arguments env words types) retry after before

  abbrev pub RunsOnce : List Bytes → List ShellCall → ℤ × List ShellCall → Type 0
  RunsOnce argv h (result, after) =
      ((is_ok result ≡ false) × (invocations after ≡ invocations h))
      ⊎ ((types : List ℕ) × RunsAs types (take_retry node argv) (invocations after) (invocations h))

  with_arguments-once :
      (types : List ℕ) (retry : Bool) (argv : List Bytes) (p : Parsed) (h : List ShellCall)
      → ParsedRight env argv types p
      → ((is_ok (with_arguments env node name retry p h).0 ≡ false)
          × (invocations (with_arguments env node name retry p h).1 ≡ invocations h))
        ⊎ ((all_accepted env argv types ≡ true)
            × Invokes
                (arguments env argv types)
                retry
                (invocations (with_arguments env node name retry p h).1)
                (invocations h))
  with_arguments-once types retry argv (bad_argument t n outcome) h right = inl (right.1, refl)
  with_arguments-once types retry argv (good_arguments args) h right =
      rw (sym right.1)
        (elim (invoked-once args retry h) [ inl bad ↦ inl bad | inr once ↦ inr (right.0, once) ])

  known-once :
      (argv : List Bytes) (types : List ℕ) (h : List ShellCall)
      → env.initialized ≡ true
      → env.find name ≡ some types
      → RunsOnce argv h (known env node name (take_retry node argv) types h)
  known-once argv types h up found =
      let (retry, words) = take_retry node argv in
      elim (Bool-cases (length words == length types)) [
        | inr other ↦ rw other (inl (refl, refl))
        | inl same ↦
            elim (with_arguments-once types retry words (parse_arguments env words types) h
              (parse_arguments-right env words types)) [
                | inl bad ↦ rw same (inl bad)
                | inr (accepted, once) ↦ rw same (inr (types, (up, found, same, accepted, once)))
              ]
      ]

  looked_up-once :
      (argv : List Bytes) (o : Option (List ℕ)) (h : List ShellCall)
      → env.initialized ≡ true
      → env.find name ≡ o
      → RunsOnce argv h (looked_up env node name argv o h)
  looked_up-once argv none h up found = inl (refl, refl)
  looked_up-once argv (some types) h up found = known-once argv types h up found

  gated-once :
      (argv : List Bytes) (up : Bool) (h : List ShellCall)
      → env.initialized ≡ up
      → RunsOnce argv h (
          (if not up
              then refuse (codes "Command registry is not initialized") eacces
              else looked_up env node name argv (env.find name))
            h)
  gated-once argv false h e = inl (refl, refl)
  gated-once argv true h e = looked_up-once argv (env.find name) h e refl

  -- A command run from the shell returns an error and invokes nothing; or the registry is up and
  -- knows the command, the words without a final --retry for another node are as many as its
  -- arguments and all accepted, and it invokes the command once with them, on this node or on the
  -- one named.
  pub run_command_once :
      (argv : List Bytes) (h : List ShellCall) → RunsOnce argv h (run_command env node name argv h)
  unfolding run_command
  run_command_once argv h = gated-once argv env.initialized h refl
