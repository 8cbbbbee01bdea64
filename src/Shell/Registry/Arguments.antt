-- ===== src/Shell/Registry/Arguments.antt =====
-- The types of a command's arguments, in the buffer that they are printed to.
use mathlib.Core.List.{append_assoc, append-nil}
use k_fsw.Base.{
  ℕ, zero, suc, ◌+◌, ◌-◌, ◌*◌, ◌≤◌, ◌<◌, ◌≡◌, sym, ◌∙◌, inl, inr, false, ◌||◌, Option, none, some,
  [], ◌++◌, arith, length, length-append, ltb, leb, ◌==◌, Bool-cases,
}
use k_fsw.Text.{Bytes}
use k_fsw.Shell.Registry.{
  CommandInfo, RegistryShell, command_type_name, argument_name, argument_piece, types_from,
  argument_types,
}

fits_lem : (n room : ℕ) → 1 ≤ n → n < room → (n == 0 || leb room n) ≡ false
fits_lem n room some_left short = ground arith

module _ (env : RegistryShell) where
  -- The pieces of so many arguments, from one on.
  abbrev pub pieces : Option (ℕ → ℕ) → ℕ → ℕ → Bytes
  pieces types zero index = []
  pieces types (suc left) index = argument_piece env types index ++ pieces types left (index + 1)

  command_type_name-le :
      (type : ℕ)
      → (1 ≤ length (command_type_name env type)) × (length (command_type_name env type) ≤ 4)
  unfolding command_type_name
  command_type_name-le type = ground arith

  argument_name-le :
      (types : Option (ℕ → ℕ)) (index : ℕ)
      → (1 ≤ length (argument_name env types index)) × (length (argument_name env types index) ≤ 4)
  argument_name-le none index = omega arith
  argument_name-le (some types) index = command_type_name-le (types index)

  argument_piece-le :
      (types : Option (ℕ → ℕ)) (index : ℕ)
      → (1 ≤ length (argument_piece env types index))
        × (length (argument_piece env types index) ≤ 5)
  argument_piece-le types index =
      let n = argument_name-le types index in
      elim (Bool-cases (ltb 0 index)) [
        | inl later ↦ rw later (omega (arith, n))
        | inr first ↦ rw first (omega (arith, n))
      ]

  types_from_whole :
      (types : Option (ℕ → ℕ)) (left index : ℕ) (text : Bytes)
      → length text ≤ 5 * index
      → index + left ≤ env.max_args
      → types_from env (env.max_args * 5 + 1) types left index text
        ≡ text ++ pieces types left index
  unfolding types_from
  types_from_whole types zero index text short fits = sym (append-nil text)
  types_from_whole types (suc left) index text short fits =
      let piece = argument_piece env types index in
      let size = env.max_args * 5 + 1 in
      let n = argument_piece-le types index in
      let room : length piece < size - length text = omega (arith, n) in
      let goes_on : (length piece == 0 || leb (size - length text) (length piece)) ≡ false =
        fits_lem (length piece) (size - length text) n.0 room in
      rw goes_on (
        types_from_whole types left (index + 1) (text ++ piece)
          (omega (arith, length-append text piece, n)) (omega arith)
        ∙ append_assoc text piece (pieces types left (index + 1)))

  -- Where a command has no more than KFSW_COMMAND_MAX_ARGS arguments, the buffer holds the names
  -- of the types of all of them, with a comma in front of all but the first, and none is cut.
  pub argument_types_whole :
      (info : CommandInfo)
      → info.arg_count ≤ env.max_args
      → argument_types env info ≡ pieces info.arg_types info.arg_count 0
  unfolding argument_types
  argument_types_whole info few =
      types_from_whole info.arg_types info.arg_count 0 [] (omega arith) (omega arith)
