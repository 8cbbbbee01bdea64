-- ===== src/Shell/System/Enough.antt =====
-- The fuel of the loop over the revisions of a build.
use k_fsw.Base.{
  ℕ, zero, suc, ◌≤◌, ◌≡◌, refl, inl, inr, List, [], ◌∷◌, arith, length, ◌==◌, Bool-cases,
}
use k_fsw.Text.{Bytes}
use k_fsw.Shell.{ShellCall}
use k_fsw.Shell.System.{until_space, past_spaces, print_split, at_colon, print_words}

past_spaces-le : (text : Bytes) → length (past_spaces text) ≤ length text
unfolding past_spaces
past_spaces-le [] = omega arith
past_spaces-le (c ∷ cs) =
    let shorter = past_spaces-le cs in
    elim (Bool-cases (c == b' ')) [
      | inl space ↦ rw space (omega (arith, shorter))
      | inr other ↦ rw other (omega arith)
    ]

until_space-le : (text : Bytes) → length (until_space text).1 ≤ length text
unfolding until_space
until_space-le [] = omega arith
until_space-le (c ∷ cs) =
    let shorter = until_space-le cs in
    elim (Bool-cases (c == b' ')) [
      | inl space ↦ rw space (omega arith)
      | inr other ↦ rw other (omega (arith, shorter))
    ]

-- A round takes at least one byte off the text.
round-shorter : (c : ℕ) (cs : Bytes) → length (past_spaces (until_space (c ∷ cs)).1) ≤ length cs
unfolding until_space past_spaces
round-shorter c cs = elim (Bool-cases (c == b' ')) [
  | inl space ↦ rw (space, space) (past_spaces-le cs)
  | inr other ↦ rw other (omega (arith, past_spaces-le (until_space cs).1, until_space-le cs))
]

-- Any two amounts of fuel that are no less than the length of the text print the same.
print_words-enough :
    (fuel more : ℕ) (text : Bytes) (h : List ShellCall)
    → length text ≤ fuel
    → length text ≤ more
    → print_words fuel text h ≡ print_words more text h
unfolding print_words
print_words-enough zero zero [] h less also = refl
print_words-enough zero (suc more) [] h less also = refl
print_words-enough (suc fuel) zero [] h less also = refl
print_words-enough (suc fuel) (suc more) [] h less also = refl
print_words-enough zero more (c ∷ cs) h less also = ground arith
print_words-enough (suc fuel) zero (c ∷ cs) h less also = ground arith
print_words-enough (suc fuel) (suc more) (c ∷ cs) h less also =
    let split = until_space (c ∷ cs) in
    let shorter = round-shorter c cs in
    print_words-enough fuel more (past_spaces split.1) (print_split (at_colon split.0) h).1
      (omega (arith, shorter, less)) (omega (arith, shorter, also))
