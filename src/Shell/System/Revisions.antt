-- ===== src/Shell/System/Revisions.antt =====
-- What `status` prints of the revisions that the build has written.
use mathlib.Core.List.{append_assoc}
use k_fsw.Base.{
  ℕ, zero, suc, ◌≤◌, ◌≡◌, refl, ap, ◌∙◌, false, ◌||◌, some, List, [], ◌∷◌, ◌++◌, arith, All, length,
  length-append,
}
use k_fsw.Text.{Bytes, codes, has_char}
use k_fsw.Shell.{ShellCall, shell_print}
use k_fsw.Shell.System.{
  until_space, past_spaces, at_colon, revision_line, print_words, print_revisions,
}

abbrev pub Revision : Type 0
Revision = record { label : Bytes; revision : Bytes }

abbrev pub text_of : Revision → Bytes
text_of r = r.label ++ b':' ∷ r.revision

-- A label without a space or a colon, and a revision without a space.
abbrev pub IsPlain : Revision → Type 0
IsPlain r =
    (has_char b' ' r.label ≡ false)
    × (has_char b':' r.label ≡ false)
    × (has_char b' ' r.revision ≡ false)

abbrev pub gap : ℕ → Bytes → Bytes
gap zero text = b' ' ∷ text
gap (suc n) text = b' ' ∷ gap n text

-- The revisions with as many spaces and one more between them.
abbrev pub joined : ℕ → List Revision → Bytes
joined n [] = []
joined n (r ∷ []) = text_of r
joined n (r ∷ s ∷ rs) = text_of r ++ gap n (joined n (s ∷ rs))

-- Lines that are printed in this order.
abbrev pub printed : List Revision → List ShellCall → List ShellCall
printed [] h = h
printed (r ∷ rs) h = printed rs (shell_print (revision_line r.label r.revision) ∷ h)

until_space-append :
    (word text : Bytes)
    → has_char b' ' word ≡ false
    → until_space (word ++ b' ' ∷ text) ≡ (word, b' ' ∷ text)
unfolding until_space has_char
until_space-append [] text plain = refl
until_space-append (c ∷ cs) text plain = ground (arith, until_space-append cs text)

until_space_all : (word : Bytes) → has_char b' ' word ≡ false → until_space word ≡ (word, [])
unfolding until_space has_char
until_space_all [] plain = refl
until_space_all (c ∷ cs) plain = ground (arith, until_space_all cs)

at_colon-text_of :
    (label revision : Bytes)
    → has_char b':' label ≡ false
    → at_colon (label ++ b':' ∷ revision) ≡ some (label, revision)
unfolding at_colon has_char
at_colon-text_of [] revision plain = refl
at_colon-text_of (c ∷ cs) revision plain = ground (arith, at_colon-text_of cs revision)

past_spaces-gap : (n : ℕ) (text : Bytes) → past_spaces (gap n text) ≡ past_spaces text
unfolding past_spaces
past_spaces-gap zero text = refl
past_spaces-gap (suc n) text = past_spaces-gap n text

has_char-append : (c : ℕ) (a b : Bytes) → has_char c (a ++ b) ≡ (has_char c a || has_char c b)
unfolding has_char
has_char-append c [] b = refl
has_char-append c (x ∷ a) b = ground (arith, has_char-append c a b)

until_space-gap :
    (word : Bytes) (n : ℕ) (text : Bytes)
    → has_char b' ' word ≡ false
    → until_space (word ++ gap n text) ≡ (word, gap n text)
until_space-gap word zero text plain = until_space-append word text plain
until_space-gap word (suc n) text plain = until_space-append word (gap n text) plain

length-gap : (n : ℕ) (text : Bytes) → length text ≤ length (gap n text)
length-gap zero text = omega arith
length-gap (suc n) text = omega (arith, length-gap n text)

text_of-plain : (r : Revision) → IsPlain r → has_char b' ' (text_of r) ≡ false
unfolding has_char
text_of-plain r plain = rw (has_char-append b' ' r.label (b':' ∷ r.revision), plain.0, plain.2)

past_spaces-label :
    (label behind : Bytes)
    → has_char b' ' label ≡ false
    → past_spaces (label ++ b':' ∷ behind) ≡ label ++ b':' ∷ behind
unfolding past_spaces has_char
past_spaces-label [] behind plain = refl
past_spaces-label (c ∷ cs) behind plain = ground arith

past_spaces-joined :
    (n : ℕ) (r : Revision) (rs : List Revision)
    → IsPlain r
    → past_spaces (joined n (r ∷ rs)) ≡ joined n (r ∷ rs)
past_spaces-joined n r [] plain = past_spaces-label r.label r.revision plain.0
past_spaces-joined n r (s ∷ rs) plain =
    rw (append_assoc r.label (b':' ∷ r.revision) (gap n (joined n (s ∷ rs))))
      (past_spaces-label r.label (r.revision ++ gap n (joined n (s ∷ rs))) plain.0)

-- A round of the loop over a word that is printed.
print_words_round :
    (fuel : ℕ) (text : Bytes) (r : Revision) (behind : Bytes) (h : List ShellCall)
    → IsPlain r
    → 1 ≤ length text
    → until_space text ≡ (text_of r, behind)
    → (print_words (suc fuel) text h).1
      ≡ (print_words fuel
          (past_spaces behind)
          (shell_print (revision_line r.label r.revision) ∷ h)).1
unfolding print_words
print_words_round fuel [] r behind h plain some_text split = absurd (omega arith)
print_words_round fuel (c ∷ cs) r behind h plain some_text split =
    rw (split, at_colon-text_of r.label r.revision plain.1)

print_words-joined :
    (n fuel : ℕ) (rs : List Revision) (h : List ShellCall)
    → All IsPlain rs
    → length (joined n rs) ≤ fuel
    → (print_words fuel (joined n rs) h).1 ≡ printed rs h
unfolding print_words past_spaces
print_words-joined n zero [] h plain enough = refl
print_words-joined n (suc fuel) [] h plain enough = refl
print_words-joined n zero (r ∷ []) h plain enough =
    absurd (omega (arith, length-append r.label (b':' ∷ r.revision)))
print_words-joined n zero (r ∷ s ∷ rs) h plain enough = absurd (
    omega (
      arith,
      length-append r.label (b':' ∷ r.revision),
      length-append (text_of r) (gap n (joined n (s ∷ rs))),
    ))
print_words-joined n (suc fuel) (r ∷ []) h plain enough =
    let h' = shell_print (revision_line r.label r.revision) ∷ h in
    print_words_round fuel (text_of r) r [] h plain.0
      (omega (arith, length-append r.label (b':' ∷ r.revision)))
      (until_space_all (text_of r) (text_of-plain r plain.0))
    ∙ print_words-joined n fuel [] h' tt (omega arith)
print_words-joined n (suc fuel) (r ∷ s ∷ rs) h plain enough =
    let h' = shell_print (revision_line r.label r.revision) ∷ h in
    let rest = joined n (s ∷ rs) in
    let long = length-append r.label (b':' ∷ r.revision) in
    let longer = length-append (text_of r) (gap n rest) in
    print_words_round fuel (text_of r ++ gap n rest) r (gap n rest) h plain.0
      (omega (arith, long, longer)) (until_space-gap (text_of r) n rest (text_of-plain r plain.0))
    ∙ ap (λ t. (print_words fuel t h').1)
        (past_spaces-gap n rest ∙ past_spaces-joined n s rs plain.1.0)
    ∙ print_words-joined n fuel (s ∷ rs) h' plain.1 (omega (arith, long, longer, length-gap n rest))

-- For labels without a colon or a space and revisions without a space, written as label, colon and
-- revision and joined with any number of spaces, at least one: the command prints one line for
-- each of them, in their order, with the repository of the label and the revision.
pub print_revisions-joined :
    (n : ℕ) (rs : List Revision) (h : List ShellCall)
    → All IsPlain rs
    → (print_revisions (joined n rs) h).1 ≡ printed rs (shell_print (codes "revisions:") ∷ h)
unfolding print_revisions
print_revisions-joined n rs h plain =
    print_words-joined n (length (joined n rs)) rs (shell_print (codes "revisions:") ∷ h) plain
      (omega arith)
