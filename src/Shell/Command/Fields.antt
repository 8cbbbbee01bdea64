-- ===== src/Shell/Command/Fields.antt =====
-- Which texts are printed as fields.
use k_fsw.Base.{
  ◌≡◌, refl, Bool, true, false, not, ◌&&◌, ◌||◌, List, [], ◌∷◌, arith, ◌==◌, Bool-cases, inl, inr,
}
use k_fsw.Text.{Bytes, has_char}
use k_fsw.Shell.Command.{fields_from, all_fields, add_word, front_word, words}

-- Every word has an equals sign.
abbrev pub all_equal : List Bytes → Bool
all_equal [] = true
all_equal (w ∷ ws) = has_char b'=' w && all_equal ws

abbrev is_empty : Bytes → Bool
is_empty [] = true
is_empty (_ ∷ _) = false

-- The front word may go on one that has begun.
abbrev goes_on : Bool → Bool → Bytes × List Bytes → Bool
goes_on in_word has_equals (w, ws) =
    ((not in_word && is_empty w) || (has_equals || has_char b'=' w)) && all_equal ws

add_word-goes_on : (p : Bytes × List Bytes) → goes_on false false p ≡ all_equal (add_word p)
unfolding has_char
add_word-goes_on ([], ws) = refl
add_word-goes_on (c ∷ w, ws) = refl

fields_from_lem :
    (in_word has_equals : Bool) (text : Bytes)
    → fields_from in_word has_equals text ≡ goes_on in_word has_equals (front_word text)
unfolding fields_from front_word has_char
fields_from_lem in_word has_equals [] = ground arith
fields_from_lem in_word has_equals (c ∷ cs) =
    let next = fields_from_lem false false cs in
    let same = fields_from_lem true (has_equals || c == b'=') cs in
    let word = add_word-goes_on (front_word cs) in
    elim (Bool-cases (c == b' ')) [
      | inl space ↦ rw space (ground (arith, next, word))
      | inr other ↦ rw other (ground (arith, same))
    ]

-- A text counts as fields exactly if each of its words has an equals sign.
pub all_fields_lem : (text : Bytes) → all_fields text ≡ all_equal (words text)
unfolding all_fields
all_fields_lem text = cc (fields_from_lem false false text, add_word-goes_on (front_word text))
