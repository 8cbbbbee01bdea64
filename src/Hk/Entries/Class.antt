-- ===== src/Hk/Entries/Class.antt =====
-- The optional `class=N` in front of a list of entries.
use k_fsw.Base.{
  ℕ, suc, ◌^◌, ◌≤◌, ◌<◌, ◌≡◌, refl, ap, ◌⊎◌, inl, inr, true, false, [], ◌∷◌, ◌++◌, arith, ltb, ◌==◌,
  ok, einval, erange, Bool-cases, drop,
}
use k_fsw.Text.{Bytes, codes, spaces, starts_with, decimal}
use k_fsw.Text.Strtoul.{Parsed, strtoul, digit_value}
use k_fsw.Text.Decimal.{Ends, strtoul-decimal}
use k_fsw.Hk.Header.{HkHeader}
use k_fsw.Hk.Entries.{ClassRead, class_value, parse_class, skip_spaces, ends_token}

abbrev pub NoLeadingSpace : Bytes → Type 0
NoLeadingSpace [] = Unit
NoLeadingSpace (c ∷ _) = (c == b' ') ≡ false

skip_spaces-NoLeadingSpace : (text : Bytes) → NoLeadingSpace (skip_spaces text)
unfolding skip_spaces
skip_spaces-NoLeadingSpace [] = tt
skip_spaces-NoLeadingSpace (c ∷ cs) = elim (Bool-cases (c == b' ')) [
  | inl space ↦ rw space (skip_spaces-NoLeadingSpace cs)
  | inr other ↦ rw other other
]

skip_spaces_self : (text : Bytes) → NoLeadingSpace text → skip_spaces text ≡ text
unfolding skip_spaces
skip_spaces_self [] h = refl
skip_spaces_self (c ∷ cs) h = rw h

-- The text ends or goes on with a space; and it does neither.
abbrev pub AtTokenEnd : Bytes → Type 0
AtTokenEnd [] = Unit
AtTokenEnd (c ∷ _) = (c == b' ') ≡ true

abbrev pub InsideToken : Bytes → Type 0
InsideToken [] = ⊥
InsideToken (c ∷ _) = (c == b' ') ≡ false

ends_token-cases :
    (text : Bytes)
    → ((ends_token text ≡ true) × AtTokenEnd text) ⊎ ((ends_token text ≡ false) × InsideToken text)
ends_token-cases [] = inl (refl, tt)
ends_token-cases (c ∷ cs) = elim (Bool-cases (c == b' ')) [
  | inl space ↦ inl (space, space)
  | inr other ↦ inr (other, other)
]

skip_spaces-prefix : (text : Bytes) → (n : ℕ) × (text ≡ spaces n ++ skip_spaces text)
unfolding skip_spaces
skip_spaces-prefix [] = (0, refl)
skip_spaces-prefix (c ∷ cs) =
    let (n, behind) = skip_spaces-prefix cs in
    elim (Bool-cases (c == b' ')) [
      | inl space ↦
          let same : c ≡ b' ' = ground (arith, space) in
          rw space (suc n, rw same (ap (λ rest. b' ' ∷ rest) behind))
      | inr other ↦ rw other (0, refl)
    ]

-- What a call leaves with `class=` in front, by the number behind it: the class and the list behind
-- the spaces, -EINVAL for what is no number up to the end of its word, or -ERANGE.
abbrev pub Ended : HkHeader → Bytes → Parsed → ClassRead → Type 0
Ended h text p c =
    ((c.result ≡ ok)
      × (p.converted ≡ true)
      × AtTokenEnd p.rest
      × (p.value ≤ h.class_max)
      × (c.retrieval_class ≡ p.value)
      × ((n : ℕ) × (p.rest ≡ spaces n ++ c.text))
      × NoLeadingSpace c.text)
    ⊎ ((c ≡ record { result = einval; text = text; retrieval_class = h.class_default })
        × ((p.converted ≡ false) ⊎ InsideToken p.rest))
    ⊎ ((c ≡ record { result = erange; text = text; retrieval_class = h.class_default })
        × (p.converted ≡ true)
        × AtTokenEnd p.rest
        × (h.class_max < p.value))

class_value-Ended :
    (h : HkHeader) (text : Bytes) (p : Parsed)
    → h.class_max ≤ 255
    → Ended h text p (class_value h text p)
unfolding class_value
class_value-Ended h text p narrow = elim (Bool-cases p.converted) [
  | inr nothing ↦ rw nothing (inr (inl (refl, inl refl)))
  | inl read ↦ elim (ends_token-cases p.rest) [
    | inr (inside, goes_on) ↦ rw (read, inside) (inr (inl (refl, inr goes_on)))
    | inl (ends, at_end) ↦ elim (Bool-cases (ltb h.class_max p.value)) [
      | inl above ↦ rw (read, ends, above) (inr (inr (refl, refl, at_end, ground arith)))
      | inr fits ↦
          rw (read, ends, fits)
            (inl (
              refl,
              refl,
              at_end,
              ground arith,
              ground arith,
              skip_spaces-prefix p.rest,
              skip_spaces-NoLeadingSpace p.rest,
            ))
    ]
  ]
]

-- If classes are below 256: a text without class= in front is left alone, with the default class.
-- Otherwise let strtoul read the text behind class=. A success means that it read a number up to
-- the largest class and stopped at a space or at the end; the class is this number, and the text
-- left is what follows behind the spaces at which it stopped. -EINVAL means that it read no number
-- or stopped elsewhere, and -ERANGE that the number is above the largest class; both leave the
-- default class and the text as it was.
pub parse_class_result :
    (h : HkHeader) (bits : ℕ) (text : Bytes)
    → h.class_max ≤ 255
    → let c = parse_class h bits text in
      ((starts_with (codes "class=") text ≡ false)
        × (c ≡ record { result = ok; text = text; retrieval_class = h.class_default }))
      ⊎ ((starts_with (codes "class=") text ≡ true) × Ended h text (strtoul bits (drop 6 text)) c)
unfolding parse_class
parse_class_result h bits text narrow = elim (Bool-cases (starts_with (codes "class=") text)) [
  | inr absent ↦ inl (absent, rw absent)
  | inl present ↦
      inr (present, rw present (class_value-Ended h text (strtoul bits (drop 6 text)) narrow))
]

-- The class is up to the largest one, whatever the text is.
pub parse_class-le :
    (h : HkHeader) (bits : ℕ) (text : Bytes)
    → h.class_default ≤ h.class_max
    → h.class_max ≤ 255
    → (parse_class h bits text).retrieval_class ≤ h.class_max
parse_class-le h bits text default narrow = elim (parse_class_result h bits text narrow) [
  | inl (plain, same) ↦ rw same default
  | inr (prefixed, inl (good, read, ends, fits, class, behind, clear)) ↦ rw class fits
  | inr (prefixed, inr (inl (same, why))) ↦ rw same default
  | inr (prefixed, inr (inr (same, read, ends, above))) ↦ rw same default
]

Ends-space : (rest : Bytes) → Ends (b' ' ∷ rest)
unfolding digit_value
Ends-space rest = refl

-- If classes are below 256 and unsigned long has at least 8 bits: a class in range, printed in
-- front of a list that does not begin with a space, with a space between, is read back, and the
-- list is what is left of the text.
pub parse_class-print :
    (h : HkHeader) (bits class : ℕ) (list : Bytes)
    → h.class_max ≤ 255
    → 256 ≤ 2 ^ bits
    → class ≤ h.class_max
    → NoLeadingSpace list
    → parse_class h bits (codes "class=" ++ (decimal class ++ b' ' ∷ list))
      ≡ record { result = ok; text = list; retrieval_class = class }
unfolding parse_class starts_with class_value skip_spaces
parse_class-print h bits class list narrow wide fits clear =
    let read = strtoul-decimal bits class (b' ' ∷ list) (Ends-space list) (omega arith) in
    rw read (rw (skip_spaces_self list clear) (ground arith))
