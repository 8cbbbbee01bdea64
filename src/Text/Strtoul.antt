-- ===== src/Text/Strtoul.antt =====
-- `strtoul` of <stdlib.h>, in bases 0 and 10, for an `unsigned long` of a given width.
use k_fsw.Base.{
  ℕ, ◌+◌, ◌-◌, ◌*◌, ◌%◌, ◌^◌, Bool, true, false, ◌&&◌, ◌||◌, Option, none, some, [], ◌∷◌, ltb, leb,
  ◌==◌, if◌then◌else◌, is_some,
}
use k_fsw.Text.{Bytes, is_digit, is_space}

-- What one call returns: the number, `*end`, whether anything was converted and whether `errno`
-- is ERANGE.
pub record Parsed : Type 0 where
  pub value : ℕ
  pub rest : Bytes
  pub converted : Bool
  pub out_of_range : Bool

-- The value of a digit or a letter.
unfoldable pub digit_value : ℕ → Option ℕ
digit_value c =
    if is_digit c
    then some (c - b'0')
    else if leb b'a' c && leb c b'z'
    then some (c - b'a' + 10)
    else if leb b'A' c && leb c b'Z'
    then some (c - b'A' + 10)
    else none

unfoldable pub digit_in : ℕ → ℕ → Option ℕ
unfolding digit_value
digit_in base c = elim (digit_value c) [
  | some d ↦ if ltb d base then some d else none
  | none ↦ none
]

-- The digits from here on, onto the value read so far.
unfoldable pub scan_digits : ℕ → ℕ → Bytes → ℕ × Bytes
unfolding digit_in
scan_digits base acc [] = (acc, [])
scan_digits base acc (c ∷ cs) = elim (digit_in base c) [
  | some d ↦ scan_digits base (acc * base + d) cs
  | none ↦ (acc, c ∷ cs)
]

abbrev is_x : ℕ → Bool
is_x c = c == b'x' || c == b'X'

-- Base 0 reads its base from the prefix; a `0x` counts only before a hexadecimal digit.
unfoldable pub prefixed : Bytes → ℕ × Bytes
unfolding digit_in
prefixed [] = (10, [])
prefixed (a ∷ []) = (if a == b'0' then 8 else 10, a ∷ [])
prefixed (a ∷ b ∷ []) = (if a == b'0' then 8 else 10, a ∷ b ∷ [])
prefixed (a ∷ b ∷ c ∷ cs) =
    if a == b'0'
    then if is_x b && is_some (digit_in 16 c) then (16, c ∷ cs) else (8, a ∷ b ∷ c ∷ cs)
    else (10, a ∷ b ∷ c ∷ cs)

abbrev starts_digit : ℕ → Bytes → Bool
starts_digit base [] = false
starts_digit base (c ∷ cs) = is_some (digit_in base c)

-- The value of the digits, negated modulo `2 ^ bits` behind a minus sign.
unfoldable pub in_range : ℕ → Bool → ℕ × Bytes → Parsed
in_range bits minus (n, rest) =
    if ltb n (2 ^ bits)
    then record {
      value = if minus then (2 ^ bits - n) % 2 ^ bits else n;
      rest = rest;
      converted = true;
      out_of_range = false;
    }
    else record { value = 2 ^ bits - 1; rest = rest; converted = true; out_of_range = true }

unfoldable pub convert : ℕ → Bytes → Bool → ℕ × Bytes → Parsed
unfolding scan_digits digit_in in_range
convert bits text minus (base, digits) =
    if starts_digit base digits
    then in_range bits minus (scan_digits base 0 digits)
    else record { value = 0; rest = text; converted = false; out_of_range = false }

abbrev skip_white : Bytes → Bytes
skip_white [] = []
skip_white (c ∷ cs) = if is_space c then skip_white cs else c ∷ cs

abbrev after_sign : Bytes → Bool × Bytes
after_sign [] = (false, [])
after_sign (c ∷ cs) = if c == b'-' then (true, cs) else (false, if c == b'+' then cs else c ∷ cs)

-- `strtoul(text, &end, 0)`
unfoldable pub strtoul : ℕ → Bytes → Parsed
unfolding convert prefixed
strtoul bits text =
    let (minus, digits) = after_sign (skip_white text) in convert bits text minus (prefixed digits)
