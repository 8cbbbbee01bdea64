-- ===== src/Text/Decimal.antt =====
-- Reading back what was printed: `strtoul` on the digits of a number, and how many there are.
use mathlib.Core.List.{append_assoc}
use native.Mathlib.Nat.{pow-suc}
use k_fsw.Base.{
  ℕ, zero, suc, ◌+◌, ◌*◌, ◌/◌, ◌%◌, ◌^◌, ◌≤◌, ◌<◌, ◌≡◌, refl, ap, ◌∙◌, inl, inr, true, false, none,
  some, [], ◌∷◌, ◌++◌, arith, ltb, length, length-append, Bool-cases, All, All-append, ltb→lt,
  lt→ltb, ◌==◌, is_some, ◌||◌,
}
use k_fsw.Text.{Bytes, decimal_on, decimal, is_space}
use k_fsw.Text.Strtoul.{
  Parsed, digit_value, digit_in, scan_digits, prefixed, convert, in_range, strtoul,
}

-- What follows a number: the end, or a byte that is no digit and no letter.
abbrev pub Ends : Bytes → Type 0
Ends [] = Unit
Ends (c ∷ _) = digit_value c ≡ none

digit_in-digit : (d : ℕ) → d < 10 → digit_in 10 (b'0' + d) ≡ some d
unfolding digit_in
digit_in-digit d h = ground arith

scan_digits-Ends : (base n : ℕ) (rest : Bytes) → Ends rest → scan_digits base n rest ≡ (n, rest)
unfolding scan_digits digit_in
scan_digits-Ends base n [] h = refl
scan_digits-Ends base n (c ∷ cs) h = rw (h, digit_in, scan_digits)

scan_digits-cons :
    (base acc d c : ℕ) (rest : Bytes)
    → digit_in base c ≡ some d
    → scan_digits base acc (c ∷ rest) ≡ scan_digits base (acc * base + d) rest
unfolding scan_digits
scan_digits-cons base acc d c rest h = rw (h, scan_digits)

-- The digits of a number bring the scan to that number.
scan_digits-decimal_on :
    (fuel n : ℕ) (rest : Bytes)
    → n < fuel
    → scan_digits 10 0 (decimal_on fuel n ++ rest) ≡ scan_digits 10 n rest
unfolding decimal_on
scan_digits-decimal_on zero n rest h = absurd (omega arith)
scan_digits-decimal_on (suc fuel) n rest h = elim (Bool-cases (ltb n 10)) [
  | inl small ↦ rw small (
      scan_digits-cons 10 0 n _ rest (digit_in-digit n (ltb→lt n 10 small))
      ∙ ap (λ m. scan_digits 10 m rest) (omega arith))
  | inr large ↦ rw large (
      rw append_assoc (
        scan_digits-decimal_on fuel (n / 10) _ (ground arith)
        ∙ scan_digits-cons 10 (n / 10) (n % 10) _ rest (digit_in-digit (n % 10) (omega arith))
        ∙ ap (λ m. scan_digits 10 m rest) (omega arith)))
]

-- A positive number is printed with a digit in front that is not 0.
decimal_on-head :
    (fuel n : ℕ)
    → n < fuel
    → 0 < n
    → (d : ℕ) × (ds : Bytes) × (decimal_on fuel n ≡ (b'0' + d) ∷ ds) × (0 < d) × (d < 10)
unfolding decimal_on
decimal_on-head zero n h p = absurd (omega arith)
decimal_on-head (suc fuel) n h p = elim (Bool-cases (ltb n 10)) [
  | inl small ↦ (n, [], rw small, p, ltb→lt n 10 small)
  | inr large ↦
      let (d, ds, e, lo, hi) = decimal_on-head fuel (n / 10) (ground arith) (ground arith) in
      (d, ds ++ (b'0' + n % 10) ∷ [], rw large (rw e), lo, hi)
]

-- Behind a digit that is not 0 the base is 10.
prefixed-head :
    (d : ℕ) (ds : Bytes) → 0 < d → d < 10 → prefixed ((b'0' + d) ∷ ds) ≡ (10, (b'0' + d) ∷ ds)
unfolding prefixed
prefixed-head d [] lo hi = ground arith
prefixed-head d (a ∷ []) lo hi = ground arith
prefixed-head d (a ∷ b ∷ cs) lo hi = ground arith

prefixed-zero : (rest : Bytes) → Ends rest → prefixed (b'0' ∷ rest) ≡ (8, b'0' ∷ rest)
unfolding prefixed digit_value
prefixed-zero [] h = refl
prefixed-zero (a ∷ []) h = refl
prefixed-zero (a ∷ b ∷ cs) h = ground (arith, not_x a h)
  where
    not_x : (a : ℕ) → digit_value a ≡ none → (a == b'x' || a == b'X') ≡ false
    not_x a h = ground arith

module _ (bits n : ℕ) (text rest : Bytes) (fits : n < 2 ^ bits) where
  abbrev whole : Parsed
  whole = record { value = n; rest = rest; converted = true; out_of_range = false }

  convert-whole :
      (base c : ℕ) (cs : Bytes)
      → is_some (digit_in base c) ≡ true
      → scan_digits base 0 (c ∷ cs) ≡ (n, rest)
      → convert bits text false (base, c ∷ cs) ≡ whole
  unfolding convert in_range
  convert-whole base c cs d e = rw (d, e, lt→ltb n (2 ^ bits) fits)

digit-not-special :
    (d : ℕ)
    → d < 10
    → (is_space (b'0' + d) ≡ false)
      × (((b'0' + d) == b'-') ≡ false)
      × (((b'0' + d) == b'+') ≡ false)
digit-not-special d h = (ground arith, ground arith, ground arith)

-- A digit in front is no white space and no sign.
strtoul-digit :
    (bits d : ℕ) (cs : Bytes)
    → d < 10
    → strtoul bits ((b'0' + d) ∷ cs)
      ≡ convert bits ((b'0' + d) ∷ cs) false (prefixed ((b'0' + d) ∷ cs))
unfolding strtoul
strtoul-digit bits d cs h =
    let (space, minus, plus) = digit-not-special d h in rw space (rw minus (rw plus))

decimal-head :
    (n : ℕ) → 0 < n → (d : ℕ) × (ds : Bytes) × (decimal n ≡ (b'0' + d) ∷ ds) × (0 < d) × (d < 10)
unfolding decimal
decimal-head n p = decimal_on-head (suc n) n (omega arith) p

scan_digits-decimal :
    (n : ℕ) (rest : Bytes) → Ends rest → scan_digits 10 0 (decimal n ++ rest) ≡ (n, rest)
unfolding decimal
scan_digits-decimal n rest e =
    scan_digits-decimal_on (suc n) n rest (omega arith) ∙ scan_digits-Ends 10 n rest e

digit_in-is_some : (d : ℕ) → d < 10 → is_some (digit_in 10 (b'0' + d)) ≡ true
digit_in-is_some d h = rw (digit_in-digit d h)

zero_octal : (rest : Bytes) → Ends rest → scan_digits 8 0 (b'0' ∷ rest) ≡ (0, rest)
unfolding digit_in
zero_octal rest e = scan_digits-cons 8 0 0 b'0' rest refl ∙ scan_digits-Ends 8 0 rest e

zero_digit : is_some (digit_in 8 b'0') ≡ true
unfolding digit_in
zero_digit = refl

decimal-zero : decimal 0 ≡ b'0' ∷ []
unfolding decimal
decimal-zero = refl

-- A number that fits is read back from its digits, up to what follows them.
pub strtoul-decimal :
    (bits n : ℕ) (rest : Bytes)
    → Ends rest
    → n < 2 ^ bits
    → strtoul bits (decimal n ++ rest)
      ≡ record { value = n; rest = rest; converted = true; out_of_range = false }
strtoul-decimal bits zero rest e h = rw decimal-zero (
    strtoul-digit bits 0 rest (omega arith)
    ∙ ap (convert bits (b'0' ∷ rest) false) (prefixed-zero rest e)
    ∙ convert-whole bits 0 _ rest h 8 b'0' rest zero_digit (zero_octal rest e))
strtoul-decimal bits (suc n) rest e h =
    let (d, ds, shape, lo, hi) = decimal-head (suc n) (omega arith) in
    rw shape (
      strtoul-digit bits d (ds ++ rest) hi
      ∙ ap (convert bits ((b'0' + d) ∷ (ds ++ rest)) false) (prefixed-head d (ds ++ rest) lo hi)
      ∙ convert-whole bits (suc n) _ rest h 10 (b'0' + d) (ds ++ rest) (digit_in-is_some d hi)
          (rw shape at (scan_digits-decimal (suc n) rest e)))

length-decimal_on : (fuel n k : ℕ) → n < fuel → n < 10 ^ suc k → length (decimal_on fuel n) ≤ suc k
unfolding decimal_on
length-decimal_on zero n k h b = absurd (omega arith)
length-decimal_on (suc fuel) n zero h b = rw (lt→ltb n 10 b) (omega arith)
length-decimal_on (suc fuel) n (suc k) h b = elim (Bool-cases (ltb n 10)) [
  | inl small ↦ rw small (omega arith)
  | inr large ↦ rw large (
      rw length-append (
        omega (
          arith,
          length-decimal_on fuel (n / 10) k (ground arith) (omega (arith, pow-suc 10 (suc k))),
        )))
]

-- A number below 10 ^ k has at most k digits, for a positive k.
pub length-decimal : (n k : ℕ) → n < 10 ^ suc k → length (decimal n) ≤ suc k
unfolding decimal
length-decimal n k h = length-decimal_on (suc n) n k (omega arith) h

abbrev pub IsDigit : ℕ → Type 0
IsDigit c = (b'0' ≤ c) × (c ≤ b'9')

digits_only : (fuel n : ℕ) → All IsDigit (decimal_on fuel n)
unfolding decimal_on
digits_only zero n = tt
digits_only (suc fuel) n = elim (Bool-cases (ltb n 10)) [
  | inl small ↦ rw small (ground arith)
  | inr large ↦ rw large (All-append IsDigit _ _ (digits_only fuel (n / 10)) (omega arith))
]

-- A number is printed as digits only.
pub decimal-digits : (n : ℕ) → All IsDigit (decimal n)
unfolding decimal
decimal-digits n = digits_only (suc n) n

-- A printed number begins with a digit.
pub decimal-cons : (n : ℕ) → (c : ℕ) × (cs : Bytes) × (decimal n ≡ c ∷ cs) × IsDigit c
decimal-cons zero = (b'0', [], decimal-zero, (omega arith, omega arith))
decimal-cons (suc n) =
    let (d, ds, e, lo, hi) = decimal-head (suc n) (omega arith) in
    (b'0' + d, ds, e, (omega arith, omega arith))
