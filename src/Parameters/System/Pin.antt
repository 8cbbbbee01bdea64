-- ===== src/Parameters/System/Pin.antt =====
-- The pin: what the validator admits, and that the constant-time comparison is equality.
use k_fsw.Base.{
  ℕ, ◌%◌, ◌≤◌, ◌<◌, ◌≡◌, refl, ap, ◌↔◌, bit_or, bit_xor, true, false, none, some, [], ◌∷◌, arith,
  ◌==◌, length, All, ok, einval, Bool-cases, inl, inr, ◌⊎◌,
}
use k_fsw.Text.{Bytes}
use k_fsw.Text.Decimal.{IsDigit}
use k_fsw.Parameters.Bits.{xor-eq_zero, or-eq_zero}
use k_fsw.Parameters.System.{
  SystemValues, all_digits, validate_reboot_pin, difference_from, reboot_pin_matches,
}

abbrev pub IsByte : ℕ → Type 0
IsByte c = c < 256

difference_from-eq_zero :
    (d : ℕ) (pin stored : Bytes)
    → d < 256
    → All IsByte pin
    → All IsByte stored
    → length pin ≡ length stored
    → (difference_from d pin stored ≡ 0) ↔ ((d ≡ 0) × (pin ≡ stored))
unfolding difference_from
difference_from-eq_zero d [] [] b hp hs e = ((λ z. (z, refl)), (λ r. r.0))
difference_from-eq_zero d [] (s ∷ stored) b hp hs e = absurd (omega arith)
difference_from-eq_zero d (p ∷ pin) [] b hp hs e = absurd (omega arith)
difference_from-eq_zero d (p ∷ pin) (s ∷ stored) b hp hs e =
    let ih =
      difference_from-eq_zero (bit_or d (bit_xor p s % 256) % 256) pin stored (omega arith) hp.1
        hs.1 (omega arith) in
    let either = or-eq_zero d (bit_xor p s % 256) b (omega arith) in
    let same = xor-eq_zero p s hp.0 hs.0 in
    (
      (λ z.
          let (now, later) = ih.0 z in
          let (before, here) = either.0 now in (before, cc (same.0 here))),
      (λ r. ih.1 (either.1 (r.0, same.1 cc), cc)),
    )

-- A quoted pin of bytes matches exactly when it is the stored one, also of bytes; no pin never
-- matches.
pub reboot_pin_matches_iff :
    (v : SystemValues) (pin : Bytes)
    → All IsByte pin
    → All IsByte v.reboot_pin
    → ((reboot_pin_matches v (some pin) ≡ true) ↔ (pin ≡ v.reboot_pin))
      × (reboot_pin_matches v none ≡ false)
unfolding reboot_pin_matches
reboot_pin_matches_iff v pin hp hs = elim (Bool-cases (length pin == length v.reboot_pin)) [
  | inr other ↦ (((λ m. absurd (ground arith)), (λ e. absurd (ground (arith, ap length e)))), refl)
  | inl same ↦
      let all = difference_from-eq_zero 0 pin v.reboot_pin (omega arith) hp hs (ground arith) in
      (((λ m. (all.0 (ground arith)).1), (λ e. rw same (ground (arith, all.1 (refl, e))))), refl)
]

all_digits_iff : (text : Bytes) → (all_digits text ≡ true) ↔ All IsDigit text
unfolding all_digits
all_digits_iff [] = ((λ e. tt), (λ d. refl))
all_digits_iff (c ∷ cs) =
    let rest = all_digits_iff cs in
    ((λ e. (ground arith, rest.0 (ground arith))), (λ d. ground (arith, rest.1 d.1)))

-- The validator accepts exactly the texts of one to eight digits; any other is -EINVAL.
pub validate_reboot_pin_iff :
    (text : Bytes)
    → ((validate_reboot_pin text ≡ ok) ↔ ((1 ≤ length text) × (length text ≤ 8) × All IsDigit text))
      × ((validate_reboot_pin text ≡ ok) ⊎ (validate_reboot_pin text ≡ einval))
unfolding validate_reboot_pin
validate_reboot_pin_iff text =
    let digits = all_digits_iff text in
    (
      (
        (λ e. (ground arith, ground arith, digits.0 (ground arith))),
        (λ d. ground (arith, digits.1 d.2)),
      ),
      ground arith,
    )
