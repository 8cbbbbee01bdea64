-- ===== src/Parameters/Bits.antt =====
-- When the exclusive or and the or of two bytes are 0, by the table of all pairs.
use k_fsw.Base.{
  ℕ, zero, suc, ◌%◌, ◌<◌, ◌≡◌, refl, ◌↔◌, bit_xor, bit_or, Bool, true, false, ◌&&◌, not, ◌==◌,
  arith, if◌then◌else◌, Bool-cases, inl, inr,
}

-- The bytes under a bound all pass.
pass : (ℕ → Bool) → ℕ → Bool
pass test zero = true
pass test (suc bound) = if test bound then pass test bound else false

module _ (test : ℕ → Bool) where
  pass-at : (bound byte : ℕ) → pass test bound ≡ true → byte < bound → test byte ≡ true
  unfolding pass
  pass-at zero byte all lt = absurd (omega arith)
  pass-at (suc bound) byte all lt = elim (Bool-cases (byte == bound)) [
    | inl top ↦ ground arith
    | inr lower ↦ pass-at bound byte (ground arith) (ground arith)
  ]

-- `(uint8_t)(a ^ b)` is 0 exactly at equal bytes, and `(uint8_t)(a | b)` only if both are 0.
abbrev agrees : Bool → Bool → Bool
agrees x y = if x then y else not y

abbrev tests : ℕ → ℕ → Bool
tests a b =
    agrees (bit_xor a b % 256 == 0) (a == b) && agrees (bit_or a b % 256 == 0) (a == 0 && b == 0)

table : pass (λ a. pass (tests a) 256) 256 ≡ true
unfolding pass
table = refl

tests-byte : {a b : ℕ} → a < 256 → b < 256 → tests a b ≡ true
tests-byte {a} {b} ha hb = pass-at (tests a) 256 b (pass-at _ 256 a table ha) hb

pub xor-eq_zero : (a b : ℕ) → a < 256 → b < 256 → (bit_xor a b % 256 ≡ 0) ↔ (a ≡ b)
xor-eq_zero a b ha hb =
    let pair = tests-byte ha hb in ((λ e. ground (arith, pair)), (λ e. ground (arith, pair)))

pub or-eq_zero : (a b : ℕ) → a < 256 → b < 256 → (bit_or a b % 256 ≡ 0) ↔ ((a ≡ 0) × (b ≡ 0))
or-eq_zero a b ha hb =
    let pair = tests-byte ha hb in ((λ e. ground (arith, pair)), (λ e. ground (arith, pair)))
