-- ===== src/Parameters/Storage/Used.antt =====
-- The percentage in use.
mod Tests
use k_fsw.Base.{
  ℕ, zero, suc, ◌+◌, ◌-◌, ◌*◌, ◌/◌, ◌%◌, ◌≤◌, ◌<◌, ◌≡◌, refl, ◌⊎◌, inl, inr, Bool, true, false,
  ◌||◌, Option, some, none, arith, ltb, ◌==◌, if◌then◌else◌, Bool-cases, Option-cases,
}
use native.Mathlib.Nat.{div-lt_iff_lt-mul, div-mul-le_self}
use mathlib.Core.Path.{subst, sym}
use k_fsw.Parameters.Storage.{StorageInfo, StorageWorld, used_percent, sample_storage}

-- What the percentage of a volume that holds something is: the greatest one that the used bytes
-- reach, at most 100.
abbrev pub IsPercent : ℕ → ℕ → ℕ → Type 0
IsPercent total used p = (p ≤ 100) × (p * total ≤ used * 100) × (used * 100 < (p + 1) * total)

quotient-IsPercent :
    (total used : ℕ) → 0 < total → used ≤ total → IsPercent total used (used * 100 / total)
quotient-IsPercent total used some_bytes within =
    let low : used * 100 / total < 101 =
      (div-lt_iff_lt-mul {k = total} {x = used * 100} {y = 101} some_bytes).1 (omega arith) in
    (
      omega (arith, low),
      div-mul-le_self (used * 100) total,
      (div-lt_iff_lt-mul {k = total} {x = used * 100} {y = used * 100 / total + 1} some_bytes).0
          (omega arith),
    )

used_percent-quotient :
    (info : StorageInfo)
    → 0 < info.total_bytes
    → info.free_bytes ≤ info.total_bytes
    → info.total_bytes ≤ 184467440737095516
    → used_percent info ≡ (info.total_bytes - info.free_bytes) * 100 / info.total_bytes
unfolding used_percent
used_percent-quotient info some_bytes within small =
    let used = info.total_bytes - info.free_bytes in
    let no_wrap : used * 100 % 18446744073709551616 ≡ used * 100 = omega arith in
    let low = (quotient-IsPercent info.total_bytes used some_bytes (omega arith)).0 in
    let sized : (info.total_bytes == 0 || ltb info.total_bytes info.free_bytes) ≡ false =
      ground arith in
    rw sized (rw no_wrap (omega (arith, low)))

used_percent-cases :
    (info : StorageInfo)
    → info.total_bytes ≤ 184467440737095516
    → ((0 < info.total_bytes)
        × (info.free_bytes ≤ info.total_bytes)
        × IsPercent info.total_bytes (info.total_bytes - info.free_bytes) (used_percent info))
      ⊎ (((info.total_bytes ≡ 0) ⊎ (info.total_bytes < info.free_bytes)) × (used_percent info ≡ 0))
unfolding used_percent
used_percent-cases info small =
    elim (Bool-cases (info.total_bytes == 0 || ltb info.total_bytes info.free_bytes)) [
      | inl bad ↦ inr (ground arith, ground arith)
      | inr good ↦
          let some_bytes : 0 < info.total_bytes = ground arith in
          let within : info.free_bytes ≤ info.total_bytes = ground arith in
          inl (
            some_bytes,
            within,
            subst (IsPercent info.total_bytes (info.total_bytes - info.free_bytes))
                (sym (used_percent-quotient info some_bytes within small))
                (quotient-IsPercent info.total_bytes (info.total_bytes - info.free_bytes) some_bytes
                  (omega arith)),
          )
    ]

-- On a volume of at most 184467440737095516 bytes, whose hundredfold fits in 64 bits, a sample
-- that is answered gives the greatest percentage that the used bytes reach, at most 100; for an
-- empty volume, or one with more free than there is, it gives 0.
pub sample_storage_used_pct :
    (w : StorageWorld) (info : StorageInfo)
    → w.info ≡ some info
    → info.total_bytes ≤ 184467440737095516
    → ((0 < info.total_bytes)
        × (info.free_bytes ≤ info.total_bytes)
        × IsPercent info.total_bytes
            (info.total_bytes - info.free_bytes)
            (sample_storage w).used_pct)
      ⊎ (((info.total_bytes ≡ 0) ⊎ (info.total_bytes < info.free_bytes))
          × ((sample_storage w).used_pct ≡ 0))
unfolding sample_storage
sample_storage_used_pct w info answered small = rw answered (used_percent-cases info small)
