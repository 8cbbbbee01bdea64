-- ===== src/Parameters/Board/Identity.antt =====
-- The identity texts against their buffers, and the rows of the table.
use mathlib.Core.List.{append_assoc, append-nil}
use k_fsw.Base.{
  ℕ, zero, suc, ◌+◌, ◌-◌, ◌<◌, ◌≡◌, refl, ap, sym, ◌∙◌, inl, inr, Option, none, some, [], ◌∷◌, ◌++◌,
  arith, ltb, length, length-append, take, Bool-cases,
}
use k_fsw.Text.{Bytes, fitted}
use k_fsw.Parameters.Board.{copy_from, sample_identity}

take-nil : (n : ℕ) → take {A = ℕ} n [] ≡ []
take-nil zero = refl
take-nil (suc n) = refl

copy_from-take :
    (size : ℕ) (copied source : Bytes)
    → length copied < size
    → copy_from size copied source ≡ copied ++ take (size - 1 - length copied) source
unfolding copy_from
copy_from-take size copied [] room = rw take-nil (sym (append-nil copied))
copy_from-take size copied (c ∷ cs) room = elim (Bool-cases (ltb (length copied + 1) size)) [
  | inl more ↦
      let next : size - 1 - length copied ≡ suc (size - 1 - suc (length copied)) = ground arith in
      let longer : length (copied ++ c ∷ []) ≡ suc (length copied) =
        rw length-append (omega arith) in
      rw more (
        rw next (
          copy_from-take size (copied ++ c ∷ []) cs (rw longer (ground arith))
          ∙ rw longer (append_assoc copied (c ∷ []) _)))
  | inr full ↦
      let none_left : size - 1 - length copied ≡ 0 = ground arith in
      rw full (rw none_left (sym (append-nil copied)))
]

-- The source, and nothing for NULL.
abbrev pub or_empty : Option Bytes → Bytes
or_empty none = []
or_empty (some text) = text

-- In a buffer of at least one byte, sample_identity leaves what a bounded print of its source
-- would leave, and an empty text for NULL.
pub sample_identity_lem :
    (size : ℕ) (source : Option Bytes)
    → 0 < size
    → sample_identity size source ≡ fitted size (or_empty source)
unfolding sample_identity
sample_identity_lem size none room = sym (take-nil (size - 1))
sample_identity_lem size (some text) room =
    copy_from-take size [] text room ∙ ap (λ n. take n text) (omega arith)
