-- ===== src/Shell/Remexec/Join.antt =====
-- The command line that the words of a remote execution command are joined to.
use mathlib.Core.List.{append_assoc, append-nil}
use k_fsw.Base.{
  ℕ, ◌+◌, ◌<◌, ◌≡◌, refl, none, some, List, [], ◌∷◌, ◌++◌, arith, ltb, leb, if◌then◌else◌, length,
  length-append, Bool-cases, inl, inr,
}
use k_fsw.Text.{Bytes}
use k_fsw.Hk.Entries.Lists.{spaced, joined}
use k_fsw.Shell.Remexec.{join_words, join_command}

join_words_lem :
    (capacity : ℕ) (line : Bytes) (words : List Bytes)
    → length line < capacity
    → join_words capacity line words
      ≡ (if ltb (length (line ++ spaced words)) capacity then some (line ++ spaced words) else none)
unfolding join_words
join_words_lem capacity line [] fits = rw append-nil (ground arith)
join_words_lem capacity line (w ∷ ws) fits =
    let grown = append_assoc line (b' ' ∷ w) (spaced ws) in
    let sizes : length (line ++ b' ' ∷ (w ++ spaced ws))
        ≡ length line + (1 + (length w + length (spaced ws))) =
      rw length-append (rw length-append (omega arith)) in
    elim (Bool-cases (leb capacity (length line + length w + 1))) [
      | inl long ↦ rw long (ground (arith, sizes))
      | inr short ↦ rw short (
          rw (join_words_lem capacity (line ++ b' ' ∷ w) ws (rw length-append (ground arith)))
            (rw grown refl))
    ]

-- The words of a command are joined by single spaces if the line then fits, with its NUL, in the
-- buffer, and are refused otherwise; a buffer holds something.
pub join_command_lem :
    (capacity : ℕ) (words : List Bytes)
    → 0 < capacity
    → join_command capacity words
      ≡ (if ltb (length (joined words)) capacity then some (joined words) else none)
unfolding join_command
join_command_lem capacity [] holds = ground arith
join_command_lem capacity (w ∷ ws) holds = elim (Bool-cases (leb capacity (length w))) [
  | inl long ↦ rw long (rw length-append (ground arith))
  | inr short ↦ rw short (join_words_lem capacity w ws (ground arith))
]
