-- ===== src/Hk/Entries/Sound.antt =====
-- What an accepted entry and an accepted list satisfy, and that the loop over a list ends.
use k_fsw.Base.{
  ℕ, zero, suc, ◌≤◌, ◌<◌, ◌≡◌, refl, ◌≢◌, ◌⊎◌, inl, inr, Bool, false, not, ◌||◌, Option, none, some,
  List, [], ◌∷◌, ◌++◌, arith, leb, ◌==◌, All, All-append, length, length-append, length-drop, drop,
  ok, einval, e2big, Bool-cases, Option-cases,
}
use k_fsw.Text.{Bytes}
use k_fsw.Hk.Header.{HkHeader, Entry}
use k_fsw.Hk.Entries.{
  parse_parts, entry_of_parts, checked, read_entry, parse_entry, at_word, Round, return, advance,
  skip_spaces, word, token_size, Batch, finished, refused, parse_words, parse_entries,
}

-- The fields of an entry fit: its identifier is that of a table of one byte and an offset that
-- parameters can have, and its node is the local one or has two bytes.
pub record InRange (h : HkHeader) (e : Entry) : Type 0 where
  pub table : ℕ
  pub offset : ℕ
  pub table_fits : table ≤ 255
  pub offset_fits : offset ≤ h.offset_max
  pub is_param : e.param_id ≡ h.param_id table offset
  pub node_fits : (e.node ≡ h.node_local) ⊎ (e.node ≤ 65535)

checked-InRange :
    (h : HkHeader) (node table offset : ℕ) {e : Entry}
    → (node ≡ h.node_local) ⊎ (node ≤ 65535)
    → checked h node table offset ≡ some e
    → InRange h e
unfolding checked
checked-InRange h node table offset fits p = record {
  table = table;
  offset = offset;
  table_fits = ground arith;
  offset_fits = ground arith;
  is_param = ground arith;
  node_fits = ground arith;
}

entry_of_parts-InRange :
    (h : HkHeader) (parts : List ℕ × Bytes) {e : Entry}
    → entry_of_parts h parts ≡ some e
    → InRange h e
unfolding entry_of_parts
entry_of_parts-InRange h (table ∷ offset ∷ [], []) p = checked-InRange h _ table offset (inl refl) p
entry_of_parts-InRange h (node ∷ table ∷ offset ∷ [], []) p =
    checked-InRange h _ table offset (inr (omega arith)) p
entry_of_parts-InRange h _ p = cc

pub read_entry-InRange :
    (h : HkHeader) (bits : ℕ) (text : Bytes) {e : Entry}
    → read_entry h bits text ≡ some e
    → InRange h e
unfolding read_entry
read_entry-InRange h bits text p = elim (Option-cases (parse_parts bits 3 text)) [
  | inl bad ↦ absurd (cc (rw (bad, read_entry) at p))
  | inr (parts, good) ↦ entry_of_parts-InRange h parts (rw (good, read_entry) at p)
]

-- An accepted text leaves an entry whose fields fit; any other result is -EINVAL and leaves the
-- entry as it was.
parse_entry_result :
    (h : HkHeader) (bits : ℕ) (text : Option Bytes) (entry : Option Entry)
    → let (result, entry') = parse_entry h bits text entry in
      ((result ≡ ok) × ((e : Entry) × (entry' ≡ some e) × InRange h e))
      ⊎ ((result ≡ einval) × (entry' ≡ entry))
unfolding parse_entry
parse_entry_result h bits (some text) (some entry) = elim (Option-cases (read_entry h bits text)) [
  | inl bad ↦ inr (rw (bad, parse_entry) (refl, refl))
  | inr (e, good) ↦
      inl (rw (good, parse_entry) (refl, (e, refl, read_entry-InRange h bits text good)))
]
parse_entry_result h bits none entry = inr (refl, refl)
parse_entry_result h bits (some text) none = inr (refl, refl)

length-skip_spaces : (text : Bytes) → length (skip_spaces text) ≤ length text
unfolding skip_spaces
length-skip_spaces [] = omega arith
length-skip_spaces (c ∷ cs) = ground (arith, length-skip_spaces cs)

skip_spaces-head :
    (text : Bytes) (c : ℕ) (cs : Bytes) → skip_spaces text ≡ c ∷ cs → (c == b' ') ≡ false
unfolding skip_spaces
skip_spaces-head [] c cs e = cc
skip_spaces-head (x ∷ xs) c cs e = ground (arith, skip_spaces-head xs c cs)

word_nonempty : (c : ℕ) (cs : Bytes) → (c == b' ') ≡ false → 0 < length (word (c ∷ cs))
unfolding word
word_nonempty c cs h = rw h (omega arith)

-- The loop's invariant: the array holds what is written, and every entry fits.
abbrev Fits : HkHeader → ℕ → List Entry → Type 0
Fits h max written = (length written ≤ max) × All (InRange h) written

-- What the loop returns.
abbrev Sound : HkHeader → ℕ → Batch → Type 0
Sound h max b =
    Fits h max b.entries
    × (((b.result ≡ ok) × (b.count ≡ some (length b.entries)) × (0 < length b.entries))
        ⊎ (((b.result ≡ einval) ⊎ (b.result ≡ e2big)) × (b.count ≡ none)))

module _ (h : HkHeader) (bits max : ℕ) where
  finished-Sound : (written : List Entry) → Fits h max written → Sound h max (finished written)
  finished-Sound [] fits = (fits, inr (inl refl, refl))
  finished-Sound (e ∷ es) fits = (fits, inl (refl, refl, omega arith))

  -- What a round does, from a state that satisfies the invariant.
  abbrev Good : Bytes → List Entry → Round → Type 0
  Good cursor written (return b) = Sound h max b
  Good cursor written (advance e rest) =
      Fits h max (written ++ e ∷ []) × (length rest < length cursor)

  shorter :
      (cursor : Bytes) (c : ℕ) (cs : Bytes)
      → skip_spaces cursor ≡ c ∷ cs
      → length (drop (length (word (c ∷ cs))) (c ∷ cs)) < length cursor
  shorter cursor c cs s =
      let nonempty = word_nonempty c cs (skip_spaces-head cursor c cs s) in
      let whole : length (c ∷ cs) ≤ length cursor = rw s at (length-skip_spaces cursor) in
      let dropped = length-drop (length (word (c ∷ cs))) (c ∷ cs) in omega arith

  read-Good :
      (cursor : Bytes) (c : ℕ) (cs : Bytes) (written : List Entry)
      → skip_spaces cursor ≡ c ∷ cs
      → Fits h max written
      → length written ≢ max
      → (read : Option Entry) → read_entry h bits (word (c ∷ cs)) ≡ read
      → Good cursor written (elim read [
        | none ↦ return (refused einval written)
        | some e ↦ advance e (drop (length (word (c ∷ cs))) (c ∷ cs))
      ])
  read-Good cursor c cs written s fits room none e = (fits, inr (inl refl, refl))
  read-Good cursor c cs written s fits room (some entry) e = (
    (
      rw length-append (omega arith),
      All-append (InRange h) written _ fits.1 (read_entry-InRange h bits _ e, tt),
    ),
    shorter cursor c cs s,
  )

  at_word-Good :
      (cursor next : Bytes) (written : List Entry)
      → skip_spaces cursor ≡ next
      → Fits h max written
      → Good cursor written (at_word h bits max written next)
  unfolding at_word
  at_word-Good cursor [] written s fits = finished-Sound written fits
  at_word-Good cursor (c ∷ cs) written s fits =
      elim (Bool-cases (leb token_size (length (word (c ∷ cs))))) [
        | inl long ↦ rw long (fits, inr (inl refl, refl))
        | inr short ↦ elim (Bool-cases (length written == max)) [
          | inl full ↦ rw short (rw full (fits, inr (inr refl, refl)))
          | inr room ↦ rw short (
              rw room (
                read-Good cursor c cs written s fits (ground arith)
                  (read_entry h bits (word (c ∷ cs))) refl))
        ]
      ]

  parse_words-Sound :
      (fuel : ℕ) (cursor : Bytes) (written : List Entry)
      → length cursor < fuel
      → Fits h max written
      → (b : Batch) × (parse_words h bits max fuel cursor written ≡ some b) × Sound h max b
  parse_words-Sound zero cursor written enough fits = absurd (omega arith)
  parse_words-Sound (suc fuel) cursor written enough fits =
      go (at_word h bits max written (skip_spaces cursor)) refl
        (at_word-Good cursor (skip_spaces cursor) written refl fits)
        (λ rest e less. parse_words-Sound fuel rest (written ++ e ∷ []) (omega arith))
    where
      go :
          (r : Round)
          → at_word h bits max written (skip_spaces cursor) ≡ r
          → Good cursor written r
          → ((rest : Bytes) (e : Entry)
              → length rest < length cursor
              → Fits h max (written ++ e ∷ [])
              → (b : Batch) × (parse_words h bits max fuel rest (written ++ e ∷ []) ≡ some b)
                × Sound h max b)
          → (b : Batch) × (parse_words h bits max (suc fuel) cursor written ≡ some b)
            × Sound h max b
      go (return b) e good later = (b, unfold parse_words in rw (e, parse_words), good)
      go (advance entry rest) e good later =
          let (b, p, sound) = later rest entry good.1 good.0 in
          (b, unfold parse_words in rw (e, parse_words) p, sound)

-- The loop over a list always ends, for every text, array size and width of unsigned long. The
-- array is never overrun and every entry in it fits. On success the count is that of the entries
-- written and is not 0; any other result is -EINVAL or -E2BIG and leaves the count alone.
pub parse_entries-Sound :
    (h : HkHeader) (bits : ℕ) (text : Option Bytes) (outputs : Bool) (max : ℕ)
    → (b : Batch) × (parse_entries h bits text outputs max ≡ some b)
      × (length b.entries ≤ max)
      × All (InRange h) b.entries
      × (((b.result ≡ ok) × (b.count ≡ some (length b.entries)) × (0 < length b.entries))
          ⊎ (((b.result ≡ einval) ⊎ (b.result ≡ e2big)) × (b.count ≡ none)))
unfolding parse_entries
parse_entries-Sound h bits none outputs max =
    (refused einval [], refl, omega arith, tt, inr (inl refl, refl))
parse_entries-Sound h bits (some text) outputs max = elim (Bool-cases (not outputs || max == 0)) [
  | inl bad ↦ (refused einval [], rw bad, omega arith, tt, inr (inl refl, refl))
  | inr good ↦
      let (b, e, sound) =
        parse_words-Sound h bits max (suc (length text)) text [] (omega arith) (omega arith, tt) in
      (b, rw good e, sound.0.0, sound.0.1, sound.1)
]
