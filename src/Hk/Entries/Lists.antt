-- ===== src/Hk/Entries/Lists.antt =====
-- A list of entries separated by single spaces is read word by word.
use k_fsw.Base.{
  ℕ, zero, suc, ◌^◌, ◌≤◌, ◌<◌, ◌≡◌, ◌≢◌, refl, ap, ◌∙◌, true, false, none, some, List, [], ◌∷◌,
  ◌++◌, map, arith, leb, ◌==◌, if◌then◌else◌, length, length-append, take, drop-append, take-append,
  length-map, All, ok, e2big, Bool-cases, inl, inr,
}
use mathlib.Core.List.{append_assoc, append-nil}
use k_fsw.Text.{Bytes}
use k_fsw.Hk.Header.{HkHeader, Entry}
use k_fsw.Hk.Entries.{
  read_entry, skip_spaces, word, at_word, parse_words, parse_entries, Batch, advance, return,
  finished, refused, token_size,
}
use k_fsw.Hk.Entries.Print.{
  Fields, FieldsFit, entry_of, print_entry, NoSpace, read_entry-print, length-print_entry,
  print_entry-NoSpace, print_entry-ne-nil,
}

-- Each word behind a space.
abbrev pub spaced : List Bytes → Bytes
spaced [] = []
spaced (w ∷ ws) = b' ' ∷ (w ++ spaced ws)

-- Words with one space between each two.
abbrev pub joined : List Bytes → Bytes
joined [] = []
joined (w ∷ ws) = w ++ spaced ws

-- A word that fits in the token buffer and names the entry.
pub record Names (h : HkHeader) (bits : ℕ) (w : Bytes) (e : Entry) : Type 0 where
  pub nonempty : w ≢ []
  pub no_space : NoSpace w
  pub short : length w < token_size
  pub read : read_entry h bits w ≡ some e

-- The words name the entries one by one.
abbrev pub AllName : HkHeader → ℕ → List Bytes → List Entry → Type 0
AllName h bits [] [] = Unit
AllName h bits (w ∷ ws) (e ∷ es) = Names h bits w e × AllName h bits ws es
AllName h bits _ _ = ⊥

word-spaced : (w : Bytes) (ws : List Bytes) → NoSpace w → word (w ++ spaced ws) ≡ w
unfolding word
word-spaced [] [] h = refl
word-spaced [] (v ∷ ws) h = refl
word-spaced (c ∷ cs) ws h = rw h.0 (ap (◌∷◌ c) (word-spaced cs ws h.1))

skip_spaces-word :
    (w : Bytes) (rest : Bytes) → w ≢ [] → NoSpace w → skip_spaces (w ++ rest) ≡ w ++ rest
unfolding skip_spaces
skip_spaces-word [] rest ne h = absurd (ne refl)
skip_spaces-word (c ∷ cs) rest ne h = rw h.0

module _ (h : HkHeader) (bits max : ℕ) where
  at_word-full :
      (w : Bytes) (ws : List Bytes) (e : Entry) (written : List Entry)
      → Names h bits w e
      → length written ≡ max
      → at_word h bits max written (w ++ spaced ws) ≡ return (refused e2big written)
  unfolding at_word
  at_word-full [] ws e written names full = absurd (names.nonempty refl)
  at_word-full (c ∷ cs) ws e written names full =
      rw (word-spaced (c ∷ cs) ws names.no_space) (ground (arith, names.short))

  at_word-next :
      (w : Bytes) (ws : List Bytes) (e : Entry) (written : List Entry)
      → Names h bits w e
      → length written < max
      → at_word h bits max written (w ++ spaced ws) ≡ advance e (spaced ws)
  unfolding at_word
  at_word-next [] ws e written names room = absurd (names.nonempty refl)
  at_word-next (c ∷ cs) ws e written names room =
      let token = word-spaced (c ∷ cs) ws names.no_space in
      rw token (
        rw names.read
          (rw token (rw (drop-append (c ∷ cs) (spaced ws)) (ground (arith, names.short)))))

  -- From words that all name entries the loop takes them all, or as many as the array holds.
  abbrev taken : List Entry → Batch
  taken all = if leb (length all) max then finished all else refused e2big (take max all)

  taken_full :
      (written : List Entry) (e : Entry) (es : List Entry)
      → length written ≡ max
      → refused e2big written ≡ taken (written ++ e ∷ es)
  taken_full written e es full =
      let more = length-append written (e ∷ es) in
      let kept = take-append written (e ∷ es) in
      let over : leb (length (written ++ e ∷ es)) max ≡ false = ground arith in
      rw over (rw (← full) (rw kept))

  parse_words-end :
      (fuel : ℕ) (written : List Entry)
      → length written ≤ max
      → parse_words h bits max (suc fuel) [] written ≡ some (taken (written ++ []))
  unfolding parse_words skip_spaces at_word
  parse_words-end fuel written room = rw append-nil (ground arith)

  parse_words-next :
      (fuel : ℕ) (cursor : Bytes) (written : List Entry)
      → parse_words h bits max (suc fuel) cursor written
        ≡ elim (at_word h bits max written (skip_spaces cursor)) [
          | return b ↦ some b
          | advance e rest ↦ parse_words h bits max fuel rest (written ++ e ∷ [])
        ]
  unfolding parse_words
  parse_words-next fuel cursor written = refl

  skip_spaces-spaced :
      (w : Bytes) (ws : List Bytes)
      → w ≢ []
      → NoSpace w
      → skip_spaces (spaced (w ∷ ws)) ≡ w ++ spaced ws
  unfolding skip_spaces
  skip_spaces-spaced w ws ne clear = skip_spaces-word w (spaced ws) ne clear

  -- The loop at the first word of a list, behind no space or one.
  parse_words-word :
      (fuel : ℕ) (cursor w : Bytes) (ws : List Bytes) (e : Entry) (es written : List Entry)
      → skip_spaces cursor ≡ w ++ spaced ws
      → Names h bits w e
      → length written ≤ max
      → (length written < max
          → parse_words h bits max fuel (spaced ws) (written ++ e ∷ [])
            ≡ some (taken ((written ++ e ∷ []) ++ es)))
      → parse_words h bits max (suc fuel) cursor written ≡ some (taken (written ++ e ∷ es))
  parse_words-word fuel cursor w ws e es written s names room later = rw parse_words-next (
      rw s (elim (Bool-cases (length written == max)) [
        | inl full ↦
            rw (at_word-full w ws e written names (ground arith))
              (ap some (taken_full written e es (ground arith)))
        | inr free ↦
            rw (at_word-next w ws e written names (ground arith)) (
              later (ground arith)
              ∙ ap (λ all. some (taken all)) (append_assoc written (e ∷ []) es))
      ]))

  parse_words-spaced :
      (fuel : ℕ) (ws : List Bytes) (es written : List Entry)
      → length ws < fuel
      → length written ≤ max
      → AllName h bits ws es
      → parse_words h bits max fuel (spaced ws) written ≡ some (taken (written ++ es))
  parse_words-spaced zero ws es written f room names = absurd (omega arith)
  parse_words-spaced (suc fuel) [] [] written f room names = parse_words-end fuel written room
  parse_words-spaced (suc fuel) [] (e ∷ es) written f room names = absurd names
  parse_words-spaced (suc fuel) (w ∷ ws) [] written f room names = absurd names
  parse_words-spaced (suc fuel) (w ∷ ws) (e ∷ es) written f room names =
      parse_words-word fuel (spaced (w ∷ ws)) w ws e es written
        (skip_spaces-spaced w ws names.0.nonempty names.0.no_space) names.0 room
        (λ free.
          parse_words-spaced fuel ws es (written ++ e ∷ []) (omega arith)
            (rw length-append (omega arith)) names.1)

length-spaced : (ws : List Bytes) → length ws ≤ length (spaced ws)
length-spaced [] = omega arith
length-spaced (w ∷ ws) = rw length-append (omega (arith, length-spaced ws))

enough : (w : Bytes) (ws : List Bytes) → w ≢ [] → length ws < length (w ++ spaced ws)
enough [] ws ne = absurd (ne refl)
enough (c ∷ cs) ws ne = rw length-append (omega (arith, length-spaced ws))

-- At least one word that names an entry, joined by single spaces, are all parsed if an array of at
-- least one entry holds them; if there are more, the array is filled from the front and the result
-- is -E2BIG.
pub parse_entries-joined :
    (h : HkHeader) (bits max : ℕ) (ws : List Bytes) (es : List Entry)
    → 0 < max
    → 0 < length es
    → AllName h bits ws es
    → parse_entries h bits (some (joined ws)) true max
      ≡ some (
          if leb (length es) max
          then record { result = ok; entries = es; count = some (length es) }
          else record { result = e2big; entries = take max es; count = none })
unfolding parse_entries
parse_entries-joined h bits max [] [] p q names = absurd (omega arith)
parse_entries-joined h bits max [] (e ∷ es) p q names = absurd names
parse_entries-joined h bits max (w ∷ ws) [] p q names = absurd names
parse_entries-joined h bits max (w ∷ ws) (e ∷ es) p q names =
    let used : (max == 0) ≡ false = ground arith in
    let fuel = enough w ws names.0.nonempty in
    rw used (
      parse_words-word h bits max (length (w ++ spaced ws)) (w ++ spaced ws) w ws e es []
        (skip_spaces-word w (spaced ws) names.0.nonempty names.0.no_space) names.0 (omega arith)
        (λ free.
          parse_words-spaced h bits max (length (w ++ spaced ws)) ws es (e ∷ []) fuel (omega arith)
            names.1))

-- The texts of fields in range name their entries.
AllName-print :
    (h : HkHeader) (bits : ℕ) (fields : List Fields)
    → 65536 ≤ 2 ^ bits
    → h.offset_max ≤ 65535
    → All (FieldsFit h) fields
    → AllName h bits (map print_entry fields) (map (entry_of h) fields)
AllName-print h bits [] wide narrow fit = tt
AllName-print h bits (f ∷ fs) wide narrow fit = (
  record {
    nonempty = print_entry-ne-nil f;
    no_space = print_entry-NoSpace f;
    short = length-print_entry bits wide h narrow f fit.0;
    read = read_entry-print bits wide h narrow f fit.0;
  },
  AllName-print h bits fs wide narrow fit.1,
)

-- If unsigned long has at least 16 bits and offsets are below 65536: a list of at least one entry
-- in range that the array holds, printed with single spaces, is parsed back whole.
pub parse_entries-print :
    (h : HkHeader) (bits max : ℕ) (fields : List Fields)
    → 65536 ≤ 2 ^ bits
    → h.offset_max ≤ 65535
    → 0 < length fields
    → length fields ≤ max
    → All (FieldsFit h) fields
    → parse_entries h bits (some (joined (map print_entry fields))) true max
      ≡ some
          (record { result = ok; entries = map (entry_of h) fields; count = some (length fields) })
parse_entries-print h bits max fields wide narrow some_field room fit =
    let n = length-map fields (entry_of h) in
    parse_entries-joined h bits max (map print_entry fields) (map (entry_of h) fields) (omega arith)
      (omega arith) (AllName-print h bits fields wide narrow fit)
    ∙ rw n (ground arith)
