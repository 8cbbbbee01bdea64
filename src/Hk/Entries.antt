-- ===== src/Hk/Entries.antt =====
-- app/src/hk_entries.c: one entry `[node:]table:offset`, a list of them, and `class=N`.
-- A pointer argument is an Option, none for NULL; `bits` is the width of `unsigned long`.
pub mod Sound
pub mod Print
pub mod Lists
pub mod Class
mod Tests
use mathlib.Core.Option
use k_fsw.Base.{
  ℕ, zero, suc, ◌+◌, ◌%◌, String, Bool, true, false, not, ◌&&◌, ◌||◌, Option, none, some, List, [],
  ◌∷◌, ◌++◌, ltb, leb, ◌==◌, if◌then◌else◌, ℤ, ok, einval, e2big, erange, length, drop,
}
use k_fsw.Text.{Bytes, codes, starts_with, is_digit}
use k_fsw.Text.Strtoul.{Parsed, strtoul}
use k_fsw.Hk.Header.{HkHeader, Entry}

abbrev uint8_max : ℕ
uint8_max = 255

abbrev uint16_max : ℕ
uint16_max = 65535

abbrev head_is_digit : Bytes → Bool
head_is_digit [] = false
head_is_digit (c ∷ _) = is_digit c

-- One number of an entry: it begins with a digit and fits in 16 bits.
unfoldable pub parse_part : ℕ → Bytes → Option (ℕ × Bytes)
parse_part bits cursor =
    let p = strtoul bits cursor in
    if not (head_is_digit cursor)
    then none
    else if p.out_of_range || ltb uint16_max p.value
    then none
    else some (p.value, p.rest)

abbrev pub behind_colon : Bytes → Option Bytes
behind_colon [] = none
behind_colon (c ∷ cs) = if c == b':' then some cs else none

-- The loop over the parts; the second argument is how many of the three are free.
unfoldable pub parse_parts : ℕ → ℕ → Bytes → Option (List ℕ × Bytes)
parse_parts bits zero cursor = none
parse_parts bits (suc free) cursor = elim (parse_part bits cursor) [
  | none ↦ none
  | some (part, rest) ↦ elim (behind_colon rest) [
    | none ↦ some (part ∷ [], rest)
    | some next ↦ elim (parse_parts bits free next) [
      | none ↦ none
      | some (parts, end) ↦ some (part ∷ parts, end)
    ]
  ]
]

-- The checks behind the loop on the last two parts.
unfoldable pub checked : HkHeader → ℕ → ℕ → ℕ → Option Entry
checked h node table offset =
    if ltb uint8_max table || ltb h.offset_max offset
    then none
    else some (record { node = node; param_id = h.param_id table offset })

unfoldable pub entry_of_parts : HkHeader → List ℕ × Bytes → Option Entry
entry_of_parts h (table ∷ offset ∷ [], []) = checked h h.node_local table offset
entry_of_parts h (node ∷ table ∷ offset ∷ [], []) = checked h (node % (uint16_max + 1)) table offset
entry_of_parts h _ = none

-- The entry that a text names.
unfoldable pub read_entry : HkHeader → ℕ → Bytes → Option Entry
read_entry h bits text = elim (parse_parts bits 3 text) [
  | none ↦ none
  | some parts ↦ entry_of_parts h parts
]

-- `kfsw_app_hk_parse_entry`: the result, and the entry behind the second pointer afterwards.
unfoldable pub parse_entry : HkHeader → ℕ → Option Bytes → Option Entry → ℤ × Option Entry
parse_entry h bits (some text) (some entry) = elim (read_entry h bits text) [
  | some e ↦ (ok, some e)
  | none ↦ (einval, some entry)
]
parse_entry h bits _ entry = (einval, entry)

unfoldable pub skip_spaces : Bytes → Bytes
skip_spaces [] = []
skip_spaces (c ∷ cs) = if c == b' ' then skip_spaces cs else c ∷ cs

-- The bytes up to the next space, and what stands from there.
unfoldable pub word : Bytes → Bytes
word [] = []
word (c ∷ cs) = if c == b' ' then [] else c ∷ word cs

-- `char token[24]`
abbrev pub token_size : ℕ
token_size = 24

-- What `kfsw_app_hk_parse_entries` leaves: its result, the entries it has written, and `*count`
-- if it was set.
pub record Batch : Type 0 where
  pub result : ℤ
  pub entries : List Entry
  pub count : Option ℕ

abbrev pub refused : ℤ → List Entry → Batch
refused result entries = record { result = result; entries = entries; count = none }

-- Behind the loop.
abbrev pub finished : List Entry → Batch
finished [] = refused einval []
finished (e ∷ es) = record { result = ok; entries = e ∷ es; count = some (length (e ∷ es)) }

-- One round of the loop returns, or writes an entry and goes on.
pub data Round : Type 0 where
  return : Batch → Round
  advance : Entry → Bytes → Round

-- The round behind the spaces, on the entries written so far.
unfoldable pub at_word : HkHeader → ℕ → ℕ → List Entry → Bytes → Round
at_word h bits max written [] = return (finished written)
at_word h bits max written (c ∷ cs) =
    let token = word (c ∷ cs) in
    if leb token_size (length token)
    then return (refused einval written)
    else if length written == max
    then return (refused e2big written)
    else elim (read_entry h bits token) [
      | none ↦ return (refused einval written)
      | some e ↦ advance e (drop (length token) (c ∷ cs))
    ]

-- The loop, on fuel.
unfoldable pub parse_words : HkHeader → ℕ → ℕ → ℕ → Bytes → List Entry → Option Batch
parse_words h bits max zero cursor written = none
parse_words h bits max (suc fuel) cursor written =
    elim (at_word h bits max written (skip_spaces cursor)) [
      | return b ↦ some b
      | advance e rest ↦ parse_words h bits max fuel rest (written ++ e ∷ [])
    ]

-- `kfsw_app_hk_parse_entries`; `outputs` is whether both output pointers are not NULL, and none
-- would be a loop that has not ended.
unfoldable pub parse_entries : HkHeader → ℕ → Option Bytes → Bool → ℕ → Option Batch
parse_entries h bits none outputs max = some (refused einval [])
parse_entries h bits (some text) outputs max =
    if not outputs || max == 0
    then some (refused einval [])
    else parse_words h bits max (suc (length text)) text []

-- What `kfsw_app_hk_parse_class` leaves: its result, `*text` and `*retrieval_class`.
pub record ClassRead : Type 0 where
  pub result : ℤ
  pub text : Bytes
  pub retrieval_class : ℕ

abbrev pub ends_token : Bytes → Bool
ends_token [] = true
ends_token (c ∷ _) = c == b' '

-- The class behind `class=`.
unfoldable pub class_value : HkHeader → Bytes → Parsed → ClassRead
class_value h text p =
    if not p.converted || not (ends_token p.rest)
    then record { result = einval; text = text; retrieval_class = h.class_default }
    else if ltb h.class_max p.value
    then record { result = erange; text = text; retrieval_class = h.class_default }
    else record {
      result = ok;
      text = skip_spaces p.rest;
      retrieval_class = p.value % (uint8_max + 1);
    }

unfoldable pub parse_class : HkHeader → ℕ → Bytes → ClassRead
parse_class h bits text =
    if not (starts_with (codes "class=") text)
    then record { result = ok; text = text; retrieval_class = h.class_default }
    else class_value h text (strtoul bits (drop 6 text))
