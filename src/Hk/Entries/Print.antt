-- ===== src/Hk/Entries/Print.antt =====
-- An entry printed as `table:offset` or `node:table:offset` in decimal is read back.
use mathlib.Core.List.{append_assoc, append-nil}
use k_fsw.Base.{
  ℕ, suc, ◌%◌, ◌^◌, ◌≤◌, ◌<◌, ◌≡◌, ◌≢◌, refl, ap, false, Option, none, some, List, [], ◌∷◌, ◌++◌,
  arith, ◌==◌, length, length-append, All, All-append, All-map, ok,
}
use k_fsw.Text.{Bytes, decimal}
use k_fsw.Text.Strtoul.{digit_value}
use k_fsw.Text.Decimal.{
  Ends, strtoul-decimal, decimal-cons, decimal-digits, length-decimal, IsDigit,
}
use k_fsw.Hk.Header.{HkHeader, Entry}
use k_fsw.Hk.Entries.{parse_part, parse_parts, checked, entry_of_parts, read_entry, parse_entry}

-- The fields of an entry as an operator writes them, and the node only for another node.
pub record Fields : Type 0 where
  pub node : Option ℕ
  pub table : ℕ
  pub offset : ℕ

abbrev pub node_text : Option ℕ → Bytes
node_text none = []
node_text (some n) = decimal n ++ b':' ∷ []

-- `[node:]table:offset`
unfoldable pub print_entry : Fields → Bytes
print_entry f = node_text f.node ++ (decimal f.table ++ b':' ∷ decimal f.offset)

abbrev NodeFits : Option ℕ → Type 0
NodeFits none = Unit
NodeFits (some n) = n ≤ 65535

-- The fields are in range.
pub record FieldsFit (h : HkHeader) (f : Fields) : Type 0 where
  pub node_fits : NodeFits f.node
  pub table_fits : f.table ≤ 255
  pub offset_fits : f.offset ≤ h.offset_max

abbrev pub named_node : HkHeader → Option ℕ → ℕ
named_node h none = h.node_local
named_node h (some n) = n

-- The entry that the fields stand for.
abbrev pub entry_of : HkHeader → Fields → Entry
entry_of h f = record { node = named_node h f.node; param_id = h.param_id f.table f.offset }

Ends-colon : (rest : Bytes) → Ends (b':' ∷ rest)
unfolding digit_value
Ends-colon rest = refl

checked-fits :
    (h : HkHeader) (node table offset : ℕ)
    → table ≤ 255
    → offset ≤ h.offset_max
    → checked h node table offset
      ≡ some (record { node = node; param_id = h.param_id table offset })
unfolding checked
checked-fits h node table offset t o = ground arith

module _ (bits : ℕ) (wide : 65536 ≤ 2 ^ bits) where
  parse_part-decimal :
      (n : ℕ) (rest : Bytes)
      → Ends rest
      → n ≤ 65535
      → parse_part bits (decimal n ++ rest) ≡ some (n, rest)
  unfolding parse_part
  parse_part-decimal n rest e h =
      let (c, cs, shape, digit) = decimal-cons n in
      let read = rw shape at (strtoul-decimal bits n rest e (omega arith)) in
      rw shape (rw read (ground arith))

  parts_last :
      (free n : ℕ) → n ≤ 65535 → parse_parts bits (suc free) (decimal n) ≡ some (n ∷ [], [])
  unfolding parse_parts
  parts_last free n h = rw (rw append-nil at (parse_part-decimal n [] tt h), parse_parts)

  parts_colon :
      (free n : ℕ) (next : Bytes) {parts : List ℕ} {end : Bytes}
      → n ≤ 65535
      → parse_parts bits free next ≡ some (parts, end)
      → parse_parts bits (suc free) (decimal n ++ b':' ∷ next) ≡ some (n ∷ parts, end)
  unfolding parse_parts
  parts_colon free n next h later =
      rw (parse_part-decimal n (b':' ∷ next) (Ends-colon next) h, parse_parts) (rw later)

  module _ (h : HkHeader) (narrow : h.offset_max ≤ 65535) where
    parts_two :
        (free table offset : ℕ)
        → table ≤ 255
        → offset ≤ h.offset_max
        → parse_parts bits (suc (suc free)) (decimal table ++ b':' ∷ decimal offset)
          ≡ some (table ∷ offset ∷ [], [])
    parts_two free table offset t o =
        parts_colon (suc free) table (decimal offset) (omega arith)
          (parts_last free offset (omega arith))

    read_entry-fields :
        (node : Option ℕ) (table offset : ℕ)
        → NodeFits node
        → table ≤ 255
        → offset ≤ h.offset_max
        → read_entry h bits (node_text node ++ (decimal table ++ b':' ∷ decimal offset))
          ≡ some (record { node = named_node h node; param_id = h.param_id table offset })
    unfolding read_entry entry_of_parts
    read_entry-fields none table offset n t o =
        rw (parts_two 1 table offset t o, read_entry) (checked-fits h h.node_local table offset t o)
    read_entry-fields (some node) table offset n t o =
        let two = parts_two 0 table offset t o in
        let three = parts_colon 2 node (decimal table ++ b':' ∷ decimal offset) n two in
        let keep : node % 65536 ≡ node = omega arith in
        rw append_assoc (rw (three, read_entry) (rw keep (checked-fits h node table offset t o)))

    -- The text of fields in range names their entry.
    pub read_entry-print :
        (f : Fields) → FieldsFit h f → read_entry h bits (print_entry f) ≡ some (entry_of h f)
    unfolding print_entry
    read_entry-print f fits =
        read_entry-fields f.node f.table f.offset fits.node_fits fits.table_fits fits.offset_fits

    -- If unsigned long has at least 16 bits and offsets are below 65536: fields in range, printed
    -- with or without a node, are read back as the entry that they stand for, written over
    -- whatever the destination held.
    parse_entry-print :
        (f : Fields) (old : Entry)
        → FieldsFit h f
        → parse_entry h bits (some (print_entry f)) (some old) ≡ (ok, some (entry_of h f))
    unfolding parse_entry
    parse_entry-print f old fits = rw (read_entry-print f fits, parse_entry)

    length-node_text : (node : Option ℕ) → NodeFits node → length (node_text node) ≤ 6
    length-node_text none fits = omega arith
    length-node_text (some n) fits =
        rw length-append (omega (arith, length-decimal n 4 (omega arith)))

    -- The printed entry fits in the parser's token buffer.
    pub length-print_entry : (f : Fields) → FieldsFit h f → length (print_entry f) < 24
    unfolding print_entry
    length-print_entry f fits =
        let node = length-node_text f.node fits.node_fits in
        let table = length-decimal f.table 2 (omega (arith, fits.table_fits)) in
        let offset = length-decimal f.offset 4 (omega (arith, fits.offset_fits, narrow)) in
        rw length-append (rw length-append (omega arith))

-- No byte of a printed entry is a space.
abbrev pub NoSpace : Bytes → Type 0
NoSpace = All (λ c. (c == b' ') ≡ false)

decimal-NoSpace : (n : ℕ) → NoSpace (decimal n)
decimal-NoSpace n = All-map IsDigit _ (λ c h. ground arith) (decimal n) (decimal-digits n)

node_text-NoSpace : (node : Option ℕ) → NoSpace (node_text node)
node_text-NoSpace none = tt
node_text-NoSpace (some n) = All-append _ (decimal n) _ (decimal-NoSpace n) (refl, tt)

pub print_entry-NoSpace : (f : Fields) → NoSpace (print_entry f)
unfolding print_entry
print_entry-NoSpace f =
    All-append _ (node_text f.node) _ (node_text-NoSpace f.node)
      (All-append _ (decimal f.table) _ (decimal-NoSpace f.table) (refl, decimal-NoSpace f.offset))

pub print_entry-ne-nil : (f : Fields) → print_entry f ≢ []
unfolding print_entry
print_entry-ne-nil f e =
    let (c, cs, shape, digit) = decimal-cons f.table in
    absurd (omega (arith, rw length-append at (rw length-append at (ap length e))))

-- A printed entry begins with a digit.
pub print_entry-IsDigit :
    (f : Fields) → (c : ℕ) × (cs : Bytes) × (print_entry f ≡ c ∷ cs) × IsDigit c
unfolding print_entry
print_entry-IsDigit f = node_digit f.node f.table f.offset
  where
    node_digit :
        (node : Option ℕ) (table offset : ℕ)
        → (c : ℕ) × (cs : Bytes) × (node_text node ++ (decimal table ++ b':' ∷ decimal offset)
            ≡ c ∷ cs)
          × IsDigit c
    node_digit none table offset =
        let (c, cs, shape, digit) = decimal-cons table in
        (c, cs ++ b':' ∷ decimal offset, rw shape refl, digit)
    node_digit (some n) table offset =
        let (c, cs, shape, digit) = decimal-cons n in
        (c, cs ++ b':' ∷ [] ++ (decimal table ++ b':' ∷ decimal offset), rw shape refl, digit)
