-- ===== src/Commands/Define.antt =====
-- hk_define against the parsers that it calls: what reaches the housekeeping service.
use k_fsw.Base.{
  ℕ, ◌^◌, ◌<◌, ◌≤◌, ◌≡◌, ◌≢◌, refl, ◌⊎◌, inl, inr, true, false, some, List, [], ◌∷◌, ◌++◌, map,
  arith, ltb, All, length, is_ok, Bool-cases,
}
use k_fsw.Text.{Bytes, codes, decimal}
use k_fsw.Hk.Header.{Entry}
use k_fsw.Hk.Entries.{parse_entries, ClassRead, parse_class}
use k_fsw.Hk.Entries.Sound.{InRange, parse_entries-Sound}
use k_fsw.Hk.Entries.Print.{
  Fields, FieldsFit, entry_of, print_entry, NoSpace, print_entry-ne-nil, print_entry-NoSpace,
}
use k_fsw.Hk.Entries.Lists.{joined, parse_entries-print}
use k_fsw.Hk.Entries.Class.{NoLeadingSpace, parse_class-le, parse_class-print}
use k_fsw.Commands.{
  CommandArg, CommandResult, CommandConfig, CommandCall, hk_define_class, CommandEnv,
}
use k_fsw.Commands.Hk.{
  DefineText, unreadable, readable, batch_read, class_then_entries, read_definition,
  define_readable, command_hk_define,
}

-- A definition that the service can take: at least one entry and at most what the array holds,
-- every entry in range, and a class in range.
pub record Takeable (c : CommandConfig) (entries : List Entry) (class : ℕ) : Type 0 where
  pub some_entries : 0 < length entries
  pub room : length entries ≤ c.hk_entries
  pub in_range : All (InRange c.hk_header) entries
  pub class_fits : class ≤ c.hk_header.class_max

-- The text was not readable, or what it says can be taken.
abbrev Read : CommandConfig → DefineText → Type 0
Read c (unreadable outcome) = is_ok outcome ≡ false
Read c (readable entries class) = Takeable c entries class

batch_read-Read :
    (c : CommandConfig) (class : ℕ) (text : Bytes)
    → class ≤ c.hk_header.class_max
    → Read c
        (batch_read class (parse_entries c.hk_header c.long_bits (some text) true c.hk_entries))
batch_read-Read c class text fits =
    let (b, ends, room, range, cases) =
      parse_entries-Sound c.hk_header c.long_bits (some text) true c.hk_entries in
    rw ends (elim cases [
      | inl (good, counted, any) ↦
          rw good (record { some_entries = any; room = room; in_range = range; class_fits = fits })
      | inr (inl bad, uncounted) ↦ rw bad refl
      | inr (inr bad, uncounted) ↦ rw bad refl
    ])

class_then_entries-Read :
    (c : CommandConfig) (k : ClassRead)
    → k.retrieval_class ≤ c.hk_header.class_max
    → Read c (class_then_entries c k)
class_then_entries-Read c k fits = elim (Bool-cases (is_ok k.result)) [
  | inl good ↦ rw good (batch_read-Read c k.retrieval_class k.text fits)
  | inr bad ↦ rw bad bad
]

read_definition-Read :
    (c : CommandConfig) (text : Bytes)
    → c.hk_header.class_default ≤ c.hk_header.class_max
    → c.hk_header.class_max ≤ 255
    → Read c (read_definition c text)
unfolding read_definition
read_definition-Read c text default narrow =
    class_then_entries-Read c (parse_class c.hk_header c.long_bits text)
      (parse_class-le c.hk_header c.long_bits text default narrow)

module _ (c : CommandConfig) (env : CommandEnv) (result : CommandResult)
    (h : List CommandCall) where
  define_readable-calls :
      (report : ℕ) (quoted : Bytes) (text : DefineText)
      → report ≤ 255
      → Read c text
      → let ((returned, after), h') = define_readable c env report quoted result text h in
        ((h' ≡ h) × (is_ok returned ≡ false))
        ⊎ ((entries : List Entry) × (class : ℕ) × (h' ≡ hk_define_class report entries class ∷ h)
            × (report ≤ 255)
            × Takeable c entries class)
  unfolding define_readable
  define_readable-calls report quoted (unreadable outcome) fits read = inl (refl, read)
  define_readable-calls report quoted (readable entries class) fits read =
      inr (entries, class, ground arith, fits, read)

NoLeadingSpace-append : (w rest : Bytes) → w ≢ [] → NoSpace w → NoLeadingSpace (w ++ rest)
NoLeadingSpace-append [] rest ne clear = absurd (ne refl)
NoLeadingSpace-append (b ∷ w) rest ne clear = clear.0

joined-NoLeadingSpace : (fields : List Fields) → NoLeadingSpace (joined (map print_entry fields))
joined-NoLeadingSpace [] = tt
joined-NoLeadingSpace (f ∷ fs) =
    NoLeadingSpace-append (print_entry f) _ (print_entry-ne-nil f) (print_entry-NoSpace f)

-- If the default class is in range and classes are below 256: a definition command tells the
-- housekeeping service nothing and returns an error; or it makes exactly one call, on the report
-- that it names, and the definition can be taken.
pub command_hk_define_calls :
    (c : CommandConfig) (env : CommandEnv) (args : ℕ → CommandArg) (node : ℕ)
    → (result : CommandResult) (h : List CommandCall)
    → c.hk_header.class_default ≤ c.hk_header.class_max
    → c.hk_header.class_max ≤ 255
    → let ((returned, after), h') = command_hk_define c env args node result h in
      ((h' ≡ h) × (is_ok returned ≡ false))
      ⊎ ((entries : List Entry) × (class : ℕ) × (h'
            ≡ hk_define_class (args 0).u32 entries class ∷ h)
          × ((args 0).u32 ≤ 255)
          × Takeable c entries class)
unfolding command_hk_define
command_hk_define_calls c env args node result h default narrow =
    let read = read_definition-Read c (args 1).text default narrow in
    elim (Bool-cases (ltb 255 (args 0).u32)) [
      | inl above ↦ rw above (inl (refl, refl))
      | inr fits ↦ rw fits (
          define_readable-calls c env result h (args 0).u32 (args 1).text
            (read_definition c (args 1).text) (ground arith) read)
    ]

read_definition-print :
    (c : CommandConfig) (class : ℕ) (fields : List Fields)
    → c.hk_header.class_max ≤ 255
    → c.hk_header.offset_max ≤ 65535
    → 65536 ≤ 2 ^ c.long_bits
    → class ≤ c.hk_header.class_max
    → 0 < length fields
    → length fields ≤ c.hk_entries
    → All (FieldsFit c.hk_header) fields
    → read_definition c
        (codes "class=" ++ (decimal class ++ b' ' ∷ joined (map print_entry fields)))
      ≡ readable (map (entry_of c.hk_header) fields) class
unfolding read_definition
read_definition-print c class fields narrow offsets wide fits any room all =
    let list = joined (map print_entry fields) in
    let head =
      parse_class-print c.hk_header c.long_bits class list narrow (omega arith) fits
        (joined-NoLeadingSpace fields) in
    let body =
      parse_entries-print c.hk_header c.long_bits c.hk_entries fields wide offsets any room all in
    rw head (rw body refl)

-- If classes are below 256, offsets below 65536 and unsigned long has at least 16 bits: a report
-- up to 255, defined by a printed class in range and by printed entries in range, at least one and
-- at most what the array holds, reaches the service as that class and those entries.
pub command_hk_define-print :
    (c : CommandConfig) (env : CommandEnv) (args : ℕ → CommandArg) (node : ℕ)
    → (result : CommandResult) (h : List CommandCall) (class : ℕ) (fields : List Fields)
    → (args 0).u32 ≤ 255
    → (args 1).text ≡ codes "class=" ++ (decimal class ++ b' ' ∷ joined (map print_entry fields))
    → c.hk_header.class_max ≤ 255
    → c.hk_header.offset_max ≤ 65535
    → 65536 ≤ 2 ^ c.long_bits
    → class ≤ c.hk_header.class_max
    → 0 < length fields
    → length fields ≤ c.hk_entries
    → All (FieldsFit c.hk_header) fields
    → (command_hk_define c env args node result h).1
      ≡ hk_define_class (args 0).u32 (map (entry_of c.hk_header) fields) class ∷ h
unfolding command_hk_define define_readable
command_hk_define-print c env args node result h class fields report quoted narrow offsets wide fits
      any room all =
    let read = read_definition-print c class fields narrow offsets wide fits any room all in
    let within : ltb 255 (args 0).u32 ≡ false = ground arith in
    rw within (rw quoted (rw read (ground arith)))
