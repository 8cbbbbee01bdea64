-- ===== src/Parameters/Storage.antt =====
-- app/src/parameters/storage_table.c: table 5, the size of the file system and how full it is.
pub mod Used
use k_fsw.Base.{
  ℕ, ◌-◌, ◌*◌, ◌/◌, ◌%◌, ◌^◌, Bool, true, ◌||◌, Option, none, some, List, [], ◌∷◌, ltb, ◌==◌,
  if◌then◌else◌,
}
use k_fsw.Text.{Bytes, codes}
use k_fsw.Parameters.Definition.{
  ParamType, u8, u32, number, Flags, no_flags, Value, Definition, DefinitionSet,
}

-- `struct kfsw_storage_info`; the sizes are 64-bit integers.
pub record StorageInfo : Type 0 where
  pub ready : Bool
  pub total_bytes : ℕ
  pub free_bytes : ℕ

-- The statics of the file, and what `kfsw_storage_get_info` gives: none if it fails.
pub record StorageWorld : Type 0 where
  pub info : Option StorageInfo
  pub total_kb : ℕ
  pub free_kb : ℕ
  pub used_pct : ℕ
  pub mounted : ℕ

abbrev pub kilobytes : ℕ → ℕ
kilobytes bytes = bytes / 1024 % 4294967296

-- `(uint8_t)((used * KFSW_PERCENT) / info.total_bytes)`, with the product in 64 bits.
unfoldable pub used_percent : StorageInfo → ℕ
used_percent info =
    if info.total_bytes == 0 || ltb info.total_bytes info.free_bytes
    then 0
    else (info.total_bytes - info.free_bytes) * 100 % 18446744073709551616 / info.total_bytes % 256

abbrev read : StorageInfo → StorageWorld → StorageWorld
read info w = record {
  info = w.info;
  total_kb = kilobytes info.total_bytes;
  free_kb = kilobytes info.free_bytes;
  used_pct = used_percent info;
  mounted = if info.ready then 1 else 0;
}

unfoldable pub sample_storage : StorageWorld → StorageWorld
sample_storage w = elim w.info [
  | none ↦ record { info = w.info; total_kb = 0; free_kb = 0; used_pct = 0; mounted = 0 }
  | some info ↦ read info w
]

-- `sample_total_kb` and the three others.
unfoldable pub sample_field : (StorageWorld → ℕ) → StorageWorld → Value × StorageWorld
unfolding sample_storage
sample_field field w = let w' = sample_storage w in (number (field w'), w')

abbrev row : ℕ → ParamType → Bytes → Option Bytes → (StorageWorld → ℕ) → Definition StorageWorld
row offset type name unit field = record {
  offset = offset;
  type = type;
  capacity = 0;
  flags = record no_flags { read_only = true };
  name = name;
  unit = unit;
  default = number 0;
  sample = some (sample_field field);
  validate = none;
  validate_text = none;
  changed = none;
}

abbrev pub storage_definitions : List (Definition StorageWorld)
storage_definitions =
    row 0x00 u32 (codes "total_kb") (some (codes "kB")) (λ w. w.total_kb)
    ∷ row 0x04 u32 (codes "free_kb") (some (codes "kB")) (λ w. w.free_kb)
    ∷ row 0x08 u8 (codes "used_pct") (some (codes "%")) (λ w. w.used_pct)
    ∷ row 0x09 u8 (codes "mounted") none (λ w. w.mounted)
    ∷ []

abbrev pub storage_set : DefinitionSet StorageWorld
storage_set = record { table = 5; name = codes "storage"; definitions = storage_definitions }
