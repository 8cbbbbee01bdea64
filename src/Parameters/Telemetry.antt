-- ===== src/Parameters/Telemetry.antt =====
-- app/src/parameters/telemetry_table.c: the uptime, the free packet buffers and the file system.
use k_fsw.Base.{ℕ, ◌/◌, ◌%◌, Bool, true, Option, none, some, List, [], ◌∷◌, if◌then◌else◌}
use k_fsw.Text.{Bytes, codes}
use k_fsw.Parameters.Definition.{
  ParamType, u8, u16, u32, number, no_flags, Value, Definition, DefinitionSet,
}
use k_fsw.Parameters.Storage.{StorageInfo, kilobytes}

-- CONFIG_KFSW_CSP and CONFIG_KFSW_STORAGE, the number of the table, what the clock, the router and
-- `kfsw_storage_get_info` give, none for a failure, and the statics of the file system.
pub record TelemetryWorld : Type 0 where
  pub csp : Bool
  pub storage : Bool
  pub monotonic_ms : ℕ
  pub free_buffers : ℕ
  pub info : Option StorageInfo
  pub fs_free_kb : ℕ
  pub fs_total_kb : ℕ
  pub fs_mounted : ℕ

unfoldable pub sample_uptime_s : TelemetryWorld → Value × TelemetryWorld
sample_uptime_s w = (number (w.monotonic_ms / 1000 % 4294967296), w)

unfoldable pub sample_csp_buf_free : TelemetryWorld → Value × TelemetryWorld
sample_csp_buf_free w = (number (if w.csp then w.free_buffers % 65536 else 0), w)

unfoldable pub sample_storage : TelemetryWorld → TelemetryWorld
sample_storage w = elim w.info [
  | none ↦ record w { fs_free_kb = 0; fs_total_kb = 0; fs_mounted = 0 }
  | some info ↦ record w {
    fs_free_kb = kilobytes info.free_bytes;
    fs_total_kb = kilobytes info.total_bytes;
    fs_mounted = if info.ready then 1 else 0;
  }
]

-- `sample_fs_free_kb` and the two others.
unfoldable pub sample_fs : (TelemetryWorld → ℕ) → TelemetryWorld → Value × TelemetryWorld
unfolding sample_storage
sample_fs field w = let w' = if w.storage then sample_storage w else w in (number (field w'), w')

abbrev row :
    ℕ
    → ParamType
    → Bytes
    → Option Bytes
    → (TelemetryWorld → Value × TelemetryWorld)
    → Definition TelemetryWorld
row offset type name unit sample = record {
  offset = offset;
  type = type;
  capacity = 0;
  flags = record no_flags { read_only = true };
  name = name;
  unit = unit;
  default = number 0;
  sample = some sample;
  validate = none;
  validate_text = none;
  changed = none;
}

abbrev pub telemetry_definitions : List (Definition TelemetryWorld)
telemetry_definitions =
    row 0x00 u32 (codes "uptime_s") (some (codes "s")) sample_uptime_s
    ∷ row 0x04 u32 (codes "fs_total_kb") (some (codes "kB")) (sample_fs (λ w. w.fs_total_kb))
    ∷ row 0x08 u32 (codes "fs_free_kb") (some (codes "kB")) (sample_fs (λ w. w.fs_free_kb))
    ∷ row 0x0c u16 (codes "csp_buf_free") none sample_csp_buf_free
    ∷ row 0x0e u8 (codes "fs_mounted") none (sample_fs (λ w. w.fs_mounted))
    ∷ []

-- KFSW_PARAM_TABLE_TELEMETRY and its name are the parameter service's.
abbrev pub telemetry_set : ℕ → Bytes → DefinitionSet TelemetryWorld
telemetry_set table name = record {
  table = table;
  name = name;
  definitions = telemetry_definitions;
}
