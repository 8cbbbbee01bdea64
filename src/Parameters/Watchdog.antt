-- ===== src/Parameters/Watchdog.antt =====
-- app/src/parameters/watchdog_table.c: table 6, the hardware watchdog as it was last read.
use k_fsw.Base.{ℕ, Bool, true, Option, none, some, List, [], ◌∷◌, if◌then◌else◌}
use k_fsw.Text.{Bytes, codes}
use k_fsw.Parameters.Definition.{
  ParamType, u8, u32, number, no_flags, Value, Definition, DefinitionSet,
}

-- `struct kfsw_platform_watchdog_info`
pub record WatchdogInfo : Type 0 where
  pub timeout_ms : ℕ
  pub feed_interval_ms : ℕ
  pub feeds : ℕ
  pub since_feed_ms : ℕ
  pub state : ℕ
  pub device_bound : Bool
  pub keepalive_owned : Bool

-- The statics of the file, and what `kfsw_platform_watchdog_get_info` gives: none if it fails.
pub record WatchdogWorld : Type 0 where
  pub info : Option WatchdogInfo
  pub timeout_ms : ℕ
  pub feed_interval_ms : ℕ
  pub feeds : ℕ
  pub since_feed_ms : ℕ
  pub state : ℕ
  pub device_bound : ℕ
  pub keepalive_owned : ℕ

abbrev pub flag : Bool → ℕ
flag b = if b then 1 else 0

abbrev read : WatchdogInfo → WatchdogWorld → WatchdogWorld
read info w = record {
  info = w.info;
  timeout_ms = info.timeout_ms;
  feed_interval_ms = info.feed_interval_ms;
  feeds = info.feeds;
  since_feed_ms = info.since_feed_ms;
  state = info.state;
  device_bound = flag info.device_bound;
  keepalive_owned = flag info.keepalive_owned;
}

-- A failed read keeps the other values.
unfoldable pub sample_watchdog : WatchdogWorld → WatchdogWorld
sample_watchdog w = elim w.info [ none ↦ record w { device_bound = 0 } | some info ↦ read info w ]

-- `sample_timeout_ms` and the six others.
unfoldable pub sample_field : (WatchdogWorld → ℕ) → WatchdogWorld → Value × WatchdogWorld
unfolding sample_watchdog
sample_field field w = let w' = sample_watchdog w in (number (field w'), w')

abbrev row : ℕ → ParamType → Bytes → Option Bytes → (WatchdogWorld → ℕ) → Definition WatchdogWorld
row offset type name unit field = record {
  offset = offset;
  type = type;
  capacity = 0;
  flags = record no_flags { read_only = true };
  name = name;
  unit = unit;
  default = number 0;
  sample = some (sample_field field);
  validate = none;
  validate_text = none;
  changed = none;
}

abbrev pub watchdog_definitions : List (Definition WatchdogWorld)
watchdog_definitions =
    row 0x00 u32 (codes "timeout_ms") (some (codes "ms")) (λ w. w.timeout_ms)
    ∷ row 0x04 u32 (codes "feed_interval_ms") (some (codes "ms")) (λ w. w.feed_interval_ms)
    ∷ row 0x08 u32 (codes "feeds") none (λ w. w.feeds)
    ∷ row 0x0c u32 (codes "since_feed_ms") (some (codes "ms")) (λ w. w.since_feed_ms)
    ∷ row 0x10 u8 (codes "state") none (λ w. w.state)
    ∷ row 0x11 u8 (codes "device_bound") none (λ w. w.device_bound)
    ∷ row 0x12 u8 (codes "keepalive_owned") none (λ w. w.keepalive_owned)
    ∷ []

abbrev pub watchdog_set : DefinitionSet WatchdogWorld
watchdog_set = record { table = 6; name = codes "watchdog"; definitions = watchdog_definitions }
