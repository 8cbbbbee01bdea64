-- ===== src/Commands.antt =====
-- app/src/commands/command_definitions.c: the commands of the application. This file holds what
-- its handlers share.
pub mod Node
pub mod Event
pub mod Hk
pub mod Journal
pub mod Table
pub mod Safe
pub mod Unique
pub mod Define
pub mod Reboot
pub mod Tests
use k_fsw.Base.{ℕ, Bool, Option, List, ℤ}
use k_fsw.Text.{Bytes, fitted}
use k_fsw.Hk.Header.{HkHeader, Entry}
use k_fsw.Env.{Proc}
use k_fsw.Parameters.System.{SystemValues}

-- KFSW_COMMAND_OK and the other values of `enum kfsw_command_status` that the handlers write.
pub data CommandStatus : Type 0 where
  command_ok : CommandStatus
  command_denied : CommandStatus
  command_failed : CommandStatus
  command_busy : CommandStatus
  command_invalid_argument : CommandStatus
  command_unavailable : CommandStatus

-- The members of the union `value` of a `struct kfsw_command_arg` that the handlers read.
pub record CommandArg : Type 0 where
  pub u32 : ℕ
  pub text : Bytes

-- `struct kfsw_command_result`
pub record CommandResult : Type 0 where
  pub status : CommandStatus
  pub detail : Bytes

-- The options of the build, and the sizes and codes that the services' headers define: the size
-- of a detail, CONFIG_KFSW_HK_ENTRIES, KFSW_HK_APPLIED_UNSAVED and the width of `unsigned long`.
pub record CommandConfig : Type 0 where
  pub storage : Bool
  pub param : Bool
  pub lastwords : Bool
  pub golden : Bool
  pub reboot : Bool
  pub event : Bool
  pub hk : Bool
  pub journal : Bool
  pub detail_size : ℕ
  pub hk_entries : ℕ
  pub applied_unsaved : ℤ
  pub long_bits : ℕ
  pub hk_header : HkHeader

-- The calls that change something outside, or whose result decides what a handler does.
pub data CommandCall : Type 0 where
  log_warning : Bytes → CommandCall
  lastwords_write : ℕ → ℕ → CommandCall
  sys_reboot : CommandCall
  golden_install : CommandCall
  schedule_reboot : ℕ → CommandCall
  event_get : ℕ → CommandCall
  hk_define_class : ℕ → List Entry → ℕ → CommandCall
  hk_set_period : ℕ → ℕ → CommandCall
  hk_clear : ℕ → CommandCall
  journal_get : ℕ → CommandCall

-- The fields of `struct kfsw_event_stats` and `struct kfsw_event_record` that are printed; the
-- payload is the first `payload_size` bytes.
pub record EventStats : Type 0 where
  pub held : ℕ
  pub capacity : ℕ
  pub recorded : ℕ
  pub overwritten : ℕ
  pub rejected : ℕ

pub record EventRecord : Type 0 where
  pub sequence : ℕ
  pub monotonic_us : ℕ
  pub source : ℕ
  pub id : ℕ
  pub severity : ℕ
  pub payload : Bytes

-- Of `struct kfsw_journal_stats` and `struct kfsw_journal_record`.
pub record JournalStats : Type 0 where
  pub held : ℕ
  pub queued : ℕ
  pub dropped : ℕ
  pub errors : ℕ
  pub corrupt : ℕ
  pub ready : ℕ
  pub last_error : ℤ

pub record JournalRecord : Type 0 where
  pub sequence : ℕ
  pub boot : ℕ
  pub utc_seconds : ℤ
  pub utc_valid : ℕ
  pub event : EventRecord

-- What the services answer, given what was called before.
pub record CommandEnv : Type 0 where
  pub result : List CommandCall → CommandCall → ℤ
  pub uptime_ms : List CommandCall → ℕ
  pub boot_count : List CommandCall → ℕ
  pub storage_ready : List CommandCall → Bool
  pub storage_free_bytes : List CommandCall → ℕ
  pub event_stats : List CommandCall → EventStats
  pub event_record : List CommandCall → EventRecord
  pub event_source_name : ℕ → Bytes
  pub hk_last_save_error : List CommandCall → ℤ
  pub journal_stats : List CommandCall → JournalStats
  pub journal_record : List CommandCall → JournalRecord

-- A handler: on its arguments, the node that asks and the result as it was, it returns an error
-- number and leaves the result.
abbrev pub Handler : Type 0
Handler = (ℕ → CommandArg) → ℕ → CommandResult → Proc CommandCall (ℤ × CommandResult)

-- A status and a detail as `snprintf` leaves it; a detail alone; a status alone.
abbrev pub answered : CommandConfig → CommandStatus → Bytes → CommandResult
answered c status text = record { status = status; detail = fitted c.detail_size text }

abbrev pub detailed : CommandConfig → CommandResult → Bytes → CommandResult
detailed c result text = record result { detail = fitted c.detail_size text }

abbrev pub marked : CommandResult → CommandStatus → CommandResult
marked result status = record result { status = status }
