-- ===== src/Diagnostics.antt =====
-- app/src/diagnostics: the self tests of the file system. The files themselves are the system's.
pub mod Storage
pub mod Ftp
pub mod FileState
pub mod Writes
pub mod Files
pub mod RoundTrip
pub mod Pattern
pub mod Compare
pub mod Disk
mod Tests
pub mod Closed
use k_fsw.Base.{ℕ, Bool, List, if◌then◌else◌, ℤ, is_ok}
use k_fsw.Text.{Bytes}
use k_fsw.Env.{Proc, pure}
use k_fsw.Shell.Service.{ServiceCall, FileSlot}
use k_fsw.Shell.{ShellCall}

-- What the file system answers, the bytes that a read has left in its buffer, and whether the
-- `mp` of a file is set; `kfsw_ftp_validate_path` for a path that may not be empty,
-- KFSW_FTP_STORAGE_ROOT and `crc32_ieee_update`.
pub record FileSystem : Type 0 where
  pub result : List ShellCall → ServiceCall → ℤ
  pub left : List ShellCall → Bytes
  pub has_mount : List ShellCall → FileSlot → Bool
  pub validate_path : Bytes → ℤ
  pub storage_root : Bytes
  pub crc32_update : ℕ → Bytes → ℕ

-- The first error of two results.
abbrev pub first_error : ℤ → ℤ → ℤ
first_error result next = if is_ok result then next else result

-- `if (result == 0) { result = …; }`
abbrev pub and_then : Proc ShellCall ℤ → ℤ → Proc ShellCall ℤ
and_then next result = if is_ok result then next else pure result
