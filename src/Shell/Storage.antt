-- ===== src/Shell/Storage.antt =====
-- app/src/shell/shell_storage.c: the `storage` commands. The test writes, reads and removes a file
-- by the diagnostics of Diagnostics/Storage.
pub mod Passes
mod Tests
use k_fsw.Base.{
  ℕ, Bool, not, ◌||◌, Option, none, some, List, [], ◌∷◌, ◌++◌, length, ltb, ◌==◌, if◌then◌else◌, ℤ,
  ok, is_ok, einval, eacces, emsgsize,
}
use k_fsw.Text.{Bytes, codes, decimal, signed, str_eq}
use k_fsw.Env.{Proc, pure, ◌>>=◌, ◌>>◌, tell, recall}
use k_fsw.Shell.Service.{storage_get_info, storage_get_tmp_info, file_unlink}
use k_fsw.Shell.{ShellCall, shell_print, shell_error, ask}
use k_fsw.Diagnostics.{FileSystem, and_then}
use k_fsw.Diagnostics.Storage.{value_max_size, storage_diagnostic_write, storage_diagnostic_read}

-- `struct kfsw_storage_info`
pub record StorageInfo : Type 0 where
  pub filesystem : Bytes
  pub backend : Bytes
  pub mount_point : Bytes
  pub ready : Bool
  pub total_bytes : ℕ
  pub free_bytes : ℕ

-- KFSW_STORAGE_MOUNT_POINT, CONFIG_KFSW_STORAGE_TMP, the file system, and what the storage service
-- gives.
pub record StorageShell : Type 0 where
  pub fs : FileSystem
  pub mount_point : Bytes
  pub has_tmp : Bool
  pub is_ready : List ShellCall → Bool
  pub info : List ShellCall → StorageInfo

abbrev pub refuse : Bytes → ℤ → Proc ShellCall ℤ
refuse text result = do tell (shell_error text); pure result

abbrev row : Bytes → Bytes → Proc ShellCall (Unit {0})
row name text = tell (shell_print (name ++ codes ": " ++ text))

abbrev yes_no : Bool → Bytes
yes_no flag = if flag then codes "yes" else codes "no"

module _ (env : StorageShell) where
  abbrev print_tmp : StorageInfo → Proc ShellCall ℤ
  print_tmp i = do
    row (codes "tmp_mount_point") i.mount_point
    row (codes "tmp_ready") (yes_no i.ready)
    row (codes "tmp_total_bytes") (decimal i.total_bytes)
    row (codes "tmp_free_bytes") (decimal i.free_bytes)
    pure ok

  abbrev tmp_read : ℤ → Proc ShellCall ℤ
  tmp_read result = if is_ok result then recall env.info >>= print_tmp else pure ok

  abbrev print_info : StorageInfo → Proc ShellCall ℤ
  print_info i = do
    tell (shell_print (codes "K-FSW storage"))
    row (codes "filesystem") i.filesystem
    row (codes "backend") i.backend
    row (codes "mount_point") i.mount_point
    row (codes "ready") (yes_no i.ready)
    row (codes "total_bytes") (decimal i.total_bytes)
    row (codes "free_bytes") (decimal i.free_bytes)
    (if env.has_tmp then ask env.fs.result storage_get_tmp_info >>= tmp_read else pure ok)

  abbrev info_read : ℤ → Proc ShellCall ℤ
  info_read result =
      if not (is_ok result)
      then refuse (codes "Storage info: FAIL (" ++ signed result ++ codes ")") result
      else recall env.info >>= print_info

  unfoldable cmd_storage_info : Proc ShellCall ℤ
  cmd_storage_info = ask env.fs.result storage_get_info >>= info_read

  -- KFSW_STORAGE_TEST_PATH and KFSW_STORAGE_PERSISTENCE_PATH
  abbrev pub test_path : Bytes
  test_path = env.mount_point ++ codes "/.storage-test"

  abbrev pub persistence_path : Bytes
  persistence_path = env.mount_point ++ codes "/.persistence-test"

  abbrev pub initial_value : Bytes
  initial_value = codes "kfsw-storage-create"

  abbrev pub overwritten_value : Bytes
  overwritten_value = codes "kfsw-storage-overwrite"

  -- Behind the steps of the basic test. A failed test removes its file too.
  abbrev pub report_test : ℤ → Proc ShellCall ℤ
  report_test result =
      if not (is_ok result)
      then (do
        _ ← ask env.fs.result (file_unlink test_path)
        refuse (codes "Storage test: FAIL (" ++ signed result ++ codes ")") result)
      else (do tell (shell_print (codes "Storage test: PASS")); pure ok)

  unfoldable storage_basic_test : Proc ShellCall ℤ
  storage_basic_test =
      storage_diagnostic_write env.fs test_path initial_value
      >>= and_then (storage_diagnostic_write env.fs test_path overwritten_value)
      >>= and_then (storage_diagnostic_read env.fs test_path overwritten_value)
      >>= and_then (ask env.fs.result (file_unlink test_path))
      >>= report_test

  abbrev report_persistence : Bytes → ℤ → Proc ShellCall ℤ
  report_persistence operation result =
      if is_ok result
      then (do
        tell (shell_print (codes "Storage persistence " ++ operation ++ codes ": PASS"))
        pure ok)
      else refuse
          (codes "Storage persistence "
            ++ operation
            ++ codes ": FAIL ("
            ++ signed result
            ++ codes ")")
          result

  abbrev usage : Proc ShellCall ℤ
  usage = refuse (codes "Usage: storage test [write|read <value>]") einval

  unfoldable storage_persistence_test : Bytes → Bytes → Proc ShellCall ℤ
  storage_persistence_test operation value =
      if length value == 0 || ltb value_max_size (length value)
      then refuse
          (codes "Storage persistence value must contain 1.."
            ++ decimal value_max_size
            ++ codes " characters")
          emsgsize
      else if str_eq operation (codes "write")
      then storage_diagnostic_write env.fs persistence_path value >>= report_persistence operation
      else if str_eq operation (codes "read")
      then storage_diagnostic_read env.fs persistence_path value
        >>= and_then (ask env.fs.result (file_unlink persistence_path))
        >>= report_persistence operation
      else usage

  abbrev run_test : List Bytes → Proc ShellCall ℤ
  run_test [] = storage_basic_test
  run_test (operation ∷ value ∷ []) = storage_persistence_test operation value
  run_test _ = usage

  unfoldable cmd_storage_test : List Bytes → Proc ShellCall ℤ
  cmd_storage_test words = do
    ready ← recall env.is_ready
    (if not ready then refuse (codes "Storage test: FAIL (not ready)") eacces else run_test words)
