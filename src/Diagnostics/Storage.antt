-- ===== src/Diagnostics/Storage.antt =====
-- app/src/diagnostics/storage_diagnostics.c
use k_fsw.Base.{
  ℕ, ◌+◌, not, length, take, ◌==◌, ltb, if◌then◌else◌, ℤ, pos, negsuc, ok, is_ok, is_negative,
  ◌==ℤ◌, eio, emsgsize,
}
use k_fsw.Text.{Bytes, str_eq}
use k_fsw.Env.{Proc, pure, ◌>>=◌, recall}
use k_fsw.Shell.Service.{
  first_file, to_read, to_replace, file_open, file_read, file_write, file_sync, file_close,
}
use k_fsw.Shell.{ShellCall, ask}
use k_fsw.Diagnostics.{FileSystem, first_error}

-- KFSW_STORAGE_DIAGNOSTIC_VALUE_MAX_SIZE
abbrev pub value_max_size : ℕ
value_max_size = 48

-- What the bytes read are, against those expected.
unfoldable pub check_value : Bytes → ℤ → Bytes → ℤ
check_value expected (negsuc n) value = negsuc n
check_value expected (pos bytes_read) value =
    if not (bytes_read == length expected)
    then eio
    else if str_eq (take (length expected) value) expected
    then ok
    else eio

module _ (fs : FileSystem) where
  -- The file is closed, and the first error is the result.
  abbrev close_file : ℤ → Proc ShellCall ℤ
  close_file result = do
    close_result ← ask fs.result (file_close first_file)
    pure (first_error result close_result)

  abbrev synced : Bytes → ℤ → Proc ShellCall ℤ
  synced value written =
      if written ==ℤ pos (length value)
      then ask fs.result (file_sync first_file)
      else pure (if is_negative written then written else eio)

  abbrev write_opened : Bytes → ℤ → Proc ShellCall ℤ
  write_opened value result =
      if not (is_ok result)
      then pure result
      else ask fs.result (file_write first_file value) >>= synced value >>= close_file

  unfoldable pub storage_diagnostic_write : Bytes → Bytes → Proc ShellCall ℤ
  storage_diagnostic_write path value =
      ask fs.result (file_open first_file path to_replace) >>= write_opened value

  abbrev check_read : Bytes → ℤ → Proc ShellCall ℤ
  check_read expected bytes_read = do
    value ← recall fs.left
    close_file (check_value expected bytes_read value)

  abbrev read_opened : Bytes → ℤ → Proc ShellCall ℤ
  read_opened expected result =
      if not (is_ok result)
      then pure result
      else ask fs.result (file_read first_file (value_max_size + 1)) >>= check_read expected

  unfoldable pub storage_diagnostic_read : Bytes → Bytes → Proc ShellCall ℤ
  storage_diagnostic_read path expected =
      if ltb value_max_size (length expected)
      then pure emsgsize
      else ask fs.result (file_open first_file path to_read) >>= read_opened expected
