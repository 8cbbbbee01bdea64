-- ===== src/Diagnostics/Ftp.antt =====
-- app/src/diagnostics/ftp_diagnostics.c
use k_fsw.Base.{
  ℕ, zero, suc, ◌+◌, ◌-◌, ◌*◌, ◌%◌, min, not, ◌||◌, Option, none, some, [], ◌∷◌, ◌++◌, length, take,
  ◌==◌, ltb, if◌then◌else◌, ℤ, pos, negsuc, ok, is_ok, ◌==ℤ◌, eio, eilseq, enametoolong,
}
use k_fsw.Text.{Bytes, codes, str_eq}
use k_fsw.Env.{Proc, pure, ◌>>=◌, recall}
use k_fsw.Shell.Service.{
  FileSlot, OpenMode, first_file, second_file, to_read, to_replace, file_open, file_read,
  file_write, file_sync, file_close,
}
use k_fsw.Shell.{ShellCall, ask}
use k_fsw.Diagnostics.{FileSystem, first_error, and_then}

-- The path without a slash in front.
abbrev relative : Bytes → Bytes
relative [] = []
relative (c ∷ cs) = if c == b'/' then cs else c ∷ cs

-- The bytes of the test pattern from an offset on.
unfoldable pub pattern_from : ℕ → ℕ → Bytes
pattern_from offset zero = []
pattern_from offset (suc n) = ((offset * 31 + 7) % 256) ∷ pattern_from (offset + 1) n

abbrev pub data_size : ℕ
data_size = 64

abbrev pub full_path_size : ℕ
full_path_size = 128

-- What a round makes of both reads: none goes on.
unfoldable pub compare_read : ℤ × Bytes → ℤ × Bytes → Option ℤ
compare_read (negsuc n, _) _ = some (negsuc n)
compare_read (pos _, _) (negsuc n, _) = some (negsuc n)
compare_read (pos first_size, first_data) (pos second_size, second_data) =
    if not (first_size == second_size)
      || not (str_eq (take first_size first_data) (take first_size second_data))
    then some eilseq
    else if first_size == 0
    then some ok
    else none

module _ (fs : FileSystem) where
  -- The full path, or an error. A path that is too long for its buffer is cut, and then not used.
  unfoldable pub resolve_ftp_local_path : Bytes → ℤ × Bytes
  resolve_ftp_local_path path =
      let full_path = fs.storage_root ++ codes "/" ++ relative path in
      if not (is_ok (fs.validate_path path))
      then (fs.validate_path path, [])
      else if ltb (length full_path) full_path_size
      then (ok, full_path)
      else (enametoolong, take (full_path_size - 1) full_path)

  -- `fs_close`, for a file whose `mp` is set.
  abbrev pub close_if_open : FileSlot → ℤ → Proc ShellCall ℤ
  close_if_open slot result = do
    is_open ← recall (λ h. fs.has_mount h slot)
    (if is_open
        then (do
          close_result ← ask fs.result (file_close slot)
          pure (first_error result close_result))
        else pure result)

  -- Behind the write of a chunk: a write that is not whole ends the loop.
  abbrev pub chunk_written : ℕ → ℕ → Proc ShellCall (ℤ × ℕ) → ℤ → Proc ShellCall (ℤ × ℕ)
  chunk_written chunk_size crc rest written =
      if not (written ==ℤ pos chunk_size) then pure (eio, crc) else rest

  -- The loop that writes, on fuel of the size: its result and the checksum.
  unfoldable pub write_chunks : ℕ → ℕ → ℕ → ℕ → Proc ShellCall (ℤ × ℕ)
  write_chunks zero size offset crc = pure (ok, crc)
  write_chunks (suc fuel) size offset crc =
      let chunk_size = min data_size (size - offset) in
      let bytes = pattern_from offset chunk_size in
      let next_crc = fs.crc32_update crc bytes in
      let rest = write_chunks fuel size (offset + chunk_size) next_crc in
      if not (ltb offset size)
      then pure (ok, crc)
      else ask fs.result (file_write first_file bytes) >>= chunk_written chunk_size crc rest

  abbrev pub write_opened : ℕ → ℤ → Proc ShellCall (ℤ × ℕ)
  write_opened size result = if is_ok result then write_chunks size size 0 0 else pure (result, 0)

  -- Behind the loop. The checksum is given out with a result of 0 only.
  abbrev pub finish_write : ℤ × ℕ → Proc ShellCall (ℤ × Option ℕ)
  finish_write (written, crc) = do
    synced ← and_then (ask fs.result (file_sync first_file)) written
    result ← close_if_open first_file synced
    pure (result, if is_ok result then some crc else none)

  abbrev pub open_resolved : FileSlot → OpenMode → ℤ × Bytes → Proc ShellCall ℤ
  open_resolved slot mode (result, full_path) =
      and_then (ask fs.result (file_open slot full_path mode)) result

  unfoldable pub ftp_diagnostic_generate : Bytes → ℕ → Proc ShellCall (ℤ × Option ℕ)
  ftp_diagnostic_generate path size =
      open_resolved first_file to_replace (resolve_ftp_local_path path)
      >>= write_opened size
      >>= finish_write

  -- `fs_read` into a buffer of 64 bytes: the size or the error, and the buffer.
  abbrev pub read_data : FileSlot → Proc ShellCall (ℤ × Bytes)
  read_data slot = do
    size ← ask fs.result (file_read slot data_size)
    bytes ← recall fs.left
    pure (size, bytes)

  abbrev pub go_on : Proc ShellCall (Option ℤ) → Option ℤ → Proc ShellCall (Option ℤ)
  go_on rest none = rest
  go_on rest (some result) = pure (some result)

  -- The loop that reads, on fuel; none is a loop that has not ended.
  unfoldable pub compare_files : ℕ → Proc ShellCall (Option ℤ)
  compare_files zero = pure none
  compare_files (suc fuel) =
      let rest = compare_files fuel in
      (do
        first ← read_data first_file
        second ← read_data second_file
        go_on rest (compare_read first second))

  abbrev pub compare_opened : ℕ → ℤ → Proc ShellCall (Option ℤ)
  compare_opened fuel result = if is_ok result then compare_files fuel else pure (some result)

  abbrev pub close_both : Option ℤ → Proc ShellCall (Option ℤ)
  close_both none = pure none
  close_both (some result) = do
    second_closed ← close_if_open second_file result
    first_closed ← close_if_open first_file second_closed
    pure (some first_closed)

  -- Both paths are resolved before a file is opened.
  abbrev pub open_both : ℤ × Bytes → ℤ × Bytes → Proc ShellCall ℤ
  open_both first (result, second_path) = do
    opened ← open_resolved first_file to_read (first_error first.0 result, first.1)
    and_then (ask fs.result (file_open second_file second_path to_read)) opened

  unfoldable pub ftp_diagnostic_compare : ℕ → Bytes → Bytes → Proc ShellCall (Option ℤ)
  ftp_diagnostic_compare fuel first_path second_path =
      open_both (resolve_ftp_local_path first_path) (resolve_ftp_local_path second_path)
      >>= compare_opened fuel
      >>= close_both
