-- ===== src/Diagnostics/Writes.antt =====
-- A diagnostic that opens one file closes it.
use k_fsw.Base.{
  ℕ, zero, suc, ◌+◌, ◌-◌, min, ◌≡◌, refl, inl, inr, true, false, List, ◌∷◌, ltb, ℤ, pos, is_ok,
  ◌==ℤ◌, Bool-cases, length,
}
use k_fsw.Text.{Bytes}
use k_fsw.Env.{◌>>=◌}
use k_fsw.Shell.Service.{
  FileSlot, OpenMode, first_file, second_file, file_open, file_write, file_sync, to_read,
  to_replace,
}
use k_fsw.Shell.{ShellCall, service}
use k_fsw.Diagnostics.{FileSystem}
use k_fsw.Diagnostics.Storage.{value_max_size, storage_diagnostic_write, storage_diagnostic_read}
use k_fsw.Diagnostics.Ftp.{
  data_size, pattern_from, open_resolved, write_chunks, write_opened, finish_write,
}
use k_fsw.Diagnostics.FileState.{
  idle, opened, is_released, of_both, file_state, Released, HasMounts, idle_Released,
}

module _ (fs : FileSystem) where
  write_chunks-opened :
      (fuel size offset crc : ℕ) (h : List ShellCall)
      → file_state fs first_file h ≡ opened
      → (file_state fs first_file (write_chunks fs fuel size offset crc h).1 ≡ opened)
        × (file_state fs second_file (write_chunks fs fuel size offset crc h).1
            ≡ file_state fs second_file h)
  unfolding write_chunks
  write_chunks-opened zero size offset crc h open_first = (open_first, refl)
  write_chunks-opened (suc fuel) size offset crc h open_first =
      let n = min data_size (size - offset) in
      let bytes = pattern_from offset n in
      let c = file_write first_file bytes in
      let still : file_state fs first_file (service c ∷ h) ≡ opened = rw open_first in
      elim (Bool-cases (ltb offset size)) [
        | inr done ↦ rw done (open_first, refl)
        | inl more ↦ elim (Bool-cases (fs.result h c ==ℤ pos n)) [
          | inr short ↦ rw (more, short) (still, refl)
          | inl whole ↦
              rw (more, whole)
                (write_chunks-opened fuel size (offset + n) (fs.crc32_update crc bytes)
                  (service c ∷ h) still)
        ]
      ]

  module _ (mounts : HasMounts fs) where
    finish_write-opened :
        (w : ℤ × ℕ) (h : List ShellCall)
        → file_state fs first_file h ≡ opened
        → (is_released (file_state fs first_file (finish_write fs w h).1) ≡ true)
          × (file_state fs second_file (finish_write fs w h).1 ≡ file_state fs second_file h)
    finish_write-opened (written, crc) h open_first =
        let synced = service (file_sync first_file) ∷ h in
        let still : file_state fs first_file synced ≡ opened = rw open_first in
        elim (Bool-cases (is_ok written)) [
          | inl good ↦ rw (good, mounts.of_opened first_file synced still) (rw open_first, refl)
          | inr bad ↦ rw (bad, mounts.of_opened first_file h open_first) (rw open_first, refl)
        ]

    pub resolved_generate-Released :
        (size : ℕ) (r : ℤ × Bytes) (h : List ShellCall)
        → ((s : FileSlot) → file_state fs s h ≡ idle)
        → Released fs
            ((open_resolved fs first_file to_replace r >>= write_opened fs size >>= finish_write fs)
              h).1
    resolved_generate-Released size (result, path) h fresh =
        let c = file_open first_file path to_replace in
        let h' = service c ∷ h in
        elim (Bool-cases (is_ok result)) [
          | inr bad ↦
              rw (bad, bad, bad, mounts.of_idle first_file h (fresh first_file))
                (idle_Released fs h fresh)
          | inl good ↦ elim (Bool-cases (is_ok (fs.result h c))) [
            | inr failed ↦
                let unopened : (s : FileSlot) → file_state fs s h' ≡ idle =
                  of_both (λ s. file_state fs s h' ≡ idle) (rw (fresh first_file, failed))
                    (fresh second_file) in
                rw (good, failed, failed, mounts.of_idle first_file h' (unopened first_file))
                  (idle_Released fs h' unopened)
            | inl done ↦
                let w = write_chunks fs size size 0 0 h' in
                let writing = write_chunks-opened size size 0 0 h' (rw (fresh first_file, done)) in
                let finished = finish_write-opened w.0 w.1 writing.0 in
                of_both
                  (λ s.
                    is_released (
                      file_state fs s
                        ((open_resolved fs first_file to_replace (result, path)
                            >>= write_opened fs size
                            >>= finish_write fs)
                          h).1)
                    ≡ true)
                  (rw (good, done) finished.0)
                  (rw (good, done, finished.1, writing.1, fresh second_file))
          ]
        ]

    -- A file that is opened for one thing and closed.
    failed_open-Released :
        (path : Bytes) (mode : OpenMode) (h : List ShellCall)
        → ((s : FileSlot) → file_state fs s h ≡ idle)
        → is_ok (fs.result h (file_open first_file path mode)) ≡ false
        → Released fs (service (file_open first_file path mode) ∷ h)
    failed_open-Released path mode h fresh failed =
        of_both _ (rw (fresh first_file, failed)) (rw (fresh second_file))

    pub write-Released :
        (path value : Bytes) (h : List ShellCall)
        → ((s : FileSlot) → file_state fs s h ≡ idle)
        → Released fs (storage_diagnostic_write fs path value h).1
    unfolding storage_diagnostic_write
    write-Released path value h fresh =
        let c = file_open first_file path to_replace in
        let h' = service c ∷ h in
        let d = file_write first_file value in
        elim (Bool-cases (is_ok (fs.result h c))) [
          | inr failed ↦ rw failed (failed_open-Released path to_replace h fresh failed)
          | inl done ↦ elim (Bool-cases (fs.result h' d ==ℤ pos (length value))) [
            | inl whole ↦
                rw (done, whole) (of_both _ (rw (fresh first_file, done)) (rw (fresh second_file)))
            | inr short ↦
                rw (done, short) (of_both _ (rw (fresh first_file, done)) (rw (fresh second_file)))
          ]
        ]

    pub read-Released :
        (path value : Bytes) (h : List ShellCall)
        → ((s : FileSlot) → file_state fs s h ≡ idle)
        → Released fs (storage_diagnostic_read fs path value h).1
    unfolding storage_diagnostic_read
    read-Released path value h fresh =
        let c = file_open first_file path to_read in
        elim (Bool-cases (ltb value_max_size (length value))) [
          | inl long ↦ rw long (idle_Released fs h fresh)
          | inr fits ↦ elim (Bool-cases (is_ok (fs.result h c))) [
            | inr failed ↦ rw (fits, failed) (failed_open-Released path to_read h fresh failed)
            | inl done ↦
                rw (fits, done) (of_both _ (rw (fresh first_file, done)) (rw (fresh second_file)))
          ]
        ]
