-- ===== src/Diagnostics/Closed.antt =====
-- The files that the diagnostics open: they are used while they are open, and closed in the end.
use k_fsw.Base.{
  ℕ, zero, suc, ◌≡◌, inl, inr, true, false, Option, none, some, List, ◌∷◌, ℤ, is_ok, Bool-cases,
  Option-cases,
}
use k_fsw.Text.{Bytes}
use k_fsw.Env.{Proc, ◌>>=◌}
use k_fsw.Shell.Service.{
  FileSlot, first_file, second_file, file_open, file_read, file_close, to_read,
}
use k_fsw.Shell.{ShellCall, service}
use k_fsw.Diagnostics.{FileSystem, first_error}
use k_fsw.Diagnostics.Storage.{storage_diagnostic_write, storage_diagnostic_read}
use k_fsw.Diagnostics.Ftp.{
  data_size, read_data, ftp_diagnostic_generate, resolve_ftp_local_path, compare_read,
  compare_files, compare_opened, close_both, open_both, ftp_diagnostic_compare,
}
use k_fsw.Diagnostics.FileState.{
  idle, opened, of_both, file_state, Released, Done, HasMounts, idle_Released,
}
use k_fsw.Diagnostics.Writes.{write-Released, read-Released, resolved_generate-Released}

module _ (fs : FileSystem) (mounts : HasMounts fs) where
  compare_files-opened :
      (fuel : ℕ) (h : List ShellCall) (s : FileSlot)
      → ((s : FileSlot) → file_state fs s h ≡ opened)
      → file_state fs s (compare_files fs fuel h).1 ≡ opened
  unfolding compare_files
  compare_files-opened zero h s open_both = open_both s
  compare_files-opened (suc fuel) h s open_both =
      let h' =
        service (file_read second_file data_size) ∷ service (file_read first_file data_size) ∷ h in
      let still : (s : FileSlot) → file_state fs s h' ≡ opened =
        of_both (λ s. file_state fs s h' ≡ opened) (rw (open_both first_file))
          (rw (open_both second_file)) in
      let first = read_data fs first_file h in
      let second = read_data fs second_file first.1 in
      elim (Option-cases (compare_read first.0 second.0)) [
        | inl more ↦ rw more (compare_files-opened fuel h' s still)
        | inr (result, done) ↦ rw done (still s)
      ]

  close_both-Done :
      (result : Option ℤ) (h : List ShellCall)
      → ((s : FileSlot) → file_state fs s h ≡ opened)
      → Done fs (close_both fs result h)
  close_both-Done none h open_both = open_both
  close_both-Done (some result) h open_both =
      let h' = service (file_close second_file) ∷ h in
      rw
        (
          mounts.of_opened second_file h (open_both second_file),
          mounts.of_opened first_file h' (rw (open_both first_file)),
        )
        (of_both _ (rw (open_both first_file)) (rw (open_both second_file)))

  close_both-idle :
      (result : ℤ) (h : List ShellCall)
      → ((s : FileSlot) → file_state fs s h ≡ idle)
      → Done fs (close_both fs (some result) h)
  close_both-idle result h fresh =
      rw
        (
          mounts.of_idle second_file h (fresh second_file),
          mounts.of_idle first_file h (fresh first_file),
        )
        (idle_Released fs h fresh)

  -- With the second file not opened.
  close_both-first :
      (result : ℤ) (h : List ShellCall)
      → file_state fs first_file h ≡ opened
      → file_state fs second_file h ≡ idle
      → Done fs (close_both fs (some result) h)
  close_both-first result h open_first idle_second =
      rw (mounts.of_idle second_file h idle_second, mounts.of_opened first_file h open_first)
        (of_both _ (rw open_first) (rw idle_second))

  -- Behind the opens, whose result and calls are known.
  compare_behind :
      (m : Proc ShellCall ℤ) (fuel : ℕ) {h h' : List ShellCall} {r : ℤ}
      → m h ≡ (r, h')
      → Done fs ((compare_opened fs fuel r >>= close_both fs) h')
      → Done fs ((m >>= compare_opened fs fuel >>= close_both fs) h)
  compare_behind m fuel e d = rw e d

  compare_stopped :
      (fuel : ℕ) (r : ℤ) (h : List ShellCall)
      → is_ok r ≡ false
      → Done fs (close_both fs (some r) h)
      → Done fs ((compare_opened fs fuel r >>= close_both fs) h)
  compare_stopped fuel r h failed d = rw failed d

  compare_running :
      (fuel : ℕ) (r : ℤ) (h : List ShellCall)
      → is_ok r ≡ true
      → ((s : FileSlot) → file_state fs s h ≡ opened)
      → Done fs ((compare_opened fs fuel r >>= close_both fs) h)
  compare_running fuel r h done open_both =
      let o = compare_files fs fuel h in
      rw done (close_both-Done o.0 o.1 (λ s. compare_files-opened fuel h s open_both))

  resolved_compare-Done :
      (fuel : ℕ) (first second : ℤ × Bytes) (h : List ShellCall)
      → ((s : FileSlot) → file_state fs s h ≡ idle)
      → Done fs ((open_both fs first second >>= compare_opened fs fuel >>= close_both fs) h)
  resolved_compare-Done fuel (a, first_path) (b, second_path) h fresh =
      let m = open_both fs (a, first_path) (b, second_path) in
      let c = file_open first_file first_path to_read in
      let d = file_open second_file second_path to_read in
      let h' = service c ∷ h in
      let h'' = service d ∷ h' in
      let e = first_error a b in
      let first_opened = fs.result h c in
      let second_opened = fs.result h' d in
      elim (Bool-cases (is_ok (first_error a b))) [
        | inr bad ↦
            compare_behind m fuel {h = h} {h' = h} {r = e} (rw (bad, bad))
              (compare_stopped fuel e h bad (close_both-idle e h fresh))
        | inl good ↦ elim (Bool-cases (is_ok (fs.result h c))) [
          | inr failed ↦
              compare_behind m fuel {h = h} {h' = h'} {r = first_opened} (rw (good, failed)) (
                compare_stopped fuel first_opened h' failed (
                  close_both-idle first_opened h' (
                    of_both (λ s. file_state fs s h' ≡ idle) (rw (fresh first_file, failed))
                      (fresh second_file))))
          | inl done ↦ elim (Bool-cases (is_ok (fs.result h' d))) [
            | inr failed ↦
                compare_behind m fuel {h = h} {h' = h''} {r = second_opened} (rw (good, done)) (
                  compare_stopped fuel second_opened h'' failed (
                    close_both-first second_opened h'' (rw (fresh first_file, done))
                      (rw (fresh second_file, failed))))
            | inl both ↦
                compare_behind m fuel {h = h} {h' = h''} {r = second_opened} (rw (good, done)) (
                  compare_running fuel second_opened h'' both (
                    of_both (λ s. file_state fs s h'' ≡ opened) (rw (fresh first_file, done))
                      (rw (fresh second_file, both))))
          ]
        ]
      ]

  -- Whatever the file system answers, if a file has a mount while it is open and none before it is
  -- opened: both diagnostics of the storage and the generator use a file only while it is open and
  -- leave none open, and so does a comparison that has ended; in one that has not ended both files
  -- are open.
  pub diagnostics-Released :
      (fuel : ℕ) (path first_path second_path value : Bytes) (size : ℕ) (h : List ShellCall)
      → ((s : FileSlot) → file_state fs s h ≡ idle)
      → Released fs (storage_diagnostic_write fs path value h).1
        × Released fs (storage_diagnostic_read fs path value h).1
        × Released fs (ftp_diagnostic_generate fs path size h).1
        × Done fs (ftp_diagnostic_compare fs fuel first_path second_path h)
  unfolding ftp_diagnostic_generate ftp_diagnostic_compare
  diagnostics-Released fuel path first_path second_path value size h fresh = (
    write-Released fs mounts path value h fresh,
    read-Released fs mounts path value h fresh,
    resolved_generate-Released fs mounts size (resolve_ftp_local_path fs path) h fresh,
    resolved_compare-Done fuel (resolve_ftp_local_path fs first_path)
        (resolve_ftp_local_path fs second_path) h fresh,
  )
