-- ===== src/Diagnostics/Pattern.antt =====
-- What `ftp generate` leaves in a file, and the checksum that it gives.
use k_fsw.Base.{
  ℕ, zero, suc, ◌+◌, ◌-◌, ◌*◌, ◌%◌, ◌≤◌, min, ◌≡◌, refl, sym, ap, ◌∙◌, inl, inr, true, some, List,
  [], ◌∷◌, ◌++◌, arith, ltb, pos, ok, ◌==ℤ◌, ==ℤ_iff, Bool-cases, length,
}
use k_fsw.Text.{Bytes}
use k_fsw.Env.{◌>>=◌}
use k_fsw.Shell.Service.{first_file, to_replace, file_open, file_write, file_sync, file_close}
use k_fsw.Shell.{ShellCall, service}
use k_fsw.Diagnostics.{FileSystem}
use k_fsw.Diagnostics.Files.{content, path_of, Works}
use k_fsw.Diagnostics.RoundTrip.{str_eq_self}
use k_fsw.Diagnostics.Ftp.{
  data_size, pattern_from, write_chunks, resolve_ftp_local_path, open_resolved, write_opened,
  finish_write, ftp_diagnostic_generate,
}

pub pattern_from-append :
    (k a b : ℕ) → pattern_from k a ++ pattern_from (k + a) b ≡ pattern_from k (a + b)
unfolding pattern_from
pattern_from-append k zero b =
    let e : k + 0 ≡ k = omega arith in let f : 0 + b ≡ b = omega arith in cc
pattern_from-append k (suc a) b =
    let e : k + suc a ≡ k + 1 + a = omega arith in
    let f : suc a + b ≡ suc (a + b) = omega arith in
    rw (e, f) (ap (◌∷◌ ((k * 31 + 7) % 256)) (pattern_from-append (k + 1) a b))

pattern_glued : (a b : ℕ) → pattern_from 0 a ++ pattern_from a b ≡ pattern_from 0 (a + b)
pattern_glued a b = let e : 0 + a ≡ a = omega arith in cc (pattern_from-append 0 a b)

length-pattern_from : (k n : ℕ) → length (pattern_from k n) ≡ n
unfolding pattern_from
length-pattern_from k zero = refl
length-pattern_from k (suc n) = ap suc (length-pattern_from (k + 1) n)

-- `crc32_ieee_update` goes on where it stopped.
pub record Continues (update : ℕ → Bytes → ℕ) : Type 0 where
  pub of_nil : (crc : ℕ) → update crc [] ≡ crc
  pub of_append : (crc : ℕ) (a b : Bytes) → update (update crc a) b ≡ update crc (a ++ b)

module _ (fs : FileSystem) (start : Bytes → Bytes) (works : Works fs start) where
  -- The loop, from a file that holds the pattern up to the offset.
  write_chunks_whole :
      Continues fs.crc32_update
      → (full : Bytes) (fuel size offset sum : ℕ) (h : List ShellCall)
      → sum ≡ fs.crc32_update 0 (pattern_from 0 offset)
      → path_of first_file h ≡ full
      → content start full h ≡ pattern_from 0 offset
      → offset ≤ size
      → size ≤ offset + fuel
      → let run = write_chunks fs fuel size offset sum h in
        (run.0 ≡ (ok, fs.crc32_update 0 (pattern_from 0 size)))
        × (content start full run.1 ≡ pattern_from 0 size)
        × (path_of first_file run.1 ≡ full)
  unfolding write_chunks
  write_chunks_whole crc full zero size offset sum h summed same held below enough =
      let e : offset ≡ size = omega arith in rw (← e) (ap (λ k. (ok, k)) summed, held, same)
  write_chunks_whole crc full (suc fuel) size offset sum h summed same held below enough =
      let n = min data_size (size - offset) in
      let bytes = pattern_from offset n in
      let c = file_write first_file bytes in
      elim (Bool-cases (ltb offset size)) [
        | inr done ↦
            let e : offset ≡ size = ground arith in
            rw done (rw (← e) (ap (λ k. (ok, k)) summed, held, same))
        | inl more ↦
            let whole : (pos (length bytes) ==ℤ pos n) ≡ true =
              (==ℤ_iff (pos (length bytes)) (pos n)).1 (ap pos (length-pattern_from offset n)) in
            let held' : content start full (service c ∷ h) ≡ pattern_from 0 (offset + n) =
              rw (same, str_eq_self full, held) (pattern_glued offset n) in
            rw (more, works.results h c, whole)
              (write_chunks_whole crc full fuel size (offset + n) (fs.crc32_update sum bytes)
                (service c ∷ h)
                (rw (summed, crc.of_append 0 (pattern_from 0 offset) bytes, pattern_glued offset n))
                same held' (ground arith) (ground arith))
      ]

  finish_whole :
      (full : Bytes) (sum : ℕ) (h : List ShellCall)
      → let run = finish_write fs (ok, sum) h in
        (run.0 ≡ (ok, some sum)) × (content start full run.1 ≡ content start full h)
  finish_whole full sum h =
      let synced = service (file_sync first_file) ∷ h in
      elim (Bool-cases (fs.has_mount synced first_file)) [
        | inl mount ↦
            rw
              (
                works.results h (file_sync first_file),
                mount,
                works.results synced (file_close first_file),
              )
              (refl, refl)
        | inr bare ↦ rw (works.results h (file_sync first_file), bare) (refl, refl)
      ]

  -- Behind an open that replaces what the path held.
  generate_whole :
      Continues fs.crc32_update
      → (full : Bytes) (size : ℕ) (h : List ShellCall)
      → let run =
          (open_resolved fs first_file to_replace (ok, full)
              >>= write_opened fs size
              >>= finish_write fs)
            h in
        (run.0 ≡ (ok, some (fs.crc32_update 0 (pattern_from 0 size))))
        × (content start full run.1 ≡ pattern_from 0 size)
  unfolding pattern_from
  generate_whole crc full size h =
      let opened = service (file_open first_file full to_replace) ∷ h in
      let run = write_chunks fs size size 0 0 opened in
      let w =
        write_chunks_whole crc full size size 0 0 opened (sym (crc.of_nil 0)) refl
          (rw (str_eq_self full)) (omega arith) (omega arith) in
      let f = finish_whole full (fs.crc32_update 0 (pattern_from 0 size)) run.1 in
      rw (works.results h (file_open first_file full to_replace), w.0) (f.0, f.1 ∙ w.1)

  -- On a file system whose calls succeed, with a checksum that goes on where it stopped, and for a
  -- path that resolves: the generator returns 0 with the checksum of the test pattern of the size
  -- asked, and the file holds exactly this pattern.
  pub generate-pattern :
      Continues fs.crc32_update
      → (path full : Bytes) (size : ℕ) (h : List ShellCall)
      → resolve_ftp_local_path fs path ≡ (ok, full)
      → let run = ftp_diagnostic_generate fs path size h in
        (run.0 ≡ (ok, some (fs.crc32_update 0 (pattern_from 0 size))))
        × (content start full run.1 ≡ pattern_from 0 size)
  unfolding ftp_diagnostic_generate
  generate-pattern crc path full size h resolved = rw resolved (generate_whole crc full size h)
