-- ===== src/Diagnostics/Compare.antt =====
-- What `ftp verify` finds of two files.
use k_fsw.Base.{
  ℕ, zero, suc, ◌+◌, ◌*◌, ◌≤◌, ◌<◌, ◌≡◌, refl, sym, ap, ◌∙◌, inl, inr, not, ◌&&◌, none, some, List,
  [], ◌∷◌, arith, ◌==◌, if◌then◌else◌, ℤ, pos, ok, eilseq, Bool-cases, length, take, drop,
  take-eq_self, length-take, length-drop,
}
use k_fsw.Text.{Bytes, str_eq, str_eq_iff}
use k_fsw.Env.{◌>>=◌, run_next}
use k_fsw.Shell.Service.{
  FileSlot, first_file, second_file, to_read, file_open, file_read, file_close,
}
use k_fsw.Shell.{ShellCall, service}
use k_fsw.Diagnostics.{FileSystem, first_error}
use k_fsw.Diagnostics.Files.{content, path_of, position, chunk, Works}
use k_fsw.Diagnostics.RoundTrip.{str_eq-length}
use k_fsw.Diagnostics.Ftp.{
  data_size, resolve_ftp_local_path, read_data, compare_read, go_on, compare_files, close_if_open,
  close_both, ftp_diagnostic_compare,
}

drop-drop : (k n : ℕ) (xs : Bytes) → drop n (drop k xs) ≡ drop (k + n) xs
drop-drop zero n xs = ap (λ (t : ℕ). drop t xs) (omega arith)
drop-drop (suc k) zero [] = let e : suc k + 0 ≡ suc k = omega arith in rw e
drop-drop (suc k) (suc n) [] = let e : suc k + suc n ≡ suc (k + suc n) = omega arith in rw e
drop-drop (suc k) n (x ∷ xs) =
    let e : suc k + n ≡ suc (k + n) = omega arith in rw e (drop-drop k n xs)

-- Two texts are equal if their chunks and what is behind them are.
str_eq-chunks :
    (n : ℕ) (xs ys : Bytes)
    → str_eq xs ys ≡ (str_eq (take n xs) (take n ys) && str_eq (drop n xs) (drop n ys))
unfolding str_eq
str_eq-chunks zero xs ys = refl
str_eq-chunks (suc n) [] [] = refl
str_eq-chunks (suc n) [] (y ∷ ys) = refl
str_eq-chunks (suc n) (x ∷ xs) [] = refl
str_eq-chunks (suc n) (x ∷ xs) (y ∷ ys) = ground (arith, str_eq-chunks n xs ys)

-- What a round makes of two chunks.
compare_read-chunks :
    (xs ys : Bytes)
    → compare_read (pos (length xs), xs) (pos (length ys), ys)
      ≡ (if not (str_eq xs ys) then some eilseq else if length xs == 0 then some ok else none)
unfolding compare_read
compare_read-chunks xs ys = elim (Bool-cases (length xs == length ys)) [
  | inr differ ↦ rw (differ, str_eq-length xs ys differ)
  | inl same ↦
      let equal : length xs ≡ length ys = ground arith in
      rw
        (same, take-eq_self (length xs) xs (omega arith), take-eq_self (length xs) ys (omega arith))
]

first_error-ok : (result : ℤ) → first_error result ok ≡ result
first_error-ok result = ground arith

-- A chunk is empty only at the end.
empty_chunk : (xs : Bytes) → length (take data_size xs) ≡ 0 → xs ≡ []
empty_chunk [] h = refl
empty_chunk (x ∷ xs) h = absurd (omega arith)

module _ (fs : FileSystem) (start : Bytes → Bytes) (works : Works fs start) where
  chunk_at :
      (s : FileSlot) (p : Bytes) (k : ℕ) (h : List ShellCall)
      → path_of s h ≡ p
      → position s h ≡ k
      → chunk start s data_size h ≡ take data_size (drop k (content start p h))
  chunk_at s p k h same reached =
      ap (λ q. take data_size (drop (position s h) (content start q h))) same
      ∙ ap (λ (t : ℕ). take data_size (drop t (content start p h))) reached

  read_data_lem :
      (s : FileSlot) (h : List ShellCall) {xs : Bytes}
      → chunk start s data_size h ≡ xs
      → read_data fs s h ≡ ((pos (length xs), xs), service (file_read s data_size) ∷ h)
  read_data_lem s h e =
      rw (works.results h (file_read s data_size), works.reads s data_size h)
        (ap (λ c. ((pos (length c), c), service (file_read s data_size) ∷ h)) e)

  -- A round of the loop, of which the chunks are known.
  compare_round :
      (fuel : ℕ) (xs ys : Bytes) (h : List ShellCall)
      → let h' = service (file_read first_file data_size) ∷ h in
        chunk start first_file data_size h ≡ xs
        → chunk start second_file data_size h' ≡ ys
        → compare_files fs (suc fuel) h
          ≡ go_on fs
              (compare_files fs fuel)
              (if not (str_eq xs ys) then some eilseq else if length xs == 0 then some ok else none)
              (service (file_read second_file data_size) ∷ h')
  unfolding compare_files
  compare_round fuel xs ys h cx cy =
      let h' = service (file_read first_file data_size) ∷ h in
      let rest = compare_files fs fuel in
      run_next (read_data fs first_file)
        (λ first. read_data fs second_file >>= λ second. go_on fs rest (compare_read first second))
        (read_data_lem first_file h cx)
      ∙ run_next (read_data fs second_file)
          (λ second. go_on fs rest (compare_read (pos (length xs), xs) second))
          (read_data_lem second_file h' cy)
      ∙ ap (λ o. go_on fs rest o (service (file_read second_file data_size) ∷ h'))
          (compare_read-chunks xs ys)

  -- The loop, from a position that both files have been read to.
  compare_files_same :
      (a b : Bytes) (fuel k : ℕ) (h : List ShellCall)
      → path_of first_file h ≡ a
      → path_of second_file h ≡ b
      → position first_file h ≡ k
      → position second_file h ≡ k
      → k < length (content start a h) + data_size
      → length (content start a h) + data_size ≤ k + data_size * fuel
      → (compare_files fs fuel h).0
        ≡ some (
            if str_eq (drop k (content start a h)) (drop k (content start b h)) then ok else eilseq)
  compare_files_same a b zero k h pa pb ka kb below enough = absurd (omega arith)
  compare_files_same a b (suc fuel) k h pa pb ka kb below enough =
      let h' = service (file_read first_file data_size) ∷ h in
      let h'' = service (file_read second_file data_size) ∷ h' in
      let xs = drop k (content start a h) in
      let ys = drop k (content start b h) in
      let xs' = take data_size xs in
      let ys' = take data_size ys in
      let behind = str_eq-chunks data_size xs ys in
      rw
        (compare_round fuel xs' ys' h (chunk_at first_file a k h pa ka)
          (chunk_at second_file b k h' pb kb))
        (elim (Bool-cases (str_eq xs' ys')) [
          | inr differ ↦ rw (behind, differ)
          | inl same ↦ elim (Bool-cases (length xs' == 0)) [
            | inl done ↦
                let e = empty_chunk xs (ground arith) in
                let f =
                  empty_chunk ys (ap length (sym ((str_eq_iff xs' ys').0 same)) ∙ (ground arith)) in
                rw (same, done, (str_eq_iff xs ys).1 (e ∙ sym f))
            | inr more ↦
                rw
                  (
                    same,
                    more,
                    behind,
                    same,
                    drop-drop k data_size (content start a h),
                    drop-drop k data_size (content start b h),
                  )
                  (compare_files_same a b fuel (k + data_size) h'' pa pb (rw ka) (rw kb)
                    (ground (arith, length-take data_size xs, length-drop k (content start a h)))
                    (omega arith))
          ]
        ])

  -- Closing, which succeeds, leaves a result alone.
  close_if_open_good :
      (slot : FileSlot) (result : ℤ) (h : List ShellCall)
      → (close_if_open fs slot result h).0 ≡ result
  close_if_open_good slot result h = elim (Bool-cases (fs.has_mount h slot)) [
    | inl mount ↦ rw (mount, works.results h (file_close slot)) (first_error-ok result)
    | inr bare ↦ rw bare
  ]

  close_both_good :
      (result : ℤ) (h : List ShellCall) → (close_both fs (some result) h).0 ≡ some result
  close_both_good result h =
      let second = close_if_open fs second_file result h in
      ap (λ r. some r)
        (close_if_open_good first_file second.0 second.1 ∙ close_if_open_good second_file result h)

  -- On a file system whose calls succeed and whose reads are whole up to the end of the file, for
  -- two paths that resolve, and with as many rounds as the first file has chunks of 64 bytes and
  -- one more: the comparison ends, with 0 if both files hold the same bytes and with -EILSEQ if
  -- they do not.
  pub compare-same :
      (first_path second_path a b : Bytes) (fuel : ℕ) (h : List ShellCall)
      → resolve_ftp_local_path fs first_path ≡ (ok, a)
      → resolve_ftp_local_path fs second_path ≡ (ok, b)
      → length (content start a h) + data_size ≤ data_size * fuel
      → (ftp_diagnostic_compare fs fuel first_path second_path h).0
        ≡ some (if str_eq (content start a h) (content start b h) then ok else eilseq)
  unfolding ftp_diagnostic_compare
  compare-same first_path second_path a b fuel h resolved_first resolved_second enough =
      let opened = service (file_open first_file a to_read) ∷ h in
      let both = service (file_open second_file b to_read) ∷ opened in
      let run = compare_files fs fuel both in
      let same =
        compare_files_same a b fuel 0 both refl refl refl refl (omega arith) (omega arith) in
      rw
        (
          resolved_first,
          resolved_second,
          works.results h (file_open first_file a to_read),
          works.results opened (file_open second_file b to_read),
          same,
        )
        (close_both_good (if str_eq (content start a h) (content start b h) then ok else eilseq)
          run.1)
