-- ===== src/Diagnostics/RoundTrip.antt =====
-- What the storage diagnostic finds of what it has written.
use k_fsw.Base.{
  ◌+◌, ◌≤◌, ◌≡◌, refl, ap, ◌∙◌, inl, inr, true, false, ◌∷◌, arith, ltb, ◌==◌, if◌then◌else◌, pos,
  ok, eio, emsgsize, ◌==ℤ◌, ==ℤ_iff, Bool-cases, length, take, length-take, take-eq_self, List,
}
use k_fsw.Text.{Bytes, str_eq, str_eq_iff}
use k_fsw.Shell.Service.{
  first_file, to_read, to_replace, file_open, file_read, file_write, file_sync, file_close,
}
use k_fsw.Shell.{ShellCall, service}
use k_fsw.Diagnostics.{FileSystem}
use k_fsw.Diagnostics.Files.{content, Works}
use k_fsw.Diagnostics.Storage.{
  value_max_size, check_value, storage_diagnostic_write, storage_diagnostic_read,
}

pub str_eq_self : (a : Bytes) → str_eq a a ≡ true
str_eq_self a = (str_eq_iff a a).1 refl

-- A text of another length is another text.
pub str_eq-length : (a b : Bytes) → (length a == length b) ≡ false → str_eq a b ≡ false
str_eq-length a b h = elim (Bool-cases (str_eq a b)) [
  | inr differ ↦ differ
  | inl same ↦ ground (arith, ap length ((str_eq_iff a b).0 same))
]

-- Of a read that is one byte longer than the longest value: exactly the value expected passes.
check_value-chunk :
    (expected held : Bytes)
    → length expected ≤ value_max_size
    → check_value expected
        (pos (length (take (value_max_size + 1) held)))
        (take (value_max_size + 1) held)
      ≡ (if str_eq held expected then ok else eio)
unfolding check_value
check_value-chunk expected held fits = elim (Bool-cases (length held == length expected)) [
  | inl same ↦
      let equal : length held ≡ length expected = ground arith in
      rw (
        take-eq_self (value_max_size + 1) held (omega arith),
        same,
        take-eq_self (length expected) held (omega arith),
      )
  | inr differ ↦
      let unequal : (length (take (value_max_size + 1) held) == length expected) ≡ false =
        ground (arith, length-take (value_max_size + 1) held) in
      rw (unequal, str_eq-length held expected differ)
]

module _ (fs : FileSystem) (start : Bytes → Bytes) (works : Works fs start) where
  -- Writing a value leaves it in the file.
  write_result :
      (path value : Bytes) (h : List ShellCall)
      → let run = storage_diagnostic_write fs path value h in
        (run.0 ≡ ok) × (content start path run.1 ≡ value)
  unfolding storage_diagnostic_write
  write_result path value h =
      let opened = service (file_open first_file path to_replace) ∷ h in
      let written = service (file_write first_file value) ∷ opened in
      let synced = service (file_sync first_file) ∷ written in
      let whole : (pos (length value) ==ℤ pos (length value)) ≡ true =
        (==ℤ_iff (pos (length value)) (pos (length value))).1 refl in
      rw
        (
          works.results h (file_open first_file path to_replace),
          works.results opened (file_write first_file value),
          whole,
          works.results written (file_sync first_file),
          works.results synced (file_close first_file),
        )
        (refl, rw (str_eq_self path))

  -- Reading passes exactly if the file holds what is expected, and changes nothing.
  read_result :
      (path expected : Bytes) (h : List ShellCall)
      → let run = storage_diagnostic_read fs path expected h in
        (run.0 ≡ (
          if ltb value_max_size (length expected)
          then emsgsize
          else if str_eq (content start path h) expected
          then ok
          else eio))
        × (content start path run.1 ≡ content start path h)
  unfolding storage_diagnostic_read
  read_result path expected h = elim (Bool-cases (ltb value_max_size (length expected))) [
    | inl long ↦ rw long (refl, refl)
    | inr fits ↦
        let size = value_max_size + 1 in
        let opened = service (file_open first_file path to_read) ∷ h in
        let read = service (file_read first_file size) ∷ opened in
        let held = content start path h in
        rw
          (
            fits,
            works.results h (file_open first_file path to_read),
            works.results opened (file_read first_file size),
            works.reads first_file size opened,
            check_value-chunk expected held (ground arith),
            works.results read (file_close first_file),
          )
          (ground arith, refl)
  ]

  -- On a file system whose calls succeed: writing a value returns 0, and reading behind it returns
  -- -EMSGSIZE for an expected value of more than 48 bytes, 0 if the expected value is the one
  -- written, and -EIO for any other; the file then holds the value written.
  pub read-write :
      (path value expected : Bytes) (h : List ShellCall)
      → let written = storage_diagnostic_write fs path value h in
        let found = storage_diagnostic_read fs path expected written.1 in
        (written.0 ≡ ok)
        × (found.0 ≡ (
            if ltb value_max_size (length expected)
            then emsgsize
            else if str_eq value expected
            then ok
            else eio))
        × (content start path found.1 ≡ value)
  read-write path value expected h =
      let w = write_result path value h in
      let run = storage_diagnostic_write fs path value h in
      let r = read_result path expected run.1 in
      (
        w.0,
        r.0
            ∙ ap
                (λ held.
                  if ltb value_max_size (length expected)
                  then emsgsize
                  else if str_eq held expected
                  then ok
                  else eio)
                w.1,
        r.1 ∙ w.1,
      )
