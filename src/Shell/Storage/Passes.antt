-- ===== src/Shell/Storage/Passes.antt =====
-- The storage tests on a file system that works.
use k_fsw.Base.{◌≡◌, refl, ok, List, []}
use k_fsw.Text.{Bytes, str_eq}
use k_fsw.Shell.Service.{file_unlink}
use k_fsw.Shell.{ShellCall}
use k_fsw.Diagnostics.Files.{content, Works}
use k_fsw.Diagnostics.RoundTrip.{read-write, str_eq_self}
use k_fsw.Diagnostics.Storage.{storage_diagnostic_write, storage_diagnostic_read}
use k_fsw.Shell.Storage.{
  StorageShell, test_path, initial_value, overwritten_value, storage_basic_test,
}

module _ (env : StorageShell) (start : Bytes → Bytes) (works : Works env.fs start) where
  -- On a file system whose calls succeed, the basic storage test returns 0 and leaves its file
  -- empty or removed.
  pub storage_basic_test_passes :
      (h : List ShellCall)
      → let run = storage_basic_test env h in
        (run.0 ≡ ok) × (content start (test_path env) run.1 ≡ [])
  unfolding storage_basic_test str_eq
  storage_basic_test_passes h =
      let path = test_path env in
      let first = storage_diagnostic_write env.fs path (initial_value env) h in
      let second = storage_diagnostic_write env.fs path (overwritten_value env) first.1 in
      let read = storage_diagnostic_read env.fs path (overwritten_value env) second.1 in
      let w = read-write env.fs start works path (initial_value env) (initial_value env) h in
      let v =
        read-write env.fs start works path (overwritten_value env) (overwritten_value env)
          first.1 in
      rw (w.0, v.0, v.1, works.results read.1 (file_unlink path)) (refl, rw (str_eq_self path))
