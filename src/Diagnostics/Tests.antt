-- ===== src/Diagnostics/Tests.antt =====
-- The diagnostics on a file system whose calls succeed.
use k_fsw.Base.{
  ◌≡◌, refl, some, List, [], arith, if◌then◌else◌, ok, eilseq, eio, emsgsize, ltb, length,
}
use k_fsw.Text.{codes, str_eq}
use k_fsw.Shell.{ShellCall}
use k_fsw.Diagnostics.FileState.{Released, Done}
use k_fsw.Diagnostics.Files.{content}
use k_fsw.Diagnostics.Storage.{value_max_size, storage_diagnostic_write, storage_diagnostic_read}
use k_fsw.Diagnostics.Ftp.{
  pattern_from, resolve_ftp_local_path, write_chunks, compare_read, compare_files,
  ftp_diagnostic_generate, ftp_diagnostic_compare,
}
use k_fsw.Diagnostics.RoundTrip.{read-write}
use k_fsw.Diagnostics.Pattern.{generate-pattern}
use k_fsw.Diagnostics.Compare.{compare-same}
use k_fsw.Diagnostics.Closed.{diagnostics-Released}
use k_fsw.Diagnostics.Disk.{
  empty_files, sum_update, disk, disk-Works, disk-Continues, disk-HasMounts,
}

abbrev two_files : List ShellCall
two_files =
    (ftp_diagnostic_generate disk (codes "/a") 3
      (ftp_diagnostic_generate disk (codes "b") 70 []).1).1

-- The pattern of three bytes, and files of different lengths.
generated : (ftp_diagnostic_generate disk (codes "a") 3 []).0 ≡ (ok, some 114)
unfolding ftp_diagnostic_generate resolve_ftp_local_path write_chunks pattern_from
generated = refl

differ : (ftp_diagnostic_compare disk 3 (codes "a") (codes "b") two_files).0 ≡ some eilseq
unfolding ftp_diagnostic_compare ftp_diagnostic_generate resolve_ftp_local_path write_chunks
    pattern_from compare_files compare_read str_eq
differ = refl

same : (ftp_diagnostic_compare disk 3 (codes "b") (codes "/b") two_files).0 ≡ some ok
unfolding ftp_diagnostic_compare ftp_diagnostic_generate resolve_ftp_local_path write_chunks
    pattern_from compare_files compare_read str_eq
same = refl

read-write_example :
    let written = storage_diagnostic_write disk (codes "/f") (codes "on") [] in
    let found = storage_diagnostic_read disk (codes "/f") (codes "off") written.1 in
    (written.0 ≡ ok)
    × (found.0 ≡ (
        if ltb value_max_size (length (codes "off"))
        then emsgsize
        else if str_eq (codes "on") (codes "off")
        then ok
        else eio))
    × (content empty_files (codes "/f") found.1 ≡ codes "on")
read-write_example =
    read-write disk empty_files disk-Works (codes "/f") (codes "on") (codes "off") []

resolved_a : resolve_ftp_local_path disk (codes "a") ≡ (ok, codes "/lfs/a")
unfolding resolve_ftp_local_path
resolved_a = refl

resolved_b : resolve_ftp_local_path disk (codes "/b") ≡ (ok, codes "/lfs/b")
unfolding resolve_ftp_local_path
resolved_b = refl

generate-pattern_example :
    let run = ftp_diagnostic_generate disk (codes "a") 70 [] in
    (run.0 ≡ (ok, some (sum_update 0 (pattern_from 0 70))))
    × (content empty_files (codes "/lfs/a") run.1 ≡ pattern_from 0 70)
generate-pattern_example =
    generate-pattern disk empty_files disk-Works disk-Continues (codes "a") (codes "/lfs/a") 70 []
      resolved_a

compare-same_example :
    (ftp_diagnostic_compare disk 1 (codes "a") (codes "/b") []).0
    ≡ some (
        if str_eq
          (content empty_files (codes "/lfs/a") [])
          (content empty_files (codes "/lfs/b") [])
        then ok
        else eilseq)
compare-same_example =
    compare-same disk empty_files disk-Works (codes "a") (codes "/b") (codes "/lfs/a")
      (codes "/lfs/b") 1 [] resolved_a resolved_b (omega arith)

diagnostics-Released_example :
    Released disk (storage_diagnostic_write disk (codes "/f") (codes "on") []).1
    × Released disk (storage_diagnostic_read disk (codes "/f") (codes "on") []).1
    × Released disk (ftp_diagnostic_generate disk (codes "/f") 70 []).1
    × Done disk (ftp_diagnostic_compare disk 3 (codes "a") (codes "b") [])
diagnostics-Released_example =
    diagnostics-Released disk disk-HasMounts 3 (codes "/f") (codes "a") (codes "b") (codes "on") 70
      [] (λ s. refl)
