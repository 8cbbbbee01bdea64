-- ===== src/Shell/Storage/Tests.antt =====
-- The storage test on a file system whose calls succeed.
use k_fsw.Base.{◌≡◌, true, false, [], ok}
use k_fsw.Text.{codes}
use k_fsw.Diagnostics.Files.{content}
use k_fsw.Diagnostics.Disk.{empty_files, disk, disk-Works}
use k_fsw.Shell.Storage.{StorageShell, test_path, storage_basic_test}
use k_fsw.Shell.Storage.Passes.{storage_basic_test_passes}

abbrev shell : StorageShell
shell = record {
  fs = disk;
  mount_point = codes "/lfs";
  has_tmp = false;
  is_ready = λ h. true;
  info = λ h. record {
    filesystem = [];
    backend = [];
    mount_point = [];
    ready = true;
    total_bytes = 0;
    free_bytes = 0;
  };
}

storage_basic_test_passes_example :
    ((storage_basic_test shell []).0 ≡ ok)
    × (content empty_files (test_path shell) (storage_basic_test shell []).1 ≡ [])
storage_basic_test_passes_example = storage_basic_test_passes shell empty_files disk-Works []
