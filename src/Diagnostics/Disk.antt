-- ===== src/Diagnostics/Disk.antt =====
-- A file system for the tests: its calls succeed, its files are empty at first, and its checksum is
-- the sum of the bytes.
use k_fsw.Base.{ℕ, ◌+◌, ◌≡◌, refl, sym, ap, ◌∙◌, Bool, true, false, List, [], ◌∷◌, ◌++◌, ok}
use k_fsw.Text.{Bytes, codes}
use k_fsw.Shell.Service.{FileSlot, file_read}
use k_fsw.Shell.{ShellCall, service}
use k_fsw.Diagnostics.{FileSystem}
use k_fsw.Diagnostics.FileState.{FileState, opened, file_state, HasMounts}
use k_fsw.Diagnostics.Files.{chunk, good_result, Works}
use k_fsw.Diagnostics.Pattern.{Continues}

abbrev pub empty_files : Bytes → Bytes
empty_files path = []

abbrev pub sum_update : ℕ → Bytes → ℕ
sum_update crc [] = crc
sum_update crc (b ∷ bs) = sum_update (crc + b) bs

-- What the last call has read.
abbrev last_read : List ShellCall → Bytes
last_read [] = []
last_read (service (file_read s size) ∷ h) = chunk empty_files s size h
last_read (_ ∷ h) = []

abbrev is_open : FileState → Bool
is_open opened = true
is_open _ = false

abbrev unmounted : FileSystem
unmounted = record {
  result = λ h c. good_result empty_files c h;
  left = last_read;
  has_mount = λ h s. false;
  validate_path = λ path. ok;
  storage_root = codes "/lfs";
  crc32_update = sum_update;
}

-- `file_state` reads the results only.
abbrev pub disk : FileSystem
disk = record unmounted { has_mount = λ h s. is_open (file_state unmounted s h) }

pub disk-Works : Works disk empty_files
disk-Works = record { results = λ h c. refl; reads = λ s size h. refl }

sum_update-append :
    (crc : ℕ) (a b : Bytes) → sum_update (sum_update crc a) b ≡ sum_update crc (a ++ b)
sum_update-append crc [] b = refl
sum_update-append crc (x ∷ a) b = sum_update-append (crc + x) a b

pub disk-Continues : Continues sum_update
disk-Continues = record { of_nil = λ crc. refl; of_append = sum_update-append }

same_state : (s : FileSlot) (h : List ShellCall) → file_state disk s h ≡ file_state unmounted s h
same_state s h = refl

pub disk-HasMounts : HasMounts disk
disk-HasMounts = record {
  of_idle = λ s h e. ap is_open (sym (same_state s h) ∙ e);
  of_opened = λ s h e. ap is_open (sym (same_state s h) ∙ e);
}
