-- ===== src/Diagnostics/FileState.antt =====
-- The state of a file, by the calls made on it.
use k_fsw.Base.{◌≡◌, Bool, true, false, Option, none, some, List, [], ◌∷◌, if◌then◌else◌, ℤ, is_ok}
use k_fsw.Shell.Service.{
  ServiceCall, FileSlot, first_file, second_file, file_open, file_read, file_write, file_sync,
  file_close,
}
use k_fsw.Shell.{ShellCall, service}
use k_fsw.Diagnostics.{FileSystem}

-- A file: never opened, open, closed again, or used out of turn.
pub data FileState : Type 0 where
  idle opened closed misused : FileState

abbrev pub same_file : FileSlot → FileSlot → Bool
same_file first_file first_file = true
same_file second_file second_file = true
same_file _ _ = false

abbrev after_open : ℤ → FileState → FileState
after_open result idle = if is_ok result then opened else idle
after_open result closed = if is_ok result then opened else idle
after_open result _ = misused

abbrev after_use : FileState → FileState
after_use opened = opened
after_use _ = misused

abbrev after_close : FileState → FileState
after_close opened = closed
after_close _ = misused

abbrev file_step : FileSlot → ServiceCall → ℤ → FileState → FileState
file_step s (file_open t path mode) result state =
    if same_file s t then after_open result state else state
file_step s (file_read t size) result state = if same_file s t then after_use state else state
file_step s (file_write t bytes) result state = if same_file s t then after_use state else state
file_step s (file_sync t) result state = if same_file s t then after_use state else state
file_step s (file_close t) result state = if same_file s t then after_close state else state
file_step s _ result state = state

-- Neither open nor misused.
abbrev pub is_released : FileState → Bool
is_released idle = true
is_released closed = true
is_released _ = false

pub of_both : (P : FileSlot → Type 0) → P first_file → P second_file → (s : FileSlot) → P s
of_both P p q first_file = p
of_both P p q second_file = q

module _ (fs : FileSystem) where
  -- The state of a file behind the calls.
  abbrev pub file_state : FileSlot → List ShellCall → FileState
  file_state s [] = idle
  file_state s (service c ∷ h) = file_step s c (fs.result h c) (file_state s h)
  file_state s (_ ∷ h) = file_state s h

  -- No file is open any more.
  abbrev pub Released : List ShellCall → Type 0
  Released h = (s : FileSlot) → is_released (file_state s h) ≡ true

  -- While the comparison goes on both files are open, and in the end no file is.
  abbrev pub Done : Option ℤ × List ShellCall → Type 0
  Done (none, h) = (s : FileSlot) → file_state s h ≡ opened
  Done (some result, h) = Released h

  -- A file that has not been opened has no mount, and one that is open has one.
  pub record HasMounts : Type 0 where
    pub of_idle :
        (s : FileSlot) (h : List ShellCall) → file_state s h ≡ idle → fs.has_mount h s ≡ false
    pub of_opened :
        (s : FileSlot) (h : List ShellCall) → file_state s h ≡ opened → fs.has_mount h s ≡ true

  pub idle_Released : (h : List ShellCall) → ((s : FileSlot) → file_state s h ≡ idle) → Released h
  idle_Released h fresh s = rw (fresh s)
