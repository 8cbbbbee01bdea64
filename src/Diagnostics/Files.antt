-- ===== src/Diagnostics/Files.antt =====
-- What the files hold and how far they have been read, by the calls made; and a file system that
-- does what is asked.
use k_fsw.Base.{ℕ, ◌+◌, ◌≡◌, List, [], ◌∷◌, ◌++◌, if◌then◌else◌, ℤ, pos, ok, length, take, drop}
use k_fsw.Text.{Bytes, str_eq}
use k_fsw.Shell.Service.{
  ServiceCall, FileSlot, to_replace, file_open, file_read, file_write, file_unlink,
}
use k_fsw.Shell.{ShellCall, service}
use k_fsw.Diagnostics.{FileSystem}
use k_fsw.Diagnostics.FileState.{same_file}

-- The path that a file was opened with last, and how far it has been read since.
abbrev path_step : FileSlot → ServiceCall → Bytes → Bytes
path_step s (file_open t path mode) p = if same_file s t then path else p
path_step s _ p = p

abbrev pub path_of : FileSlot → List ShellCall → Bytes
path_of s [] = []
path_of s (service c ∷ h) = path_step s c (path_of s h)
path_of s (_ ∷ h) = path_of s h

abbrev position_step : FileSlot → ServiceCall → ℕ → ℕ
position_step s (file_open t path mode) n = if same_file s t then 0 else n
position_step s (file_read t size) n = if same_file s t then n + size else n
position_step s _ n = n

abbrev pub position : FileSlot → List ShellCall → ℕ
position s [] = 0
position s (service c ∷ h) = position_step s c (position s h)
position s (_ ∷ h) = position s h

-- What a path holds, from what it held at first.
abbrev content_step : Bytes → ServiceCall → List ShellCall → Bytes → Bytes
content_step p (file_open t path to_replace) h old = if str_eq p path then [] else old
content_step p (file_write t bytes) h old = if str_eq p (path_of t h) then old ++ bytes else old
content_step p (file_unlink path) h old = if str_eq p path then [] else old
content_step p _ h old = old

abbrev pub content : (Bytes → Bytes) → Bytes → List ShellCall → Bytes
content start p [] = start p
content start p (service c ∷ h) = content_step p c h (content start p h)
content start p (_ ∷ h) = content start p h

-- What a read of so many bytes gives.
abbrev pub chunk : (Bytes → Bytes) → FileSlot → ℕ → List ShellCall → Bytes
chunk start s size h = take size (drop (position s h) (content start (path_of s h) h))

-- The result of a call that succeeds.
abbrev pub good_result : (Bytes → Bytes) → ServiceCall → List ShellCall → ℤ
good_result start (file_read s size) h = pos (length (chunk start s size h))
good_result start (file_write s bytes) h = pos (length bytes)
good_result start _ h = ok

-- Every call on a file succeeds: reads and writes are whole up to the end of the file, and a read
-- leaves in the buffer what the file holds.
pub record Works (fs : FileSystem) (start : Bytes → Bytes) : Type 0 where
  pub results : (h : List ShellCall) (c : ServiceCall) → fs.result h c ≡ good_result start c h
  pub reads :
      (s : FileSlot) (size : ℕ) (h : List ShellCall)
      → fs.left (service (file_read s size) ∷ h) ≡ chunk start s size h
