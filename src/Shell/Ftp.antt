-- ===== src/Shell/Ftp.antt =====
-- app/src/shell/shell_ftp.c: the `ftp` commands.
pub mod Transfer
pub mod Once
mod Tests
use k_fsw.Base.{
  ℕ, ◌%◌, ◌^◌, Bool, not, ◌&&◌, ◌||◌, Option, none, some, List, [], ◌∷◌, ◌++◌, length, ◌==◌,
  if◌then◌else◌, ℤ, ok, is_ok, ◌==ℤ◌, einval, enoent, ebadmsg, enospc, ebusy, enotsup, eacces,
}
use k_fsw.Text.{Bytes, codes, decimal, hex_fixed, signed, str_eq, pad_right, pad_left, fitted}
use k_fsw.Env.{Proc, pure, ◌>>=◌, ◌>>◌, tell, recall}
use k_fsw.Shell.Service.{ServiceCall, ftp_list, ftp_stat, ftp_mkdir}
use k_fsw.Shell.{ShellCall, shell_print, shell_error, ShellParts, ask}
use k_fsw.Shell.Remote.{parse_node, no_answer, remote_failed}
use k_fsw.Diagnostics.{FileSystem}

-- `struct kfsw_ftp_entry`, and `struct kfsw_ftp_stat`.
pub record FtpEntry : Type 0 where
  pub is_directory : Bool
  pub size : ℕ
  pub name : Bytes

pub record FtpStat : Type 0 where
  pub is_directory : Bool
  pub size : ℕ
  pub crc32 : ℕ

-- `struct kfsw_ftp_transfer_result`
pub record TransferResult : Type 0 where
  pub bytes : ℕ
  pub crc32 : ℕ
  pub duration_ms : ℕ

-- KFSW_FTP_BOOT_PATH, KFSW_FTP_HK_PATH and KFSW_FBO_FTP_PATH, and what the services give.
pub record FtpShell : Type 0 where
  pub parts : ShellParts
  pub fs : FileSystem
  pub boot_path : Bytes
  pub hk_path : Bytes
  pub proc_path : Bytes
  pub result : List ShellCall → ServiceCall → ℤ
  pub own_address : List ShellCall → ℕ
  pub entries : List ShellCall → List FtpEntry
  pub stat : List ShellCall → FtpStat
  pub transfer : List ShellCall → TransferResult

abbrev pub refuse : Bytes → ℤ → Proc ShellCall ℤ
refuse text result = do tell (shell_error text); pure result

abbrev pub row : Bytes → Bytes → Proc ShellCall (Unit {0})
row name text = tell (shell_print (name ++ codes ": " ++ text))

-- A path without the slashes at its start and at its end.
abbrev trim_front : Bytes → Bytes
trim_front [] = []
trim_front (c ∷ cs) = let rest = trim_front cs in if c == b'/' then rest else c ∷ cs

abbrev trim_back : Bytes → Bytes
trim_back [] = []
trim_back (c ∷ cs) =
    let rest = trim_back cs in if c == b'/' && length rest == 0 then [] else c ∷ rest

-- The text before the last slash, which is empty without one.
abbrev cons_part : ℕ → Option Bytes → Option Bytes
cons_part c none = if c == b'/' then some [] else none
cons_part c (some part) = some (c ∷ part)

abbrev before_last_slash : Bytes → Option Bytes
before_last_slash [] = none
before_last_slash (c ∷ cs) = cons_part c (before_last_slash cs)

unfoldable pub directory_of : Bytes → Bytes
directory_of path = elim (before_last_slash path) [ none ↦ [] | some part ↦ part ]

abbrev pub on_node : (ℕ → Proc ShellCall ℤ) → Option ℕ → Proc ShellCall ℤ
on_node next none = pure einval
on_node next (some node) = next node

module _ (env : FtpShell) where
  unfoldable pub entry_kind : Bool → Bytes → Bytes
  entry_kind is_directory path =
      let directory = trim_back (trim_front path) in
      if is_directory
      then codes "dir"
      else if str_eq env.boot_path directory
      then codes "img"
      else if str_eq env.hk_path directory
      then codes "hk"
      else if str_eq env.proc_path directory
      then codes "proc"
      else codes "file"

  unfoldable pub print_ftp_entry : Bytes → FtpEntry → Proc ShellCall (Unit {0})
  print_ftp_entry path e = tell (
      shell_print (
        pad_right 4 (entry_kind e.is_directory path)
        ++ codes " "
        ++ pad_left 10 (decimal e.size)
        ++ codes " "
        ++ e.name))

  abbrev print_entries : Bytes → List FtpEntry → Proc ShellCall (Unit {0})
  print_entries path [] = pure tt
  print_entries path (e ∷ es) = print_ftp_entry path e >> print_entries path es

  -- The operation, the node and the path in front of a reason.
  abbrev ftp_failed : Bytes → ℕ → Bytes → Bytes → ℤ → Proc ShellCall ℤ
  ftp_failed operation node path reason result =
      refuse
        (codes "FTP "
          ++ operation
          ++ codes " "
          ++ decimal node
          ++ codes " "
          ++ path
          ++ codes ": "
          ++ reason)
        result

  unfoldable pub print_ftp_error : Bytes → ℕ → Bytes → ℤ → Proc ShellCall ℤ
  print_ftp_error operation node path result =
      let failed = λ (reason : Bytes). ftp_failed operation node path reason result in
      if result ==ℤ enoent
      then failed (codes "not found")
      else if (result ==ℤ einval) || (result ==ℤ ebadmsg)
      then failed (codes "invalid path/request (" ++ signed result ++ codes ")")
      else if result ==ℤ enospc
      then failed (codes "not enough free space")
      else if result ==ℤ ebusy
      then failed (codes "server busy")
      else if result ==ℤ enotsup
      then refuse
          (codes "FTP "
            ++ operation
            ++ codes " "
            ++ decimal node
            ++ codes ": transfers need two nodes; use a remote node")
          result
      else if result ==ℤ eacces
      then failed (codes "service or storage not ready")
      else if no_answer result
      then (do _ ← remote_failed (fitted 16 (codes "ftp " ++ operation)) node result; pure result)
      else failed (codes "FAIL (" ++ signed result ++ codes ")")

  abbrev list_read : ℕ → Bytes → ℤ → Proc ShellCall ℤ
  list_read node path result = do
    entries ← recall env.entries
    print_entries path entries
    (if not (is_ok result)
        then print_ftp_error (codes "ls") node path result
        else (do row (codes "entries") (decimal (length entries % 2 ^ 32)); pure ok))

  abbrev pub list_line : ℕ → Bytes → Bytes
  list_line node path =
      codes "FTP ls " ++ decimal node ++ codes " " ++ (if length path == 0 then codes "/" else path)

  -- The entries are printed while the call runs, and its result is read behind them.
  unfoldable pub list_directory : Bytes → ℕ → Proc ShellCall ℤ
  list_directory path node = do
    tell (shell_print (list_line node path))
    result ← ask env.result (ftp_list node path)
    list_read node path result

  abbrev print_stat : ℕ → Bytes → FtpStat → Proc ShellCall ℤ
  print_stat node path s = do
    tell (shell_print (codes "FTP stat " ++ decimal node ++ codes " " ++ path))
    row (codes "type") (entry_kind s.is_directory (directory_of path))
    row (codes "bytes") (decimal s.size)
    row (codes "crc32") (hex_fixed 8 s.crc32)
    pure ok

  abbrev stat_read : ℕ → Bytes → ℤ → Proc ShellCall ℤ
  stat_read node path result =
      if not (is_ok result)
      then print_ftp_error (codes "stat") node path result
      else recall env.stat >>= print_stat node path

  unfoldable pub stat_path : Bytes → ℕ → Proc ShellCall ℤ
  stat_path path node = ask env.result (ftp_stat node path) >>= stat_read node path

  abbrev was_made : ℕ → Bytes → ℤ → Proc ShellCall ℤ
  was_made node path result =
      if not (is_ok result) then print_ftp_error (codes "mkdir") node path result else (do
        tell (
            shell_print (codes "FTP mkdir " ++ decimal node ++ codes " " ++ path ++ codes ": PASS"))
        pure ok)

  unfoldable pub make_directory : Bytes → ℕ → Proc ShellCall ℤ
  make_directory path node = ask env.result (ftp_mkdir node path) >>= was_made node path

  unfoldable pub is_number : Bytes → Bool
  is_number text = is_ok (env.parts.strtoul text).1

  -- `optional_node`: the node of the text, or this one.
  unfoldable pub optional_node : Option Bytes → Proc ShellCall (Option ℕ)
  optional_node none = recall (λ h. some (env.own_address h))
  optional_node (some text) = parse_node env.parts text

  -- One word alone is a node if it is a number.
  unfoldable pub cmd_ftp_ls : Option Bytes → Option Bytes → Proc ShellCall ℤ
  cmd_ftp_ls none _ = optional_node none >>= on_node (list_directory [])
  cmd_ftp_ls (some first) none =
      if is_number first
      then optional_node (some first) >>= on_node (list_directory [])
      else optional_node none >>= on_node (list_directory first)
  cmd_ftp_ls (some first) (some path) = optional_node (some first) >>= on_node (list_directory path)

  -- With one word, that is the path.
  abbrev path_last : (Bytes → ℕ → Proc ShellCall ℤ) → Bytes → Option Bytes → Proc ShellCall ℤ
  path_last next path none = optional_node none >>= on_node (next path)
  path_last next node (some path) = optional_node (some node) >>= on_node (next path)

  unfoldable pub cmd_ftp_stat : Bytes → Option Bytes → Proc ShellCall ℤ
  cmd_ftp_stat = path_last stat_path

  unfoldable pub cmd_ftp_mkdir : Bytes → Option Bytes → Proc ShellCall ℤ
  cmd_ftp_mkdir = path_last make_directory
