-- ===== src/Shell/Ftp/Transfer.antt =====
-- The `ftp` commands on whole files: `get`, `put`, `generate` and `verify`.
use k_fsw.Base.{
  ℕ, ◌*◌, ◌/◌, Bool, true, false, not, ◌||◌, Option, none, some, ◌++◌, ltb, ◌==◌, if◌then◌else◌, ℤ,
  ok, is_ok, einval,
}
use k_fsw.Text.{Bytes, codes, decimal, hex_fixed, signed}
use k_fsw.Env.{Proc, pure, ◌>>=◌, ◌>>◌, tell, recall}
use k_fsw.Shell.Service.{ServiceCall, ftp_put, ftp_get}
use k_fsw.Shell.{ShellCall, shell_print, ask}
use k_fsw.Shell.Remote.{parse_node}
use k_fsw.Diagnostics.Ftp.{ftp_diagnostic_generate, ftp_diagnostic_compare}
use k_fsw.Shell.Ftp.{FtpShell, TransferResult, refuse, row, print_ftp_error, on_node}

-- Bytes in a second, 0 for a transfer that took no millisecond.
unfoldable pub throughput : TransferResult → ℕ
throughput t = if t.duration_ms == 0 then 0 else t.bytes * 1000 / t.duration_ms

module _ (env : FtpShell) where
  abbrev operation : Bool → Bytes
  operation upload = if upload then codes "put" else codes "get"

  abbrev transfer_call : Bool → ℕ → Bytes → Bytes → ServiceCall
  transfer_call upload node source destination =
      if upload then ftp_put node source destination else ftp_get node source destination

  abbrev print_transfer : Bool → ℕ → Bytes → Bytes → TransferResult → Proc ShellCall ℤ
  print_transfer upload node source destination t = do
    tell (
        shell_print (
          codes "FTP "
          ++ operation upload
          ++ codes " "
          ++ decimal node
          ++ codes " "
          ++ source
          ++ codes " -> "
          ++ destination
          ++ codes ": PASS"))
    row (codes "bytes") (decimal t.bytes)
    row (codes "crc32") (hex_fixed 8 t.crc32)
    row (codes "duration_ms") (decimal t.duration_ms)
    row (codes "throughput_Bps") (decimal (throughput t))
    pure ok

  abbrev transferred : Bool → ℕ → Bytes → Bytes → ℤ → Proc ShellCall ℤ
  transferred upload node source destination result =
      if not (is_ok result)
      then print_ftp_error env (operation upload) node (if upload then destination else source)
          result
      else recall env.transfer >>= print_transfer upload node source destination

  unfoldable pub ftp_transfer : Bool → Bytes → Bytes → ℕ → Proc ShellCall ℤ
  ftp_transfer upload source destination node =
      ask env.result (transfer_call upload node source destination)
      >>= transferred upload node source destination

  unfoldable pub cmd_ftp_get : Bytes → Bytes → Bytes → Proc ShellCall ℤ
  cmd_ftp_get text source destination =
      parse_node env.parts text >>= on_node (ftp_transfer false source destination)

  unfoldable pub cmd_ftp_put : Bytes → Bytes → Bytes → Proc ShellCall ℤ
  cmd_ftp_put text source destination =
      parse_node env.parts text >>= on_node (ftp_transfer true source destination)

  abbrev pub fixture_size : ℕ
  fixture_size = 32768

  -- The checksum that the diagnostic has given out: with a result of 0 there is one.
  abbrev print_generated : Bytes → ℕ → ℤ × Option ℕ → Proc ShellCall ℤ
  print_generated path size (result, none) =
      refuse (codes "FTP generate " ++ path ++ codes ": FAIL (" ++ signed result ++ codes ")")
        result
  print_generated path size (_, some crc32) = do
    tell (shell_print (codes "FTP generate " ++ path ++ codes ": PASS"))
    row (codes "bytes") (decimal size)
    row (codes "crc32") (hex_fixed 8 crc32)
    pure ok

  abbrev generate_sized : Bytes → ℕ × ℤ → Proc ShellCall ℤ
  generate_sized path (size, parse_error) =
      if not (is_ok parse_error) || ltb fixture_size size
      then refuse (codes "FTP fixture size must be in range 0..32768") einval
      else ftp_diagnostic_generate env.fs path size >>= print_generated path size

  unfoldable pub cmd_ftp_generate : Bytes → Bytes → Proc ShellCall ℤ
  cmd_ftp_generate path size = generate_sized path (env.parts.strtoul size)

  abbrev print_verified : Bytes → Bytes → Option ℤ → Proc ShellCall (Option ℤ)
  print_verified first second none = pure none
  print_verified first second (some result) =
      let name = codes "FTP verify " ++ first ++ codes " " ++ second in
      if not (is_ok result)
      then (do
        _ ← refuse (name ++ codes ": FAIL (" ++ signed result ++ codes ")") result
        pure (some result))
      else (do tell (shell_print (name ++ codes ": PASS")); pure (some ok))

  -- On fuel for the comparison; none is one that has not ended.
  unfoldable pub cmd_ftp_verify : ℕ → Bytes → Bytes → Proc ShellCall (Option ℤ)
  cmd_ftp_verify fuel first second =
      ftp_diagnostic_compare env.fs fuel first second >>= print_verified first second
