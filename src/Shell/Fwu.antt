-- ===== src/Shell/Fwu.antt =====
-- app/src/shell/shell_fwu.c: the `fwu` commands, which load an image into this node. What the
-- service answers and leaves in a status are functions of the history; the status behind a finished
-- transfer is printed whether the service filled it or not, as the code does.
use k_fsw.Base.{
  ℕ, Bool, false, not, ◌||◌, Option, none, some, List, [], ◌∷◌, ◌++◌, ltb, ◌==◌, if◌then◌else◌, ℤ,
  ok, is_ok, einval,
}
use k_fsw.Text.{Bytes, codes, decimal, hex_fixed}
use k_fsw.Env.{Proc, pure, ◌>>=◌, ◌>>◌, tell, recall}
use k_fsw.Shell.Service.{ServiceCall, fwu_get_status, fwu_begin, fwu_finish, fwu_abort}
use k_fsw.Shell.{ShellCall, shell_print, shell_error, ask}
use k_fsw.Shell.Report.{row, number_row, yes_no, unless_failed, done_with}

-- `struct kfsw_fwu_status`, as this front end reads it.
pub record UpdateStatus : Type 0 where
  pub target_bound : Bool
  pub state : ℕ
  pub total_size : ℕ
  pub received : ℕ
  pub expected_crc32 : ℕ
  pub actual_crc32 : ℕ
  pub swap_scheduled : Bool
  pub started : ℕ
  pub completed : ℕ
  pub failures : ℕ

-- `shell_strtoul` in base 0, `kfsw_fwu_state_name`, and what the service gives.
pub record UpdateShell : Type 0 where
  pub strtoul_any : Bytes → ℕ × ℤ
  pub state_name : ℕ → Bytes
  pub max_image_size : ℕ
  pub write_offset : ℕ
  pub result : List ShellCall → ServiceCall → ℤ
  pub status : List ShellCall → UpdateStatus

-- Whether a text starts with a minus sign.
abbrev pub starts_negative : Bytes → Bool
starts_negative [] = false
starts_negative (c ∷ cs) = c == b'-'

module _ (env : UpdateShell) where
  abbrev parsed_u32 : Bytes → Bytes → ℕ × ℤ → Proc ShellCall (Option ℕ)
  parsed_u32 text what (parsed, error) =
      if starts_negative text || not (is_ok error) || ltb 4294967295 parsed
      then (do tell (shell_error (codes "Invalid " ++ what ++ codes ": " ++ text)); pure none)
      else pure (some parsed)

  -- `parse_u32`: the value, or none with -EINVAL.
  unfoldable pub parse_update_u32 : Bytes → Bytes → Proc ShellCall (Option ℕ)
  parse_update_u32 text what = parsed_u32 text what (env.strtoul_any text)

  abbrev print_update : UpdateStatus → Proc ShellCall ℤ
  print_update s = do
    tell (shell_print (codes "K-FSW firmware update"))
    row (codes "target") (if s.target_bound then codes "bound" else codes "absent")
    row (codes "state") (env.state_name s.state)
    number_row (codes "max_image_bytes") env.max_image_size
    number_row (codes "write_offset") env.write_offset
    number_row (codes "total_size") s.total_size
    number_row (codes "received") s.received
    row (codes "expected_crc32") (hex_fixed 8 s.expected_crc32)
    row (codes "actual_crc32") (hex_fixed 8 s.actual_crc32)
    row (codes "swap_scheduled") (yes_no s.swap_scheduled)
    number_row (codes "started") s.started
    number_row (codes "completed") s.completed
    number_row (codes "failed") s.failures
    pure ok

  unfoldable cmd_fwu_status : Proc ShellCall ℤ
  cmd_fwu_status =
      ask env.result fwu_get_status
      >>= unless_failed (codes "firmware update status unavailable")
          (recall env.status >>= print_update)

  abbrev begin_with : ℕ → Option ℕ → Proc ShellCall ℤ
  begin_with total_size none = pure einval
  begin_with total_size (some crc32) =
      ask env.result (fwu_begin total_size crc32)
      >>= unless_failed (codes "firmware update begin failed")
          (done_with (codes "Firmware update ready for " ++ decimal total_size ++ codes " bytes"))

  abbrev begin_sized : Bytes → Option ℕ → Proc ShellCall ℤ
  begin_sized crc none = pure einval
  begin_sized crc (some total_size) = parse_update_u32 crc (codes "crc32") >>= begin_with total_size

  unfoldable pub cmd_fwu_begin : Bytes → Bytes → Proc ShellCall ℤ
  cmd_fwu_begin size crc = parse_update_u32 size (codes "size") >>= begin_sized crc

  abbrev print_accepted : UpdateStatus → Proc ShellCall ℤ
  print_accepted s = do
    tell (
        shell_print (codes "Firmware update accepted; swap scheduled: " ++ yes_no s.swap_scheduled))
    done_with (
        if s.swap_scheduled
        then codes "Reboot to try it. It reverts unless it is confirmed."
        else codes "Image ready; no reset or bootloader swap requested")

  -- The result of the status call is not read.
  abbrev transfer_finished : Proc ShellCall ℤ
  transfer_finished = do
    result ← ask env.result fwu_get_status
    recall env.status >>= print_accepted

  unfoldable cmd_fwu_finish : Proc ShellCall ℤ
  cmd_fwu_finish =
      ask env.result fwu_finish
      >>= unless_failed (codes "firmware update finish failed") transfer_finished

  unfoldable cmd_fwu_abort : Proc ShellCall ℤ
  cmd_fwu_abort =
      ask env.result fwu_abort
      >>= unless_failed (codes "Firmware update cleanup failed")
          (done_with (codes "Firmware update aborted; the slot is erased"))
