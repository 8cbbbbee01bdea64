-- ===== src/Shell/Golden.antt =====
-- app/src/shell/shell_golden.c: the `golden` commands, in a build with all of them. What the
-- services answer and leave in a value are functions of the history.
use k_fsw.Base.{
  ℕ, Bool, not, Option, none, some, List, [], ◌∷◌, ◌++◌, if◌then◌else◌, ℤ, pos, ok, is_ok, einval,
}
use k_fsw.Text.{Bytes, codes, decimal, signed}
use k_fsw.Env.{Proc, pure, ◌>>=◌, ◌>>◌, tell, recall}
use k_fsw.Parameters.Definition.{u8}
use k_fsw.Shell.Service.{ServiceCall, ParamValue, param_get, param_set}
use k_fsw.Shell.{ShellCall, shell_print, shell_error, ShellParts, ask}
use k_fsw.Shell.Remote.{parse_node}
use k_fsw.Shell.Command.{RunEnv, run_command, this_node}

pub record GoldenShell : Type 0 where
  pub parts : ShellParts
  pub registry : RunEnv
  pub present : List ShellCall → Bool
  pub parse_text : Bytes → ParamValue → ℤ × ParamValue
  pub result : List ShellCall → ServiceCall → ℤ
  pub value : List ShellCall → ParamValue

-- KFSW_PARAM_U8 with the rest zero
abbrev u8_value : ParamValue
u8_value = record { type = u8; unsigned = 0; signed = pos 0; floating = 0; text = []; bytes = [] }

module _ (env : GoldenShell) where
  unfoldable cmd_golden_status : Proc ShellCall ℤ
  cmd_golden_status = do
    present ← recall env.present
    tell (
        shell_print
          (codes "recovery image: " ++ (if present then codes "present" else codes "absent")))
    pure ok

  abbrev install_on : Bytes → Option ℕ → Proc ShellCall ℤ
  install_on pin none = pure einval
  install_on pin (some node) = run_command env.registry node (codes "golden_install") (pin ∷ [])

  -- The last word is the pin.
  unfoldable cmd_golden_install : Bytes → Option Bytes → Proc ShellCall ℤ
  cmd_golden_install pin none =
      run_command env.registry this_node (codes "golden_install") (pin ∷ [])
  cmd_golden_install node (some pin) = parse_node env.parts node >>= install_on pin

  abbrev unread : Bytes → ℤ → Proc ShellCall ℤ
  unread name result = do tell (shell_error (name ++ codes ": " ++ signed result)); pure result

  abbrev limit_read : ParamValue → ℤ → Proc ShellCall ℤ
  limit_read left result =
      if not (is_ok result) then unread (codes "boot_attempts_max") result else (do
        limit ← recall env.value
        tell (
            shell_print (
              codes "attempts left: "
              ++ decimal left.unsigned
              ++ codes " of "
              ++ decimal limit.unsigned))
        pure ok)

  abbrev left_known : ℤ → ParamValue → Proc ShellCall ℤ
  left_known result left =
      if not (is_ok result)
      then unread (codes "boot_attempts_left") result
      else ask env.result (param_get (codes "boot_attempts_max")) >>= limit_read left

  abbrev left_got : ℤ → Proc ShellCall ℤ
  left_got result = recall env.value >>= left_known result

  abbrev left_set : ParamValue → ℤ → Proc ShellCall ℤ
  left_set left result = left_known result left

  abbrev left_parsed : ℤ × ParamValue → Proc ShellCall ℤ
  left_parsed (result, left) =
      if is_ok result
      then ask env.result (param_set (codes "boot_attempts_left") left) >>= left_set left
      else left_known result left

  unfoldable cmd_golden_attempts : Option Bytes → Proc ShellCall ℤ
  cmd_golden_attempts (some text) = left_parsed (env.parse_text text u8_value)
  cmd_golden_attempts none = ask env.result (param_get (codes "boot_attempts_left")) >>= left_got
