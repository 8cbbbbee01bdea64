-- ===== src/Shell/Prompt.antt =====
-- app/src/shell/shell_prompt.c and app/src/shell/shell_echo.c: the colour and the echo of the
-- console.
use k_fsw.Base.{ℕ, Bool, not, ◌∷◌, ◌++◌, length, if◌then◌else◌, ℤ, is_ok}
use k_fsw.Text.{Bytes, codes, fitted}
use k_fsw.Env.{Proc, pure, ◌>>=◌, call, tell}
use k_fsw.Base.{List}

-- The calls of the shell library, and the width that is written into its console.
pub data ConsoleCall : Type 0 where
  prompt_change : Bytes → ConsoleCall
  set_name_len : ℕ → ConsoleCall
  echo_set : Bool → ConsoleCall

-- Whether the UART backend is there, CONFIG_SHELL_PROMPT_UART, and what the shell answers.
pub record Console : Type 0 where
  pub is_present : Bool
  pub prompt : Bytes
  pub result : List ConsoleCall → ConsoleCall → ℤ

-- KFSW_PROMPT_JADE and KFSW_PROMPT_RESET
abbrev pub jade : Bytes
jade = 27 ∷ codes "[38;5;36m"

abbrev pub reset : Bytes
reset = 27 ∷ codes "[0m"

abbrev pub prompt_size : ℕ
prompt_size = 64

module _ (env : Console) where
  unfoldable pub colored_prompt : Bytes
  colored_prompt = fitted prompt_size (jade ++ env.prompt ++ reset)

  abbrev prompt_changed : ℤ → Proc ConsoleCall (Unit {0})
  prompt_changed result =
      if not (is_ok result) then pure tt else tell (set_name_len (length env.prompt))

  unfoldable pub prompt_apply : Proc ConsoleCall (Unit {0})
  prompt_apply =
      if not env.is_present
      then pure tt
      else call env.result (prompt_change colored_prompt) >>= prompt_changed

  -- The handler that `kfsw_shell_echo_apply` registers.
  unfoldable pub apply_echo : Bool → Proc ConsoleCall (Unit {0})
  apply_echo enabled = if env.is_present then tell (echo_set enabled) else pure tt
