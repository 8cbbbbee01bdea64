-- ===== src/Shell.antt =====
-- The shell commands of app/src/shell: what they share.
pub mod Service
pub mod Report
pub mod Guarded
pub mod Remote
pub mod Remexec
pub mod Command
pub mod Hk
pub mod Param
pub mod Csp
pub mod Watchdog
pub mod Golden
pub mod FwuLite
pub mod Storage
pub mod Ftp
pub mod System
pub mod Registry
pub mod Fbo
pub mod Fwu
pub mod GroundWatchdog
pub mod Health
pub mod Scrub
pub mod Limits
pub mod Tables
pub mod Event
pub mod Journal
pub mod Links
pub mod Resmon
pub mod Prompt
use k_fsw.Base.{ℕ, Bool, List, [], ◌∷◌, ℤ}
use k_fsw.Text.{Bytes}
use k_fsw.Commands.{CommandArg}
use k_fsw.Env.{Proc}
use k_fsw.Shell.Service.{ServiceCall}

-- The lines that a shell command prints or logs, and the calls of the remote execution service:
-- the node, and the prefix or the command line that is sent; and of the command service: the
-- command's name and arguments, and for another node that node and whether it is asked again; and
-- the calls of the other services.
pub data ShellCall : Type 0 where
  shell_print : Bytes → ShellCall
  shell_error : Bytes → ShellCall
  shell_warn : Bytes → ShellCall
  log_warning : Bytes → ShellCall
  remexec_list_remote : ℕ → Bytes → ShellCall
  remexec_run_remote : ℕ → Bytes → ShellCall
  command_invoke : Bytes → List CommandArg → ShellCall
  command_invoke_remote : ℕ → Bytes → List CommandArg → Bool → ShellCall
  service : ServiceCall → ShellCall

-- What the shell and the headers of the services give: `shell_strtoul` in base 10, with the error
-- that it sets, and KFSW_CSP_BROADCAST_ADDRESS.
pub record ShellParts : Type 0 where
  pub strtoul : Bytes → ℕ × ℤ
  pub broadcast_address : ℕ

-- A call of a service whose result is read.
abbrev pub ask : (List ShellCall → ServiceCall → ℤ) → ServiceCall → Proc ShellCall ℤ
ask answer c history = (answer history c, service c ∷ history)

-- The calls of the services among all calls.
abbrev pub requests : List ShellCall → List ServiceCall
requests [] = []
requests (service c ∷ h) = c ∷ requests h
requests (_ ∷ h) = requests h
