-- ===== src/Shell/Watchdog.antt =====
-- app/src/shell/shell_watchdog.c: the `watchdog` commands. The service's answers are functions of
-- the history; the state comes as the numbers of the platform's header.
use k_fsw.Base.{
  ℕ, Bool, not, ◌&&◌, Option, none, some, List, ◌++◌, ◌==◌, if◌then◌else◌, ℤ, ok, is_ok, einval,
  enodev,
}
use k_fsw.Text.{Bytes, codes, decimal, signed, str_eq}
use k_fsw.Env.{Proc, pure, ◌>>=◌, ◌>>◌, tell, recall}
use k_fsw.Shell.Service.{ServiceCall, watchdog_get_info, watchdog_feed, watchdog_stop_feeding}
use k_fsw.Shell.{ShellCall, shell_print, shell_error, ask}

-- `struct kfsw_platform_watchdog_info`
pub record WatchdogInfo : Type 0 where
  pub device_bound : Bool
  pub state : ℕ
  pub timeout_ms : ℕ
  pub feed_interval_ms : ℕ
  pub feeds : ℕ
  pub since_feed_ms : ℕ

-- The numbers of the states, and what the service answers and gives. `info` is what the struct of
-- the caller holds behind a call, whether the call filled it or not.
pub record WatchdogShell : Type 0 where
  pub unconfigured : ℕ
  pub configured : ℕ
  pub running : ℕ
  pub starved : ℕ
  pub result : List ShellCall → ServiceCall → ℤ
  pub info : List ShellCall → WatchdogInfo

abbrev failed : Bytes → ℤ → Proc ShellCall ℤ
failed text result = do
  tell (shell_error (text ++ codes " (" ++ signed result ++ codes ")"))
  pure result

abbrev refused : Bytes → Proc ShellCall ℤ
refused text = do tell (shell_error text); pure enodev

module _ (env : WatchdogShell) where
  unfoldable state_name : ℕ → Bytes
  state_name state =
      if state == env.unconfigured
      then codes "unconfigured"
      else if state == env.configured
      then codes "configured"
      else if state == env.running
      then codes "running"
      else if state == env.starved
      then codes "starved"
      else codes "unknown"

  abbrev print_info : WatchdogInfo → Proc ShellCall ℤ
  print_info i = do
    tell (shell_print (codes "K-FSW watchdog"))
    tell (
        shell_print
          (codes "device: " ++ (if i.device_bound then codes "bound" else codes "absent")))
    tell (shell_print (codes "state: " ++ state_name i.state))
    tell (shell_print (codes "timeout_ms: " ++ decimal i.timeout_ms))
    tell (shell_print (codes "feed_interval_ms: " ++ decimal i.feed_interval_ms))
    tell (shell_print (codes "feeds: " ++ decimal i.feeds))
    tell (shell_print (codes "since_feed_ms: " ++ decimal i.since_feed_ms))
    pure ok

  abbrev info_read : ℤ → Proc ShellCall ℤ
  info_read result =
      if not (is_ok result)
      then failed (codes "watchdog status unavailable") result
      else recall env.info >>= print_info

  unfoldable cmd_watchdog_status : Proc ShellCall ℤ
  cmd_watchdog_status = ask env.result watchdog_get_info >>= info_read

  abbrev was_fed : ℤ → Proc ShellCall ℤ
  was_fed result =
      if not (is_ok result)
      then failed (codes "watchdog feed failed") result
      else (do tell (shell_print (codes "Watchdog fed")); pure ok)

  unfoldable cmd_watchdog_feed : Proc ShellCall ℤ
  cmd_watchdog_feed = ask env.result watchdog_feed >>= was_fed

  -- The timeout is that of the struct, filled or not.
  abbrev has_stopped : WatchdogInfo → ℤ → Proc ShellCall ℤ
  has_stopped i result =
      if not (is_ok result) then failed (codes "watchdog starve failed") result else (do
        tell (
            shell_print (
              codes "Watchdog feed stopped; reset expected within "
              ++ decimal i.timeout_ms
              ++ codes " ms"))
        pure ok)

  abbrev stop_bound : ℤ → WatchdogInfo → Proc ShellCall ℤ
  stop_bound result i =
      if is_ok result && not i.device_bound
      then refused (codes "No watchdog device is bound")
      else ask env.result watchdog_stop_feeding >>= has_stopped i

  abbrev stop_known : ℤ → Proc ShellCall ℤ
  stop_known result = recall env.info >>= stop_bound result

  abbrev unconfirmed : Proc ShellCall ℤ
  unconfirmed = do
    tell (shell_error (codes "This stops feeding the watchdog and the board will reset."))
    tell (shell_error (codes "Run: watchdog starve confirm"))
    pure einval

  unfoldable cmd_watchdog_starve : Option Bytes → Proc ShellCall ℤ
  cmd_watchdog_starve none = unconfirmed
  cmd_watchdog_starve (some word) =
      if not (str_eq word (codes "confirm"))
      then unconfirmed
      else ask env.result watchdog_get_info >>= stop_known
