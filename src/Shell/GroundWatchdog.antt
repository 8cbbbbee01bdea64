-- ===== src/Shell/GroundWatchdog.antt =====
-- app/src/shell/shell_gndwdt.c: the `gndwdt` commands, for the countdown to a reset of a node that
-- the ground does not reach. What the service answers is a function of the history.
use k_fsw.Base.{
  ℕ, Bool, true, false, not, ◌&&◌, ◌||◌, Option, none, some, List, ◌++◌, ltb, if◌then◌else◌, ℤ, ok,
  is_ok, einval, eio, ◌==ℤ◌,
}
use k_fsw.Text.{Bytes, codes, decimal, signed, str_eq}
use k_fsw.Env.{Proc, pure, ◌>>=◌, ◌>>◌, tell, recall}
use k_fsw.Shell.Service.{ServiceCall, gndwdt_remote, gndwdt_set_enabled, gndwdt_set_timeout_s}
use k_fsw.Shell.{ShellCall, service, ShellParts, ask}
use k_fsw.Shell.Report.{row, number_row, refuse, done_with}
use k_fsw.Shell.Remote.{parse_node, remote_failed}
use k_fsw.Shell.Command.{print_fields}

-- `struct kfsw_gndwdt_status`
pub record Countdown : Type 0 where
  pub running : Bool
  pub enabled : Bool
  pub timeout_s : ℕ
  pub remaining_s : ℕ
  pub since_contact_s : ℕ
  pub contacts : ℕ
  pub last_node : ℕ
  pub expiries : ℕ
  pub reschedule_failures : ℕ

-- The reply of another node: whether its status is KFSW_COMMAND_OK, the status's name, its detail.
pub record NodeReply : Type 0 where
  pub accepted : Bool
  pub status_name : Bytes
  pub detail : Bytes

-- CONFIG_KFSW_COMMAND_CSP, KFSW_COMMAND_MAX_DETAIL_SIZE, `shell_strtoul` in base 0, and what the
-- service gives.
pub record CountdownShell : Type 0 where
  pub parts : ShellParts
  pub command_csp : Bool
  pub detail_size : ℕ
  pub strtoul_any : Bytes → ℕ × ℤ
  pub result : List ShellCall → ServiceCall → ℤ
  pub countdown : List ShellCall → Countdown
  pub reply : List ShellCall → NodeReply

unfoldable state_name : Countdown → Bytes
state_name c =
    if not c.running then codes "stopped" else if c.enabled then codes "armed" else codes "disarmed"

module _ (env : CountdownShell) where
  abbrev print_countdown : Countdown → Proc ShellCall ℤ
  print_countdown c = do
    row (codes "state") (state_name c)
    number_row (codes "ground_wtd_timeout") c.timeout_s
    number_row (codes "ground_wtd_cnt") c.remaining_s
    number_row (codes "since_contact_s") c.since_contact_s
    row (codes "contacts") (decimal c.contacts ++ codes " last_node: " ++ decimal c.last_node)
    number_row (codes "expiries") c.expiries
    number_row (codes "reschedule failures") c.reschedule_failures
    pure ok

  unfoldable show_local : Proc ShellCall ℤ
  show_local = recall env.countdown >>= print_countdown

  abbrev answered : Bool → ℕ → NodeReply → Proc ShellCall ℤ
  answered feed node reply =
      if not reply.accepted
      then refuse (codes "Node " ++ decimal node ++ codes " refused: " ++ reply.status_name) eio
      else (do
        number_row (codes "node") node
        if feed then row (codes "fed") (codes "yes") else pure tt
        print_fields env.detail_size reply.detail
        pure ok)

  -- -EINVAL says that the node is this one.
  abbrev reached : Bool → ℕ → ℤ → Proc ShellCall ℤ
  reached feed node outcome =
      if (outcome ==ℤ einval) && not feed
      then show_local
      else if outcome ==ℤ einval
      then refuse
          (codes "Node "
            ++ decimal node
            ++ codes " is this node; its watchdog is fed from elsewhere")
          outcome
      else if not (is_ok outcome)
      then remote_failed (if feed then codes "gndwdt feed" else codes "gndwdt show") node outcome
      else recall env.reply >>= answered feed node

  abbrev on_named : Bool → Option ℕ → Proc ShellCall ℤ
  on_named feed none = pure einval
  on_named feed (some node) = ask env.result (gndwdt_remote node feed) >>= reached feed node

  unfoldable remote : Bytes → Bool → Proc ShellCall ℤ
  remote node_text feed = parse_node env.parts node_text >>= on_named feed

  unfoldable cmd_gndwdt_feed : Bytes → Proc ShellCall ℤ
  cmd_gndwdt_feed node = remote node true

  -- Without CONFIG_KFSW_COMMAND_CSP a node is not read.
  unfoldable cmd_gndwdt_show : Option Bytes → Proc ShellCall ℤ
  cmd_gndwdt_show none = show_local
  cmd_gndwdt_show (some node) = if env.command_csp then remote node false else show_local

  -- Its argument is the command's own name, `on` or `off`.
  unfoldable cmd_gndwdt_arm : Bytes → Proc ShellCall ℤ
  cmd_gndwdt_arm name = do
    tell (service (gndwdt_set_enabled (str_eq name (codes "on"))))
    done_with (codes "Ground watchdog " ++ name)

  abbrev timeout_set : ℕ → ℤ → Proc ShellCall ℤ
  timeout_set seconds result =
      if not (is_ok result)
      then refuse (codes "Timeout refused: " ++ signed result) result
      else done_with (codes "Ground watchdog timeout_s: " ++ decimal seconds)

  abbrev set_timeout : Bytes → ℕ × ℤ → Proc ShellCall ℤ
  set_timeout text (seconds, error) =
      if not (is_ok error) || ltb 4294967295 seconds
      then refuse (codes "Invalid timeout: " ++ text) einval
      else ask env.result (gndwdt_set_timeout_s seconds) >>= timeout_set seconds

  unfoldable pub cmd_gndwdt_timeout : Bytes → Proc ShellCall ℤ
  cmd_gndwdt_timeout text = set_timeout text (env.strtoul_any text)
