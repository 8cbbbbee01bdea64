-- ===== src/Shell/Csp/Exchange.antt =====
-- The commands that ask another node: `csp ping`, `ifstat`, `ident` and `reboot`.
use k_fsw.Base.{
  ℕ, ◌/◌, ◌%◌, Bool, not, ◌||◌, Option, none, some, List, ◌++◌, ltb, ◌==◌, if◌then◌else◌, ℤ, ok,
  is_ok, einval, etimedout, ◌==ℤ◌, length,
}
use k_fsw.Text.{Bytes, codes, decimal, signed, pad_zero}
use k_fsw.Env.{Proc, pure, ◌>>=◌, ◌>>◌, tell, recall}
use k_fsw.Shell.Service.{
  csp_route_lookup, csp_ping, csp_interface_stats_read, csp_identify, csp_clock_read,
}
use k_fsw.Shell.{ShellCall, shell_print, ask}
use k_fsw.Shell.Remote.{parse_node, remote_failed}
use k_fsw.Shell.Command.{run_command}
use k_fsw.Shell.Csp.{
  CspIdentity, InterfaceStats, CspShell, refuse, line, count_line, print_csp_route,
}
use k_fsw.Shell.Csp.Clock.{ping_timeout_ms, print_clock}

-- KFSW_CSP_PING_PAYLOAD_SIZE
abbrev ping_payload_size : ℕ
ping_payload_size = 10

module _ (env : CspShell) where
  unfoldable pub as_errno : ℤ → ℤ
  as_errno csp_result = if csp_result ==ℤ env.csp_err_timedout then etimedout else csp_result

  abbrev pinged : ℕ → ℤ → Proc ShellCall ℤ
  pinged node result =
      if not (is_ok result)
      then remote_failed (codes "csp ping") (node % 65536) (as_errno result)
      else (do
        us ← recall env.round_trip_us
        tell (shell_print (codes "CSP ping " ++ decimal node ++ codes ": success"))
        line (codes "rtt_ms") (decimal (us / 1000) ++ codes "." ++ pad_zero 3 (decimal (us % 1000)))
        pure ok)

  abbrev show_route : ℕ → ℤ → Proc ShellCall (Unit {0})
  show_route node result =
      if is_ok result
      then recall env.route >>= print_csp_route
      else tell (
          shell_print (
            codes "CSP route "
            ++ decimal node
            ++ codes ": unavailable ("
            ++ signed result
            ++ codes ")"))

  -- The route is shown, and the ping is sent whether there is one or not.
  unfoldable pub ping_node : ℕ → Proc ShellCall ℤ
  ping_node node = do
    found ← ask env.result (csp_route_lookup (node % 65536))
    show_route node found
    result ← ask env.result (csp_ping (node % 65536) ping_timeout_ms ping_payload_size)
    pinged node result

  abbrev pub bad_node : Proc ShellCall ℤ
  bad_node =
      refuse (codes "CSP node must be in range 0.." ++ decimal env.parts.broadcast_address) einval

  abbrev out_of_range : ℕ × ℤ → Bool
  out_of_range (node, parse_error) = not (is_ok parse_error) || ltb env.parts.broadcast_address node

  unfoldable pub cmd_csp_ping : Option Bytes → Proc ShellCall ℤ
  cmd_csp_ping none = do
    info ← recall env.info
    tell (
        shell_print (codes "No node given; using this node (" ++ decimal info.address ++ codes ")"))
    ping_node info.address
  cmd_csp_ping (some text) =
      if out_of_range (env.parts.strtoul text)
      then bad_node
      else ping_node (env.parts.strtoul text).0

  abbrev print_stats : ℕ → InterfaceStats → Proc ShellCall ℤ
  print_stats node s = do
    tell (shell_print (codes "CSP ifstat " ++ decimal node ++ codes " " ++ s.name))
    count_line (codes "tx") s.tx_packets
    count_line (codes "rx") s.rx_packets
    count_line (codes "txerr") s.tx_errors
    count_line (codes "rxerr") s.rx_errors
    count_line (codes "drop") s.dropped_packets
    count_line (codes "autherr") s.auth_errors
    count_line (codes "frame") s.frame_errors
    count_line (codes "txbytes") s.tx_bytes
    count_line (codes "rxbytes") s.rx_bytes
    count_line (codes "irq") s.interrupts
    pure ok

  abbrev stats_read : ℕ → ℤ → Proc ShellCall ℤ
  stats_read node result =
      if not (is_ok result)
      then remote_failed (codes "csp ifstat") (node % 65536) result
      else recall env.stats >>= print_stats node

  unfoldable pub cmd_csp_ifstat : Bytes → Bytes → Proc ShellCall ℤ
  cmd_csp_ifstat text name =
      let node = (env.parts.strtoul text).0 in
      if out_of_range (env.parts.strtoul text)
      then bad_node
      else ask env.result (csp_interface_stats_read (node % 65536) name ping_timeout_ms)
        >>= stats_read node

  abbrev clock_read : ℤ → Proc ShellCall ℤ
  clock_read result =
      if is_ok result
      then (do k ← recall env.clock; print_clock env k; pure ok)
      else (do tell (shell_print (codes "clock: no answer")); pure ok)

  abbrev built_line : CspIdentity → Proc ShellCall (Unit {0})
  built_line i =
      if length i.date == 0 then pure tt else line (codes "built") (i.date ++ codes " " ++ i.time)

  abbrev identified : ℕ → ℤ → Proc ShellCall ℤ
  identified node result =
      if not (is_ok result)
      then remote_failed (codes "csp ident") (node % 65536) (as_errno result)
      else (do
        i ← recall env.identity
        tell (shell_print (codes "CSP ident " ++ decimal node))
        line (codes "hostname") i.hostname
        line (codes "model") i.model
        line (codes "revision") i.revision
        built_line i
        answer ← ask env.result (csp_clock_read (node % 65536) ping_timeout_ms)
        clock_read answer)

  unfoldable pub cmd_csp_ident : Option Bytes → Proc ShellCall ℤ
  cmd_csp_ident none = do
    info ← recall env.info
    tell (shell_print (codes "CSP ident " ++ decimal info.address ++ codes " (this node)"))
    line (codes "hostname") info.hostname
    line (codes "model") info.model
    line (codes "revision") info.revision
    k ← recall env.clock
    print_clock env k
    pure ok
  cmd_csp_ident (some text) =
      let node = (env.strtoul_0 text).0 in
      if out_of_range (env.strtoul_0 text)
      then refuse (codes "Invalid node: " ++ text) einval
      else ask env.result (csp_identify (node % 65536) ping_timeout_ms) >>= identified node

  abbrev reboot_node : List Bytes → Option ℕ → Proc ShellCall ℤ
  reboot_node words none = pure einval
  reboot_node words (some node) = run_command env.registry node (codes "reboot") words

  -- The words behind the node are the pin, and `--retry`.
  unfoldable pub cmd_csp_reboot : Bytes → List Bytes → Proc ShellCall ℤ
  cmd_csp_reboot text words = parse_node env.parts text >>= reboot_node words
