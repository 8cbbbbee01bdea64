-- ===== src/Shell/Links.antt =====
-- app/src/shell/shell_can.c and app/src/shell/shell_uart.c: the commands `comms can` and `comms
-- uart`. What the communication modules answer are functions of the history, and the error numbers
-- of libcsp are parameters.
use k_fsw.Base.{
  ℕ, ◌%◌, ◌/◌, Bool, not, ◌||◌, Option, none, some, List, [], ◌∷◌, ◌++◌, ltb, if◌then◌else◌, ℤ, ok,
  is_ok, einval, enodev, eio, enotsup, etimedout, ◌==ℤ◌,
}
use k_fsw.Text.{Bytes, codes, decimal, signed, str_eq, pad_zero}
use k_fsw.Env.{Proc, pure, ◌>>=◌, ◌>>◌, tell, recall}
use k_fsw.Shell.Service.{ServiceCall, can_test_peer, uart_test_peer}
use k_fsw.Shell.{ShellCall, shell_print, ShellParts, ask}
use k_fsw.Shell.Report.{row, number_row, yes_no, refuse, done_with}
use k_fsw.Shell.Remote.{parse_node, remote_failed}

-- The counters of `struct kfsw_csp_interface_info`, with its name.
pub record Interface : Type 0 where
  pub name : Bytes
  pub tx_packets : ℕ
  pub rx_packets : ℕ
  pub tx_errors : ℕ
  pub rx_errors : ℕ
  pub dropped_packets : ℕ

-- `struct kfsw_can_info`
pub record CanInfo : Type 0 where
  pub interface_name : Bytes
  pub ready : Bool
  pub bitrate : ℕ
  pub address : ℕ
  pub prefix_length : ℕ

-- `struct kfsw_uart_info`
pub record UartInfo : Type 0 where
  pub interface : Interface
  pub device_name : Bytes
  pub baudrate : ℕ
  pub ready : Bool
  pub node : ℕ
  pub prefix_length : ℕ
  pub peer : ℕ
  pub frame_errors : ℕ

-- `struct kfsw_can_test_result` and `struct kfsw_uart_test_result`
pub record Pong : Type 0 where
  pub peer : ℕ
  pub interface_name : Bytes
  pub round_trip_us : ℕ

-- CSP_ERR_NONE, CSP_ERR_NOTSUP and CSP_ERR_TIMEDOUT, CONFIG_KFSW_CSP_UART_PEER_ADDRESS, and what
-- the modules give.
pub record LinkShell : Type 0 where
  pub parts : ShellParts
  pub csp_none : ℤ
  pub csp_notsup : ℤ
  pub csp_timedout : ℤ
  pub uart_peer : ℕ
  pub result : List ShellCall → ServiceCall → ℤ
  pub can_info : List ShellCall → CanInfo
  pub interfaces : List ShellCall → List Interface
  pub uart_infos : List ShellCall → List UartInfo
  pub pong : List ShellCall → Pong

-- `find_interface`: the first interface of the name, behind which the visit ends.
unfoldable find_interface : Bytes → List Interface → Option Interface
find_interface name [] = none
find_interface name (i ∷ is) =
    let rest = find_interface name is in if not (str_eq i.name name) then rest else some i

abbrev counters_text : Interface → Bytes
counters_text i =
    codes "tx="
    ++ decimal i.tx_packets
    ++ codes " rx="
    ++ decimal i.rx_packets
    ++ codes " txerr="
    ++ decimal i.tx_errors
    ++ codes " rxerr="
    ++ decimal i.rx_errors
    ++ codes " drop="
    ++ decimal i.dropped_packets

abbrev print_counters : Option Interface → Proc ShellCall ℤ
print_counters none = pure ok
print_counters (some i) = done_with (counters_text i)

abbrev node_row : ℕ → ℕ → Proc ShellCall (Unit {0})
node_row node prefix_length =
    row (codes "CSP node") (decimal node ++ codes "/" ++ decimal prefix_length)

-- Microseconds as milliseconds, with three digits behind the point.
unfoldable pub milliseconds : ℕ → Bytes
milliseconds us = decimal (us / 1000) ++ codes "." ++ pad_zero 3 (decimal (us % 1000))

abbrev test_timeout_ms : ℕ
test_timeout_ms = 1000

unfoldable print_uart_info : UartInfo → Proc ShellCall (Unit {0})
print_uart_info i = do
  row (codes "UART transport") i.interface.name
  row (codes "device") i.device_name
  number_row (codes "baudrate") i.baudrate
  tell (shell_print (codes "configuration: 8N1, flow control none"))
  row (codes "ready") (yes_no i.ready)
  row (codes "CSP interface") i.interface.name
  node_row i.node i.prefix_length
  number_row (codes "CSP peer") i.peer
  tell (
      shell_print
        (codes "KISS " ++ counters_text i.interface ++ codes " frame=" ++ decimal i.frame_errors))

abbrev print_uart_infos : List UartInfo → Proc ShellCall ℤ
print_uart_infos [] = pure ok
print_uart_infos (i ∷ is) = print_uart_info i >> print_uart_infos is

module _ (env : LinkShell) where
  abbrev print_can : CanInfo → Proc ShellCall ℤ
  print_can i = do
    row (codes "CAN interface") (if i.ready then i.interface_name else codes "-")
    row (codes "ready") (yes_no i.ready)
    number_row (codes "bitrate") i.bitrate
    if not i.ready then pure ok else (do
      node_row i.address i.prefix_length
      interfaces ← recall env.interfaces
      print_counters (find_interface i.interface_name interfaces))

  unfoldable cmd_can_info : Proc ShellCall ℤ
  cmd_can_info = recall env.can_info >>= print_can

  abbrev can_passed : Pong → Proc ShellCall ℤ
  can_passed pong = do
    tell (shell_print (codes "CAN CSP test: PASS"))
    number_row (codes "peer") pong.peer
    row (codes "rtt_ms") (milliseconds pong.round_trip_us)
    pure ok

  abbrev can_tested : ℕ → ℤ → Proc ShellCall ℤ
  can_tested peer result =
      if result ==ℤ env.csp_notsup
      then refuse
          (codes "CAN CSP test: node " ++ decimal peer ++ codes " is not reached through CAN")
          enotsup
      else if result ==ℤ env.csp_timedout
      then remote_failed (codes "comms can test") peer etimedout
      else if not (result ==ℤ env.csp_none)
      then refuse (codes "CAN CSP test: FAIL (" ++ signed result ++ codes ")") eio
      else recall env.pong >>= can_passed

  abbrev can_peer : ℕ → CanInfo → Proc ShellCall ℤ
  can_peer peer i =
      if not i.ready
      then refuse (codes "CAN CSP test: the CAN interface is not open") enodev
      else ask env.result (can_test_peer peer test_timeout_ms) >>= can_tested peer

  abbrev can_named : Option ℕ → Proc ShellCall ℤ
  can_named none = pure einval
  can_named (some peer) = recall env.can_info >>= can_peer peer

  unfoldable cmd_can_test : Bytes → Proc ShellCall ℤ
  cmd_can_test text = parse_node env.parts text >>= can_named

  unfoldable cmd_uart_info : Proc ShellCall ℤ
  cmd_uart_info = recall env.uart_infos >>= print_uart_infos

  abbrev uart_passed : Pong → Proc ShellCall ℤ
  uart_passed pong = do
    tell (shell_print (codes "UART CSP test: PASS"))
    number_row (codes "peer") pong.peer
    row (codes "interface") pong.interface_name
    row (codes "rtt_ms") (milliseconds pong.round_trip_us)
    pure ok

  abbrev uart_tested : ℕ → ℤ → Proc ShellCall ℤ
  uart_tested peer result =
      if result ==ℤ env.csp_notsup
      then refuse
          (codes "UART CSP test: node " ++ decimal peer ++ codes " is not reached through a UART")
          enotsup
      else if result ==ℤ env.csp_timedout
      then remote_failed (codes "comms uart test") (peer % 65536) etimedout
      else if not (is_ok result)
      then refuse (codes "UART CSP test: FAIL (" ++ signed result ++ codes ")") result
      else recall env.pong >>= uart_passed

  abbrev test_uart : ℕ → Proc ShellCall ℤ
  test_uart peer =
      ask env.result (uart_test_peer (peer % 65536) test_timeout_ms) >>= uart_tested peer

  abbrev uart_read : ℕ × ℤ → Proc ShellCall ℤ
  uart_read (peer, error) =
      if not (is_ok error) || ltb env.parts.broadcast_address peer
      then refuse (codes "CSP peer must be in range 0.." ++ decimal env.parts.broadcast_address)
          einval
      else test_uart peer

  unfoldable cmd_uart_test : Option Bytes → Proc ShellCall ℤ
  cmd_uart_test none = test_uart env.uart_peer
  cmd_uart_test (some text) = uart_read (env.parts.strtoul text)
