-- ===== src/Shell/Csp.antt =====
-- app/src/shell/shell_csp.c: the `csp` commands. A command takes the words behind its name, each
-- that may be missing as an Option. This file is about this node: its identity, its links, its
-- counters and its traces.
pub mod Exchange
pub mod Clock
use k_fsw.Base.{
  ℕ, ◌%◌, Bool, true, false, not, ◌||◌, Option, none, some, List, [], ◌∷◌, ◌++◌, ltb, if◌then◌else◌,
  ℤ, pos, negsuc, ok, is_ok, is_negative, einval, etimedout, ◌==ℤ◌,
}
use k_fsw.Text.{Bytes, codes, decimal, signed, str_eq}
use k_fsw.Env.{Proc, pure, ◌>>=◌, ◌>>◌, tell, recall}
use k_fsw.Shell.Service.{ServiceCall, csp_clear_counters, csp_set_packet_trace, csp_set_rdp_trace}
use k_fsw.Shell.{ShellCall, shell_print, shell_error, service, ShellParts, ask}
use k_fsw.Shell.Command.{RunEnv}

-- `struct kfsw_csp_info`
pub record CspInfo : Type 0 where
  pub address : ℕ
  pub hostname : Bytes
  pub model : Bytes
  pub revision : Bytes
  pub libcsp : Bytes
  pub protocol : ℕ
  pub free_buffers : ℕ

-- `struct kfsw_csp_interface_info`
pub record InterfaceInfo : Type 0 where
  pub name : Bytes
  pub address : ℕ
  pub prefix_length : ℕ
  pub is_default : Bool
  pub tx_packets : ℕ
  pub rx_packets : ℕ
  pub tx_errors : ℕ
  pub rx_errors : ℕ
  pub dropped_packets : ℕ
  pub auth_errors : ℕ

-- `struct kfsw_csp_route_info`; a route without `has_via` has no via.
pub record RouteInfo : Type 0 where
  pub address : ℕ
  pub prefix_length : ℕ
  pub interface_name : Bytes
  pub via : Option ℕ

-- `struct kfsw_csp_interface_stats`
pub record InterfaceStats : Type 0 where
  pub name : Bytes
  pub tx_packets : ℕ
  pub rx_packets : ℕ
  pub tx_errors : ℕ
  pub rx_errors : ℕ
  pub dropped_packets : ℕ
  pub auth_errors : ℕ
  pub frame_errors : ℕ
  pub tx_bytes : ℕ
  pub rx_bytes : ℕ
  pub interrupts : ℕ

-- `struct kfsw_csp_counters`
pub record CspCounters : Type 0 where
  pub buffer_out : ℕ
  pub conn_out : ℕ
  pub conn_overflow : ℕ
  pub conn_noroute : ℕ
  pub invalid_reply : ℕ
  pub last_error : ℕ
  pub last_can_error : ℕ

-- `struct kfsw_csp_identity`
pub record CspIdentity : Type 0 where
  pub hostname : Bytes
  pub model : Bytes
  pub revision : Bytes
  pub date : Bytes
  pub time : Bytes

-- `struct kfsw_csp_clock`
pub record CspClock : Type 0 where
  pub seconds : ℤ
  pub nanoseconds : ℕ

-- `struct tm` as gmtime_r fills it for a time of 32 bits, which starts in 1901.
pub record Tm : Type 0 where
  pub tm_year : ℕ
  pub tm_mon : ℕ
  pub tm_mday : ℕ
  pub tm_hour : ℕ
  pub tm_min : ℕ
  pub tm_sec : ℕ

-- What the commands stand on: `shell_strtoul` in bases 10 and 0, `shell_strtol` in base 10,
-- `strtoll` in base 0, which gives the rest of the text and the whole text where it reads nothing;
-- CSP_ERR_TIMEDOUT; whether a clock is set, and gmtime_r; and what the services give.
pub record CspShell : Type 0 where
  pub parts : ShellParts
  pub strtoul_0 : Bytes → ℕ × ℤ
  pub strtol : Bytes → ℤ × ℤ
  pub strtoll_0 : Bytes → ℤ × Bytes
  pub registry : RunEnv
  pub csp_err_timedout : ℤ
  pub clock_is_set : CspClock → Bool
  pub gmtime : ℤ → Tm
  pub error_name : ℕ → Bytes
  pub can_error_name : ℕ → Bytes
  pub result : List ShellCall → ServiceCall → ℤ
  pub info : List ShellCall → CspInfo
  pub interfaces : List ShellCall → List InterfaceInfo
  pub routes : List ShellCall → List RouteInfo
  pub route : List ShellCall → RouteInfo
  pub round_trip_us : List ShellCall → ℕ
  pub stats : List ShellCall → InterfaceStats
  pub counters : List ShellCall → CspCounters
  pub packet_trace : List ShellCall → Bool
  pub rdp_trace : List ShellCall → ℕ
  pub identity : List ShellCall → CspIdentity
  pub clock : List ShellCall → CspClock

abbrev pub refuse : Bytes → ℤ → Proc ShellCall ℤ
refuse text result = do tell (shell_error text); pure result

abbrev pub line : Bytes → Bytes → Proc ShellCall (Unit {0})
line name text = tell (shell_print (name ++ codes ": " ++ text))

abbrev pub count_line : Bytes → ℕ → Proc ShellCall (Unit {0})
count_line name n = line name (decimal n)

abbrev on_off : Bool → Bytes
on_off enabled = if enabled then codes "on" else codes "off"

unfoldable pub print_csp_interface : InterfaceInfo → Proc ShellCall (Unit {0})
print_csp_interface i = tell (
    shell_print (
      i.name
      ++ codes " addr="
      ++ decimal i.address
      ++ codes "/"
      ++ decimal i.prefix_length
      ++ codes " default="
      ++ (if i.is_default then codes "yes" else codes "no")
      ++ codes " tx="
      ++ decimal i.tx_packets
      ++ codes " rx="
      ++ decimal i.rx_packets
      ++ codes " txerr="
      ++ decimal i.tx_errors
      ++ codes " rxerr="
      ++ decimal i.rx_errors
      ++ codes " drop="
      ++ decimal i.dropped_packets
      ++ codes " autherr="
      ++ decimal i.auth_errors))

abbrev route_end : Option ℕ → Bytes
route_end (some via) = codes " via " ++ decimal via
route_end none = codes " direct"

unfoldable pub print_csp_route : RouteInfo → Proc ShellCall (Unit {0})
print_csp_route r = tell (
    shell_print (
      decimal r.address
      ++ codes "/"
      ++ decimal r.prefix_length
      ++ codes " -> "
      ++ r.interface_name
      ++ route_end r.via))

-- A visit with a callback that goes on.
abbrev print_interfaces : List InterfaceInfo → Proc ShellCall ℤ
print_interfaces [] = pure ok
print_interfaces (i ∷ is) = print_csp_interface i >> print_interfaces is

abbrev print_routes : List RouteInfo → Proc ShellCall ℤ
print_routes [] = pure ok
print_routes (r ∷ rs) = print_csp_route r >> print_routes rs

module _ (env : CspShell) where
  unfoldable pub cmd_csp_info : Proc ShellCall ℤ
  cmd_csp_info = do
    info ← recall env.info
    count_line (codes "CSP node") info.address
    line (codes "hostname") info.hostname
    line (codes "model") info.model
    line (codes "revision") info.revision
    line (codes "libcsp") info.libcsp
    tell (shell_print (codes "protocol: CSP v" ++ decimal info.protocol))
    count_line (codes "free_buffers") info.free_buffers
    pure ok

  unfoldable pub cmd_csp_interfaces : Proc ShellCall ℤ
  cmd_csp_interfaces = recall env.interfaces >>= print_interfaces

  unfoldable pub cmd_csp_routes : Proc ShellCall ℤ
  cmd_csp_routes = recall env.routes >>= print_routes

  abbrev print_counters : CspCounters → Proc ShellCall ℤ
  print_counters k = do
    tell (
        shell_print (
          codes "buffer_out="
          ++ decimal k.buffer_out
          ++ codes " conn_out="
          ++ decimal k.conn_out
          ++ codes " conn_ovf="
          ++ decimal k.conn_overflow
          ++ codes " conn_noroute="
          ++ decimal k.conn_noroute
          ++ codes " invalid_reply="
          ++ decimal k.invalid_reply))
    tell (
        shell_print (
          codes "last_error="
          ++ decimal k.last_error
          ++ codes " ("
          ++ env.error_name k.last_error
          ++ codes ")"))
    tell (
        shell_print (
          codes "last_can_error="
          ++ decimal k.last_can_error
          ++ codes " ("
          ++ env.can_error_name k.last_can_error
          ++ codes ")"))
    pure ok

  unfoldable pub cmd_csp_counters : Option Bytes → Proc ShellCall ℤ
  cmd_csp_counters none = recall env.counters >>= print_counters
  cmd_csp_counters (some word) =
      if not (str_eq word (codes "clear"))
      then refuse (codes "Invalid argument: " ++ word ++ codes " (expected clear)") einval
      else (do
        tell (service csp_clear_counters)
        tell (shell_print (codes "CSP counters cleared"))
        pure ok)

  abbrev set_trace : Bool → Proc ShellCall ℤ
  set_trace enabled = do
    tell (service (csp_set_packet_trace enabled))
    line (codes "CSP packet trace") (on_off enabled)
    pure ok

  unfoldable pub cmd_csp_debug : Option Bytes → Proc ShellCall ℤ
  cmd_csp_debug none = do
    enabled ← recall env.packet_trace
    line (codes "CSP packet trace") (on_off enabled)
    pure ok
  cmd_csp_debug (some word) =
      if str_eq word (codes "on")
      then set_trace true
      else if str_eq word (codes "off")
      then set_trace false
      else refuse (codes "Invalid state: " ++ word ++ codes " (expected on or off)") einval

  abbrev bad_level : Proc ShellCall ℤ
  bad_level = refuse (codes "level is 0 off, 1 errors, 2 with the protocol") einval

  -- A level that is not negative is set if it is at most 2.
  abbrev level_read : ℤ × ℤ → Proc ShellCall ℤ
  level_read (negsuc n, parse_error) = bad_level
  level_read (pos level, parse_error) =
      if not (is_ok parse_error) || ltb 2 level
      then bad_level
      else ask env.result (csp_set_rdp_trace level) >>= λ result.
          (if not (is_ok result)
            then bad_level
            else (do count_line (codes "CSP RDP trace") level; pure ok))

  unfoldable pub cmd_csp_rdp : Option Bytes → Proc ShellCall ℤ
  cmd_csp_rdp none = do
    level ← recall env.rdp_trace
    count_line (codes "CSP RDP trace") level
    pure ok
  cmd_csp_rdp (some word) = level_read (env.strtol word)
