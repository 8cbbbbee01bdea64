-- ===== src/Parameters/Csp.antt =====
-- app/src/parameters/csp_table.c: table 4, the counters of the router and the two traces.
pub mod Totals
mod Tests
use k_fsw.Base.{
  ℕ, ◌+◌, ◌%◌, Bool, true, false, not, Option, none, some, List, [], ◌∷◌, ltb, ◌==◌, if◌then◌else◌,
  ℤ, ok, erange,
}
use k_fsw.Text.{Bytes, codes}
use k_fsw.Parameters.Definition.{
  ParamType, u8, u32, string, number, chars, Flags, no_flags, Value, Definition, DefinitionSet,
}

-- The counters of `struct kfsw_csp_interface_info` and `struct kfsw_csp_counters`.
pub record InterfaceInfo : Type 0 where
  pub tx_packets : ℕ
  pub rx_packets : ℕ
  pub tx_errors : ℕ
  pub rx_errors : ℕ
  pub dropped_packets : ℕ

pub record CspCounters : Type 0 where
  pub buffer_out : ℕ
  pub conn_out : ℕ
  pub conn_overflow : ℕ
  pub conn_noroute : ℕ
  pub invalid_reply : ℕ
  pub last_error : ℕ
  pub last_can_error : ℕ

-- `struct csp_totals`
pub record CspTotals : Type 0 where
  pub tx_packets : ℕ
  pub rx_packets : ℕ
  pub tx_errors : ℕ
  pub rx_errors : ℕ
  pub dropped : ℕ
  pub interfaces : ℕ

abbrev pub no_totals : CspTotals
no_totals = record {
  tx_packets = 0;
  rx_packets = 0;
  tx_errors = 0;
  rx_errors = 0;
  dropped = 0;
  interfaces = 0;
}

-- A sum in a `uint32_t`.
abbrev pub add_u32 : ℕ → ℕ → ℕ
add_u32 a b = (a + b) % 4294967296

-- The router, over its own state: the interfaces that it visits, its counters, whether its thread
-- runs, and the two traces.
pub record CspRouter (R : Type 0) : Type 0 where
  pub interfaces : R → List InterfaceInfo
  pub counters : R → CspCounters
  pub running : R → Bool
  pub rdp_trace : R → ℕ
  pub set_rdp_trace : ℕ → R → R
  pub packet_trace : R → Bool
  pub set_packet_trace : Bool → R → R

-- The router's state and the statics of the file.
pub record CspWorld (R : Type 0) : Type 0 where
  pub router : R
  pub totals : CspTotals
  pub sampled : CspCounters

-- `accumulate_interface`; it always asks for the next interface.
unfoldable pub accumulate_interface : InterfaceInfo → CspTotals → CspTotals
accumulate_interface info t = record {
  tx_packets = add_u32 t.tx_packets info.tx_packets;
  rx_packets = add_u32 t.rx_packets info.rx_packets;
  tx_errors = add_u32 t.tx_errors info.tx_errors;
  rx_errors = add_u32 t.rx_errors info.rx_errors;
  dropped = add_u32 t.dropped info.dropped_packets;
  interfaces = if ltb t.interfaces 255 then t.interfaces + 1 else t.interfaces;
}

-- `kfsw_csp_visit_interfaces`, on the interfaces in order.
unfoldable pub visit : List InterfaceInfo → CspTotals → CspTotals
unfolding accumulate_interface
visit [] t = t
visit (info ∷ infos) t = visit infos (accumulate_interface info t)

unfoldable pub validate_rdp_trace : ℕ → ℤ
validate_rdp_trace value = if ltb 2 value then erange else ok

unfoldable pub validate_packet_trace : ℕ → ℤ
validate_packet_trace value = if ltb 1 value then erange else ok

abbrev read_only : Flags
read_only = record no_flags { read_only = true }

module _ {R : Type 0} (csp : CspRouter R) where
  unfoldable pub sample_totals : CspWorld R → CspWorld R
  sample_totals w = record w { totals = visit (csp.interfaces w.router) no_totals }

  unfoldable pub sample_counters : CspWorld R → CspWorld R
  sample_counters w = record w { sampled = csp.counters w.router }

  -- `sample_tx_packets` and the others that sum the interfaces, and those that copy a counter.
  abbrev pub sample_total : (CspTotals → ℕ) → CspWorld R → Value × CspWorld R
  sample_total field w = let w' = sample_totals w in (number (field w'.totals), w')

  abbrev pub sample_counter : (CspCounters → ℕ) → CspWorld R → Value × CspWorld R
  sample_counter field w = let w' = sample_counters w in (number (field w'.sampled), w')

  abbrev pub sample_rdp_trace : CspWorld R → Value × CspWorld R
  sample_rdp_trace w = (number (csp.rdp_trace w.router), w)

  abbrev pub apply_rdp_trace : ℕ → CspWorld R → CspWorld R
  apply_rdp_trace value w = record w { router = csp.set_rdp_trace value w.router }

  abbrev pub sample_packet_trace : CspWorld R → Value × CspWorld R
  sample_packet_trace w = (number (if csp.packet_trace w.router then 1 else 0), w)

  abbrev pub apply_packet_trace : ℕ → CspWorld R → CspWorld R
  apply_packet_trace value w = record w {
    router = csp.set_packet_trace (not (value == 0)) w.router;
  }

  abbrev pub sample_router_running : CspWorld R → Value × CspWorld R
  sample_router_running w = (number (if csp.running w.router then 1 else 0), w)

  -- A read-only counter.
  abbrev counter :
      ℕ → ParamType → Bytes → (CspWorld R → Value × CspWorld R) → Definition (CspWorld R)
  counter offset type name sample = record {
    offset = offset;
    type = type;
    capacity = 0;
    flags = read_only;
    name = name;
    unit = none;
    default = number 0;
    sample = some sample;
    validate = none;
    validate_text = none;
    changed = none;
  }

  -- A trace that the ground can raise.
  abbrev trace :
      ℕ
      → Bytes
      → (CspWorld R → Value × CspWorld R)
      → (ℕ → ℤ)
      → (ℕ → CspWorld R → CspWorld R)
      → Definition (CspWorld R)
  trace offset name sample validate apply = record (counter offset u8 name sample) {
    flags = record no_flags { configuration = true; live = true };
    validate = some validate;
    changed = some apply;
  }

  -- The route table is text that never changes; its size is that of the longest table that the
  -- router takes and a terminator.
  abbrev route_table : ℕ → Bytes → Definition (CspWorld R)
  route_table max_length text = record {
    offset = 0x20;
    type = string;
    capacity = max_length + 1;
    flags = read_only;
    name = codes "route_table";
    unit = none;
    default = chars text;
    sample = none;
    validate = none;
    validate_text = none;
    changed = none;
  }

  pub csp_definitions : ℕ → Bytes → List (Definition (CspWorld R))
  csp_definitions route_table_max_length routes =
      counter 0x00 u32 (codes "tx_packets") (sample_total (λ t. t.tx_packets))
      ∷ counter 0x04 u32 (codes "rx_packets") (sample_total (λ t. t.rx_packets))
      ∷ counter 0x08 u32 (codes "tx_errors") (sample_total (λ t. t.tx_errors))
      ∷ counter 0x0c u32 (codes "rx_errors") (sample_total (λ t. t.rx_errors))
      ∷ counter 0x10 u32 (codes "dropped") (sample_total (λ t. t.dropped))
      ∷ counter 0x14 u8 (codes "interfaces") (sample_total (λ t. t.interfaces))
      ∷ counter 0x16 u8 (codes "buffer_out") (sample_counter (λ n. n.buffer_out))
      ∷ counter 0x17 u8 (codes "conn_out") (sample_counter (λ n. n.conn_out))
      ∷ counter 0x18 u8 (codes "conn_ovf") (sample_counter (λ n. n.conn_overflow))
      ∷ counter 0x19 u8 (codes "conn_noroute") (sample_counter (λ n. n.conn_noroute))
      ∷ counter 0x1a u8 (codes "invalid_reply") (sample_counter (λ n. n.invalid_reply))
      ∷ counter 0x1b u8 (codes "last_error") (sample_counter (λ n. n.last_error))
      ∷ counter 0x1c u8 (codes "last_can_error") (sample_counter (λ n. n.last_can_error))
      ∷ trace 0x1d (codes "rdp_trace") sample_rdp_trace validate_rdp_trace apply_rdp_trace
      ∷ trace 0x1e (codes "packet_trace") sample_packet_trace validate_packet_trace
          apply_packet_trace
      ∷ route_table route_table_max_length routes
      ∷ counter 0x15 u8 (codes "router_running") sample_router_running
      ∷ []

  pub csp_set : ℕ → Bytes → DefinitionSet (CspWorld R)
  csp_set route_table_max_length routes = record {
    table = 4;
    name = codes "csp";
    definitions = csp_definitions route_table_max_length routes;
  }
