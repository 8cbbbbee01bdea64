-- ===== src/Parameters/Csp/Tests.antt =====
-- A router with two interfaces that keeps its traces.
use k_fsw.Base.{ℕ, ◌≡◌, refl, Bool, false, [], ◌∷◌}
use k_fsw.Parameters.Csp.{
  InterfaceInfo, CspCounters, CspRouter, CspWorld, no_totals, visit, accumulate_interface,
  sample_totals,
}
use k_fsw.Parameters.Csp.Totals.{Summed, sample_totals-Summed}

abbrev quiet : CspCounters
quiet = record {
  buffer_out = 0;
  conn_out = 0;
  conn_overflow = 0;
  conn_noroute = 0;
  invalid_reply = 0;
  last_error = 0;
  last_can_error = 0;
}

abbrev busy : ℕ → InterfaceInfo
busy n = record {
  tx_packets = n;
  rx_packets = 2;
  tx_errors = 0;
  rx_errors = 1;
  dropped_packets = 0;
}

-- The router's state is its two traces.
abbrev router : CspRouter (ℕ × Bool)
router = record {
  interfaces = λ r. busy 4294967295 ∷ busy 3 ∷ [];
  counters = λ r. quiet;
  running = λ r. false;
  rdp_trace = λ r. r.0;
  set_rdp_trace = λ n r. (n, r.1);
  packet_trace = λ r. r.1;
  set_packet_trace = λ b r. (r.0, b);
}

abbrev world : CspWorld (ℕ × Bool)
world = record { router = (0, false); totals = no_totals; sampled = quiet }

-- The sum of the sent packets wraps.
wrapped_total : (sample_totals router world).totals.tx_packets ≡ 2
unfolding sample_totals visit accumulate_interface
wrapped_total = refl

sample_totals-Summed_example :
    Summed no_totals (busy 4294967295 ∷ busy 3 ∷ []) (sample_totals router world).totals
sample_totals-Summed_example = sample_totals-Summed router world
