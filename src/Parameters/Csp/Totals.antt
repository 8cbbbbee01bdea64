-- ===== src/Parameters/Csp/Totals.antt =====
-- What the sampled totals are, and what the counters and traces admit.
use k_fsw.Base.{
  ℕ, ◌+◌, ◌%◌, ◌≤◌, ◌≡◌, refl, ap, min, Bool, not, ◌==◌, Bool-cases, inl, inr, List, [], ◌∷◌, arith,
  ltb, length, ok, erange, ◌⊎◌,
}
use k_fsw.Parameters.Definition.{number}
use k_fsw.Parameters.Csp.{
  InterfaceInfo, CspTotals, CspRouter, CspWorld, no_totals, accumulate_interface, visit,
  sample_totals, validate_rdp_trace, apply_rdp_trace, sample_rdp_trace, validate_packet_trace,
  apply_packet_trace, sample_packet_trace,
}

-- The exact sum of a counter over the interfaces.
abbrev pub sum : (InterfaceInfo → ℕ) → List InterfaceInfo → ℕ
sum field [] = 0
sum field (i ∷ is) = field i + sum field is

-- The totals from `t` on.
pub record Summed (t : CspTotals) (infos : List InterfaceInfo) (r : CspTotals) : Type 0 where
  pub tx_packets : r.tx_packets ≡ (t.tx_packets + sum (λ i. i.tx_packets) infos) % 4294967296
  pub rx_packets : r.rx_packets ≡ (t.rx_packets + sum (λ i. i.rx_packets) infos) % 4294967296
  pub tx_errors : r.tx_errors ≡ (t.tx_errors + sum (λ i. i.tx_errors) infos) % 4294967296
  pub rx_errors : r.rx_errors ≡ (t.rx_errors + sum (λ i. i.rx_errors) infos) % 4294967296
  pub dropped : r.dropped ≡ (t.dropped + sum (λ i. i.dropped_packets) infos) % 4294967296
  pub interfaces : r.interfaces ≡ min 255 (t.interfaces + length infos)

-- Totals that fit their types.
pub record Fit (t : CspTotals) : Type 0 where
  pub tx_packets : t.tx_packets ≤ 4294967295
  pub rx_packets : t.rx_packets ≤ 4294967295
  pub tx_errors : t.tx_errors ≤ 4294967295
  pub rx_errors : t.rx_errors ≤ 4294967295
  pub dropped : t.dropped ≤ 4294967295
  pub interfaces : t.interfaces ≤ 255

accumulate_interface-Fit :
    (info : InterfaceInfo) (t : CspTotals) → Fit t → Fit (accumulate_interface info t)
unfolding accumulate_interface
accumulate_interface-Fit info t k = record {
  tx_packets = omega arith;
  rx_packets = omega arith;
  tx_errors = omega arith;
  rx_errors = omega arith;
  dropped = omega arith;
  interfaces = ground (arith, k.interfaces);
}

visit-Summed : (infos : List InterfaceInfo) (t : CspTotals) → Fit t → Summed t infos (visit infos t)
unfolding visit
visit-Summed [] t k = record {
  tx_packets = omega (arith, k.tx_packets);
  rx_packets = omega (arith, k.rx_packets);
  tx_errors = omega (arith, k.tx_errors);
  rx_errors = omega (arith, k.rx_errors);
  dropped = omega (arith, k.dropped);
  interfaces = omega (arith, k.interfaces);
}
visit-Summed (i ∷ is) t k =
    let rest = visit-Summed is (accumulate_interface i t) (accumulate_interface-Fit i t k) in
    record {
      tx_packets = omega (arith, rest.tx_packets);
      rx_packets = omega (arith, rest.rx_packets);
      tx_errors = omega (arith, rest.tx_errors);
      rx_errors = omega (arith, rest.rx_errors);
      dropped = omega (arith, rest.dropped);
      interfaces = ground (arith, rest.interfaces, k.interfaces);
    }

-- A sample holds the sums of the counters of all interfaces, modulo 2 ^ 32, and the number of
-- interfaces, which stays at 255 from there on.
pub sample_totals-Summed :
    {R : Type 0} (csp : CspRouter R) (w : CspWorld R)
    → Summed no_totals (csp.interfaces w.router) (sample_totals csp w).totals
unfolding sample_totals
sample_totals-Summed csp w = visit-Summed (csp.interfaces w.router) no_totals (record {
  tx_packets = omega arith;
  rx_packets = omega arith;
  tx_errors = omega arith;
  rx_errors = omega arith;
  dropped = omega arith;
  interfaces = omega arith;
})

-- The detail 0, 1 or 2 that the validator of the trace admits is read back once it is applied, if
-- the router keeps the detail that it is given; the others are -ERANGE. Likewise 0 and 1 for the
-- packet dump.
traces_read_back :
    {R : Type 0} (csp : CspRouter R) (w : CspWorld R) (value : ℕ)
    → ((r : R) (detail : ℕ) → detail ≤ 2 → csp.rdp_trace (csp.set_rdp_trace detail r) ≡ detail)
    → ((r : R) (on : Bool) → csp.packet_trace (csp.set_packet_trace on r) ≡ on)
    → (((value ≤ 2)
          × (validate_rdp_trace value ≡ ok)
          × ((sample_rdp_trace csp (apply_rdp_trace csp value w)).0 ≡ number value))
        ⊎ ((3 ≤ value) × (validate_rdp_trace value ≡ erange)))
      × (((value ≤ 1)
            × (validate_packet_trace value ≡ ok)
            × ((sample_packet_trace csp (apply_packet_trace csp value w)).0 ≡ number value))
          ⊎ ((2 ≤ value) × (validate_packet_trace value ≡ erange)))
unfolding validate_rdp_trace validate_packet_trace
traces_read_back csp w value keeps switches = (
  elim (Bool-cases (ltb 2 value)) [
    | inl above ↦ inr (ground arith, rw above refl)
    | inr within ↦
        inl (ground arith, rw within refl, ap number (keeps w.router value (ground arith)))
  ],
  elim (Bool-cases (ltb 1 value)) [
    | inl above ↦ inr (ground arith, rw above refl)
    | inr within ↦
        let back = switches w.router (not (value == 0)) in
        inl (ground arith, rw within refl, ap number (rw back (ground arith)))
  ],
)
