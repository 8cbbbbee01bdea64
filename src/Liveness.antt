-- ===== src/Liveness.antt =====
-- app/src/csp_liveness.c: a probe of the CSP router that reports to health while it succeeds.
pub mod Counts
pub mod Scheduled
mod Tests
use k_fsw.Base.{ℕ, ◌+◌, Bool, true, false, ltb, if◌then◌else◌, ℤ, ok, is_ok, ealready, List}
use k_fsw.Env.{Proc, pure, ◌>>=◌, ◌>>◌, call, tell, recall}

-- CONFIG_KFSW_CSP_LIVENESS_TIMEOUT_MS, _PERIOD_MS and _DEADLINE_MS.
pub record LivenessConfig : Type 0 where
  pub timeout_ms : ℕ
  pub period_ms : ℕ
  pub deadline_ms : ℕ

abbrev pub uint32_max : ℕ
uint32_max = 4294967295

abbrev pub payload_size : ℕ
payload_size = 1

-- The calls of the file: `kfsw_csp_ping`, `kfsw_health_register`, `kfsw_health_report`, the
-- warning, and `k_work_reschedule`.
pub data LivenessCall : Type 0 where
  ping : ℕ → ℕ → ℕ → LivenessCall
  health_register : ℕ → LivenessCall
  health_report : ℕ → LivenessCall
  warn_failed : ℤ → LivenessCall
  reschedule : ℕ → LivenessCall

-- What the other services answer: this node's address, a result, and the handle that a
-- registration gives.
pub record LivenessEnv : Type 0 where
  pub address : List LivenessCall → ℕ
  pub result : List LivenessCall → LivenessCall → ℤ
  pub handle : List LivenessCall → ℕ

-- The statics of the file.
pub record Liveness : Type 0 where
  pub handle : ℕ
  pub registered : Bool
  pub probes : ℕ
  pub failures : ℕ

abbrev pub unstarted : Liveness
unstarted = record { handle = 0; registered = false; probes = 0; failures = 0 }

-- `if (counter < UINT32_MAX) counter++;`
abbrev pub counted : ℕ → ℕ
counted n = if ltb n uint32_max then n + 1 else n

module _ (c : LivenessConfig) (env : LivenessEnv) where
  -- `liveness_work_handler`, after the ping.
  unfoldable pub after_ping : Liveness → ℤ → Proc LivenessCall Liveness
  after_ping s result =
      if is_ok result
      then (do tell (health_report s.handle); pure (record s { probes = counted s.probes }))
      else (do
        tell (warn_failed result)
        pure (record s { probes = counted s.probes; failures = counted s.failures }))

  -- `liveness_work_handler`
  unfoldable pub work_handler : Liveness → Proc LivenessCall Liveness
  unfolding after_ping
  work_handler s = do
    address ← recall env.address
    result ← call env.result (ping address c.timeout_ms payload_size)
    s' ← after_ping s result
    tell (reschedule c.period_ms)
    pure s'

  -- `kfsw_csp_liveness_start`, behind the registration, which is given the handle to write.
  unfoldable pub registered_with : Liveness → ℤ → Proc LivenessCall (ℤ × Liveness)
  registered_with s result =
      if is_ok result
      then (do
        tell (health_report s.handle)
        tell (reschedule c.period_ms)
        pure (ok, record s { registered = true }))
      else pure (result, s)

  -- `kfsw_csp_liveness_start`
  unfoldable pub start : Liveness → Proc LivenessCall (ℤ × Liveness)
  unfolding registered_with
  start s = if s.registered then pure (ealready, s) else (do
    handle ← recall env.handle
    result ← call env.result (health_register c.deadline_ms)
    registered_with (record s { handle = handle }) result)

-- `kfsw_csp_liveness_get_counters`, with both pointers given.
unfoldable pub get_counters : Liveness → ℕ × ℕ
get_counters s = (s.probes, s.failures)
