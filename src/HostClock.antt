-- ===== src/HostClock.antt =====
-- app/src/clock_host.c: a native node takes the time of its host.
use k_fsw.Base.{ℕ, Bool, not, ◌++◌, if◌then◌else◌, ℤ, ok, is_ok}
use k_fsw.Text.{Bytes, codes, signed}
use k_fsw.Env.{Proc, pure, ◌>>=◌, ◌>>◌, call, tell, recall}
use k_fsw.Base.{List}

-- The calls of the communication module and the log.
pub data ClockCall : Type 0 where
  clock_set : ℤ → ℕ → ClockCall
  log_warning : Bytes → ClockCall

-- The host's time as `hwtimer_get_pseudohost_rtc_time` gives it, the conversion of its seconds to
-- int32_t, `kfsw_csp_clock_is_set`, and the result of setting the clock.
pub record Host : Type 0 where
  pub seconds : List ClockCall → ℕ
  pub nanoseconds : List ClockCall → ℕ
  pub to_int32 : ℕ → ℤ
  pub clock_is_set : ℤ → ℕ → Bool
  pub result : List ClockCall → ClockCall → ℤ

module _ (env : Host) where
  abbrev clock_taken : ℤ → Proc ClockCall ℤ
  clock_taken result =
      if not (is_ok result)
      then (do
        tell (log_warning (codes "Could not take the host clock: " ++ signed result))
        pure ok)
      else pure ok

  abbrev take_time : ℕ → ℕ → Proc ClockCall ℤ
  take_time seconds nanoseconds =
      if not (env.clock_is_set (env.to_int32 seconds) nanoseconds)
      then (do tell (log_warning (codes "Host clock unavailable; this node has no time")); pure ok)
      else call env.result (clock_set (env.to_int32 seconds) nanoseconds) >>= clock_taken

  unfoldable pub clock_from_host : Proc ClockCall ℤ
  clock_from_host = do
    seconds ← recall env.seconds
    nanoseconds ← recall env.nanoseconds
    take_time seconds nanoseconds
