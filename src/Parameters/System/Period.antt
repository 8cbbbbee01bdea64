-- ===== src/Parameters/System/Period.antt =====
-- The default of the report period against the health deadline.
use k_fsw.Base.{◌*◌, ◌≤◌, ◌<◌, ◌≡◌, true, arith, ok}
use k_fsw.Parameters.System.{SystemConfig, validate_app_report_ms, initial}

-- With a deadline from 4 ms to 262143 ms the compiled default passes its own validator, and two
-- of it are less than the deadline.
app_report_ms_default_accepted :
    (c : SystemConfig)
    → c.health ≡ true
    → 4 ≤ c.deadline_ms
    → c.deadline_ms ≤ 262143
    → (validate_app_report_ms c (initial c).app_report_ms ≡ ok)
      × (2 * (initial c).app_report_ms < c.deadline_ms)
unfolding validate_app_report_ms
app_report_ms_default_accepted c h lo hi = rw h (ground arith, ground arith)
