-- ===== src/Liveness/Tests.antt =====
-- A run of the probe: a start that succeeds, a ping that answers and one that does not.
use k_fsw.Base.{◌+◌, ◌≡◌, refl, true, List, [], ◌∷◌, ℤ, ok, etimedout}
use k_fsw.Liveness.{
  LivenessConfig, LivenessCall, LivenessEnv, Liveness, ping, health_report, reschedule, unstarted,
  work_handler, start, get_counters,
}
use k_fsw.Liveness.Scheduled.{schedules, runs, due, Reach-due}
use k_fsw.Liveness.Counts.{boot, starts, probes, Counted, Reach-Counted}

abbrev periods : LivenessConfig
periods = record { timeout_ms = 100; period_ms = 1000; deadline_ms = 5000 }

-- The first ping answers, and none does after.
abbrev answers : List LivenessCall → LivenessCall → ℤ
answers (reschedule _ ∷ health_report _ ∷ ping _ _ _ ∷ _) (ping _ _ _) = etimedout
answers _ _ = ok

abbrev services : LivenessEnv
services = record { address = λ h. 7; result = answers; handle = λ h. 3 }

abbrev started : Liveness × List LivenessCall
started = ((start periods services unstarted []).0.1, (start periods services unstarted []).1)

abbrev probed : Liveness × List LivenessCall → Liveness × List LivenessCall
probed (s, h) = work_handler periods services s h

started-registered : started.0.registered ≡ true
unfolding start
started-registered = refl

probed-registered : (probed started).0.registered ≡ true
unfolding start work_handler
probed-registered = refl

two_probes : get_counters (probed (probed started)).0 ≡ (2, 1)
unfolding start work_handler get_counters
two_probes = refl

Reach-Counted_example : Counted (probed (probed started)).0 (probed (probed started)).1
Reach-Counted_example =
    Reach-Counted periods services
      (probes (probes (starts boot) started-registered) probed-registered)

Reach-due_example :
    schedules (probed (probed started)).1
    ≡ runs (probed (probed started)).1 + due (probed (probed started)).0.registered
Reach-due_example =
    Reach-due periods services (probes (probes (starts boot) started-registered) probed-registered)
