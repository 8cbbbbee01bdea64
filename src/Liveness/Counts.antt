-- ===== src/Liveness/Counts.antt =====
-- What holds however often the start and the probe run: the counters against the calls made.
use k_fsw.Base.{ℕ, ◌+◌, ◌≤◌, ◌≡◌, refl, ◌⊎◌, inr, Bool, true, false, List, [], ◌∷◌, arith}
use k_fsw.Liveness.{
  LivenessConfig, LivenessCall, LivenessEnv, Liveness, health_report, warn_failed, uint32_max,
  unstarted, work_handler, start,
}

abbrev is_report : LivenessCall → ℕ
is_report (health_report _) = 1
is_report _ = 0

abbrev is_warning : LivenessCall → ℕ
is_warning (warn_failed _) = 1
is_warning _ = 0

-- How many of the calls are reports to health, and how many are warnings.
abbrev pub reports : List LivenessCall → ℕ
reports [] = 0
reports (c ∷ cs) = is_report c + reports cs

abbrev pub warnings : List LivenessCall → ℕ
warnings [] = 0
warnings (c ∷ cs) = is_warning c + warnings cs

module _ (c : LivenessConfig) (env : LivenessEnv) where
  -- The states and histories that runs lead to. The probe is only ever scheduled by a start that
  -- has succeeded.
  pub data Reach : Liveness → List LivenessCall → Type 0 where
    boot : Reach unstarted []
    starts :
        {s : Liveness} {h : List LivenessCall}
        → Reach s h
        → Reach (start c env s h).0.1 (start c env s h).1
    probes :
        {s : Liveness} {h : List LivenessCall}
        → Reach s h
        → s.registered ≡ true
        → Reach (work_handler c env s h).0 (work_handler c env s h).1

abbrev once : Bool → ℕ
once true = 1
once false = 0

-- The counters are bounded and ordered. While neither has reached its bound, the failures are
-- exactly the warnings given, and every probe that has not failed has reported to health once,
-- besides the one report of the start.
pub record Counted (s : Liveness) (h : List LivenessCall) : Type 0 where
  pub bounded : s.probes ≤ uint32_max
  pub ordered : s.failures ≤ s.probes
  pub warned : (s.probes ≡ uint32_max) ⊎ (s.failures ≡ warnings h)
  pub reported : (s.probes ≡ uint32_max) ⊎ (reports h + s.failures ≡ s.probes + once s.registered)

start-Counted :
    (c : LivenessConfig) (env : LivenessEnv) (s : Liveness) (h : List LivenessCall)
    → Counted s h
    → Counted (start c env s h).0.1 (start c env s h).1
unfolding start
start-Counted c env s h k = record {
  bounded = ground (arith, k.bounded);
  ordered = ground (arith, k.ordered);
  warned = ground (arith, k.warned);
  reported = ground (arith, k.reported);
}

work_handler-Counted :
    (c : LivenessConfig) (env : LivenessEnv) (s : Liveness) (h : List LivenessCall)
    → Counted s h
    → Counted (work_handler c env s h).0 (work_handler c env s h).1
unfolding work_handler
work_handler-Counted c env s h k = record {
  bounded = ground (arith, k.bounded);
  ordered = ground (arith, k.ordered);
  warned = ground (arith, k.warned, k.ordered, k.bounded);
  reported = ground (arith, k.reported, k.ordered, k.bounded);
}

-- However often the start and the probe run, the counters are bounded and ordered. While the probe
-- count has not reached its bound, the failures are the warnings given, and every probe that has
-- not failed has reported to health once, besides the report of the start.
pub Reach-Counted :
    (c : LivenessConfig) (env : LivenessEnv) {s : Liveness} {h : List LivenessCall}
    → Reach c env s h
    → Counted s h
Reach-Counted c env boot = record {
  bounded = omega arith;
  ordered = omega arith;
  warned = inr refl;
  reported = inr refl;
}
Reach-Counted c env (starts {s} {h} r) = start-Counted c env s h (Reach-Counted c env r)
Reach-Counted c env (probes {s} {h} r on) = work_handler-Counted c env s h (Reach-Counted c env r)
