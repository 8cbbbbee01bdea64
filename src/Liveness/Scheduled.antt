-- ===== src/Liveness/Scheduled.antt =====
-- That the probe, once started, is always due again.
use k_fsw.Base.{ℕ, ◌+◌, ◌≡◌, refl, Bool, true, false, List, [], ◌∷◌, arith}
use k_fsw.Liveness.{
  LivenessConfig, LivenessCall, LivenessEnv, Liveness, ping, reschedule, work_handler, start,
}
use k_fsw.Liveness.Counts.{Reach, boot, starts, probes}

abbrev is_reschedule : LivenessCall → ℕ
is_reschedule (reschedule _) = 1
is_reschedule _ = 0

abbrev is_ping : LivenessCall → ℕ
is_ping (ping _ _ _) = 1
is_ping _ = 0

-- How often the work was scheduled, and how often it has run.
abbrev pub schedules : List LivenessCall → ℕ
schedules [] = 0
schedules (c ∷ cs) = is_reschedule c + schedules cs

abbrev pub runs : List LivenessCall → ℕ
runs [] = 0
runs (c ∷ cs) = is_ping c + runs cs

-- One run is due exactly while the probe is registered.
abbrev pub due : Bool → ℕ
due true = 1
due false = 0

module _ (c : LivenessConfig) (env : LivenessEnv) where
  start-due :
      (s : Liveness) (h : List LivenessCall)
      → schedules h ≡ runs h + due s.registered
      → let ((result, s'), h') = start c env s h in schedules h' ≡ runs h' + due s'.registered
  unfolding start
  start-due s h k = ground arith

  work_handler-due :
      (s : Liveness) (h : List LivenessCall)
      → schedules h ≡ runs h + due s.registered
      → let (s', h') = work_handler c env s h in schedules h' ≡ runs h' + due s'.registered
  unfolding work_handler
  work_handler-due s h k = ground arith

  -- However often the start and the probe run, the work was scheduled as often as it has run, and
  -- once more from the first start that succeeds: a registered probe is always due again, whatever
  -- the pings answer.
  pub Reach-due :
      {s : Liveness} {h : List LivenessCall}
      → Reach c env s h
      → schedules h ≡ runs h + due s.registered
  Reach-due boot = refl
  Reach-due (starts r) = start-due _ _ (Reach-due r)
  Reach-due (probes r up) = work_handler-due _ _ (Reach-due r)
