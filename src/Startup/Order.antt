-- ===== src/Startup/Order.antt =====
-- What the history of `main` looks like: a call that rests on another comes after a success of it,
-- and every failure that is counted is logged.
pub mod Stages
pub mod Main
use k_fsw.Base.{
  ℕ, zero, suc, ◌+◌, ◌%◌, ◌≡◌, refl, Bool, true, false, ◌&&◌, ◌||◌, not, List, [], ◌∷◌, arith,
  if◌then◌else◌, ◌==◌, ℤ, is_ok, ◌==ℤ◌, All,
}
use k_fsw.Env.{Proc, pure, ◌>>=◌, ◌>>◌, tell}
use k_fsw.Startup.Services
use k_fsw.Startup.Services.{
  StartupCall, StartupEnv, StartupConfig, Startup, Stage, under, attempt, tried, at_entry,
  log_marker, Service, invoke, log_error, health_report,
}
use k_fsw.Startup.Storage.{
  watchdog_stage, radio_stage, storage_stage, boot_stage, param_stage, param_ready, snapshot_loaded,
  restart_counted,
}
use k_fsw.Startup.Link.{module_stage, csp_ready, router_stage, server_stage, remote_stage}
use k_fsw.Startup.Run.{in_order, stages, main}
use k_fsw.Startup.Supervision.{
  hk_ready, hk_stage, monitor_stage, health_stage, final_stage, round, rounds,
}

-- The services that other calls rest on, numbered from 1.
abbrev pub milestone : Service → ℕ
milestone Services.platform_watchdog_init = 1
milestone Services.storage_init = 2
milestone Services.param_init = 3
milestone Services.param_persist_load = 4
milestone Services.csp_init = 5
milestone Services.csp_start = 6
milestone Services.ftp_init = 7
milestone Services.remexec_init = 8
milestone Services.hk_init = 9
milestone Services.health_register = 10
milestone _ = 0

-- The milestones that a call rests on.
abbrev pub needs : StartupCall → List ℕ
needs (invoke Services.platform_watchdog_start) = 1 ∷ []
needs (invoke Services.storage_mount) = 2 ∷ []
needs (invoke Services.param_persist_load) = 3 ∷ []
needs (invoke Services.boot_count_restart) = 3 ∷ []
needs (invoke Services.param_persist_save) = 3 ∷ 4 ∷ []
needs (invoke Services.param_server_start) = 5 ∷ []
needs (invoke Services.csp_start) = 5 ∷ []
needs (invoke Services.radio_uhf_crypto_connect) = 6 ∷ []
needs (invoke Services.log_remote_server_start) = 6 ∷ []
needs (invoke Services.ftp_init) = 6 ∷ []
needs (invoke Services.ftp_start) = 6 ∷ 7 ∷ []
needs (invoke Services.fwu_lite_server_start) = 6 ∷ []
needs (invoke Services.remexec_server_start) = 6 ∷ 8 ∷ []
needs (invoke Services.command_server_start) = 6 ∷ []
needs (invoke Services.hk_start) = 9 ∷ []
needs (invoke Services.hk_server_start) = 6 ∷ 9 ∷ []
needs (health_report _) = 10 ∷ []
needs _ = []

abbrev is_milestone : ℕ → StartupCall → Bool
is_milestone m (invoke service) = milestone service == m
is_milestone m _ = false

abbrev is_error : StartupCall → ℕ
is_error (log_error _) = 1
is_error _ = 0

-- How many errors were logged.
abbrev pub errors : List StartupCall → ℕ
errors [] = 0
errors (k ∷ h) = is_error k + errors h

module _ (env : StartupEnv) where
  -- Some call of the milestone has returned 0.
  abbrev pub reached : ℕ → List StartupCall → Bool
  reached m [] = false
  reached m (k ∷ h) = (is_milestone m k && is_ok (env.result h k)) || reached m h

  abbrev all_reached : List ℕ → List StartupCall → Bool
  all_reached [] h = true
  all_reached (m ∷ ms) h = reached m h && all_reached ms h

  -- Each call comes after a success of all that it rests on.
  abbrev pub ordered : List StartupCall → Bool
  ordered [] = true
  ordered (k ∷ h) = all_reached (needs k) h && ordered h

  -- The order; the count of failures; and what `csp_started` and `health_watching` stand for.
  pub record Orderly (s : Startup) (h : List StartupCall) : Type 0 where
    pub order : ordered h ≡ true
    pub logged : s.failures ≡ errors h % 4294967296
    pub router : s.csp_started ≡ reached 6 h
    pub watched : s.health_watching ≡ reached 10 h

module _ (env : StartupEnv) where
  -- A stage keeps the history orderly.
  abbrev pub Keeps : Stage → Type 0
  Keeps stage =
      (s : Startup) (h : List StartupCall)
      → Orderly env s h
      → Orderly env (stage s h).0 (stage s h).1

  pub then-Keeps : (a b : Stage) → Keeps a → Keeps b → Keeps (λ s. a s >>= b)
  then-Keeps a b ka kb s h k = kb (a s h).0 (a s h).1 (ka s h k)

  pub under-Keeps : (option : Bool) (stage : Stage) → Keeps stage → Keeps (under option stage)
  under-Keeps true stage kept s h k = kept s h k
  under-Keeps false stage kept s h k = k

  -- A service that rests on nothing and whose success nothing is told by.
  abbrev pub IsPlain : Service → Type 0
  IsPlain service =
      (needs (invoke service) ≡ [])
      × ((milestone service == 6) ≡ false)
      × ((milestone service == 10) ≡ false)

  pub attempt-Keeps : (service : Service) → IsPlain service → Keeps (attempt env service)
  attempt-Keeps service plain s h k =
      let free : all_reached env (needs (invoke service)) h ≡ true = rw plain.0 refl in
      record {
        order = ground (arith, k.order, free);
        logged = ground (arith, k.logged);
        router = ground (arith, k.router, plain.1);
        watched = ground (arith, k.watched, plain.2);
      }

  pub tell-Keeps :
      (service : Service) → IsPlain service → Keeps (λ s. tell (invoke service) >> pure s)
  tell-Keeps service plain s h k = record {
    order = rw plain.0 k.order;
    logged = omega (arith, k.logged);
    router = rw plain.1 k.router;
    watched = rw plain.2 k.watched;
  }

  -- An attempt under an option of the build.
  pub optional-Keeps :
      (option : Bool) (service : Service)
      → IsPlain service
      → Keeps (under option (attempt env service))
  optional-Keeps option service plain =
      under-Keeps option (attempt env service) (attempt-Keeps service plain)
