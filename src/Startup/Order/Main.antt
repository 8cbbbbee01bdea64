-- ===== src/Startup/Order/Main.antt =====
-- The other stages of `main`, and `main` itself.
use k_fsw.Base.{ℕ, zero, suc, refl, ◌&&◌, List, [], ◌∷◌, arith, All}
use k_fsw.Env.{pure, ◌>>◌, tell}
use k_fsw.Startup.Services
use k_fsw.Startup.Services.{
  StartupCall, StartupEnv, StartupConfig, Startup, Stage, under, attempt, tried, at_entry,
  log_marker, Service, invoke, log_error, health_report,
}
use k_fsw.Startup.Storage.{boot_stage}
use k_fsw.Startup.Link.{module_stage, csp_ready, router_stage}
use k_fsw.Startup.Run.{in_order, stages, main}
use k_fsw.Startup.Supervision.{monitor_stage, final_stage, round, rounds}
use k_fsw.Startup.Order.{Orderly, Keeps, then-Keeps, under-Keeps, tell-Keeps, optional-Keeps}
use k_fsw.Startup.Order.Stages.{
  watchdog_stage-Keeps, radio_stage-Keeps, storage_stage-Keeps, param_stage-Keeps,
  server_stage-Keeps, remote_stage-Keeps, hk_stage-Keeps, health_stage-Keeps, round-Keeps,
}

module _ (c : StartupConfig) (env : StartupEnv) where
  boot_stage-Keeps : Keeps env (boot_stage c env)
  unfolding boot_stage
  boot_stage-Keeps =
      then-Keeps env _ _
        (optional-Keeps env c.boot_diagnostics Services.boot_diagnostics_start (refl, refl, refl))
        (then-Keeps env _ _
          (optional-Keeps env c.boot_confirm_at_start Services.boot_confirm_image
            (refl, refl, refl))
          (optional-Keeps env c.storage_tmp Services.storage_tmp_mount (refl, refl, refl)))

  module_stage-Keeps : Keeps env (module_stage c env)
  unfolding module_stage
  module_stage-Keeps =
      then-Keeps env _ _
        (optional-Keeps env c.button_test Services.button_test_init (refl, refl, refl))
        (then-Keeps env _ _ (optional-Keeps env c.fbo Services.fbo_init (refl, refl, refl)) (
          then-Keeps env _ _
            (optional-Keeps env c.temperature_example Services.temp_example_init (refl, refl, refl))
            (optional-Keeps env c.command Services.command_init (refl, refl, refl))))

  monitor_stage-Keeps : Keeps env (monitor_stage c env)
  unfolding monitor_stage
  monitor_stage-Keeps =
      then-Keeps env _ _ (optional-Keeps env c.resmon Services.resmon_start (refl, refl, refl)) (
        then-Keeps env _ _ (optional-Keeps env c.scrub Services.scrub_start (refl, refl, refl)) (
          then-Keeps env _ _ (optional-Keeps env c.limits Services.limits_init (refl, refl, refl))
            (optional-Keeps env c.gndwdt Services.gndwdt_start (refl, refl, refl))))

  -- CSP itself: the router is started behind a success of the initialization.
  csp-Keeps : Keeps env (tried env Services.csp_init (csp_ready c env))
  unfolding csp_ready
  csp-Keeps s h k = record {
    order = ground (arith, k.order);
    logged = ground (arith, k.logged);
    router = ground (arith, k.router);
    watched = ground (arith, k.watched);
  }

  router_stage-Keeps : Keeps env (router_stage c env)
  unfolding router_stage
  router_stage-Keeps = under-Keeps env c.csp _ (
      then-Keeps env _ _ (tell-Keeps env Services.csp_set_revision (refl, refl, refl)) (
        then-Keeps env _ _
          (optional-Keeps env c.radio_uhf_crypto Services.radio_uhf_crypto_init (refl, refl, refl))
          csp-Keeps))

  marker-Keeps :
      Keeps env
        (λ s. tell (log_marker s.failures) >> (tell (invoke Services.boot_service_start) >> pure s))
  marker-Keeps s h k = record {
    order = k.order;
    logged = omega (arith, k.logged);
    router = k.router;
    watched = k.watched;
  }

  final_stage-Keeps : Keeps env (final_stage c env)
  unfolding final_stage
  final_stage-Keeps =
      then-Keeps env _ _
        (under-Keeps env c.debug_shell _
          (tell-Keeps env Services.shell_prompt_apply (refl, refl, refl)))
        (then-Keeps env _ _
          (under-Keeps env (c.debug_shell && c.command) _
            (tell-Keeps env Services.shell_echo_apply (refl, refl, refl)))
          (then-Keeps env _ _
            (under-Keeps env c.lastwords _
              (tell-Keeps env Services.lastwords_watch_supply (refl, refl, refl)))
            (then-Keeps env _ _
              (under-Keeps env (c.csp && c.native_sim) _
                (tell-Keeps env Services.clock_from_host (refl, refl, refl)))
              (then-Keeps env _ _
                (optional-Keeps env c.journal Services.journal_start (refl, refl, refl))
                marker-Keeps))))

  rounds-Keeps : (n : ℕ) → Keeps env (rounds c env n)
  unfolding rounds
  rounds-Keeps zero s h k = k
  rounds-Keeps (suc n) s h k =
      rounds-Keeps n (round c env s h).0 (round c env s h).1 (round-Keeps c env s h k)

  in_order-Keeps : (list : List Stage) → All (Keeps env) list → Keeps env (in_order list)
  in_order-Keeps [] all s h k = k
  in_order-Keeps (stage ∷ list) all s h k =
      in_order-Keeps list all.1 (stage s h).0 (stage s h).1 (all.0 s h k)

  stages-Keep : All (Keeps env) (stages c env)
  stages-Keep = (
    watchdog_stage-Keeps c env,
    (
      radio_stage-Keeps c env,
      (
        storage_stage-Keeps c env,
        (
          boot_stage-Keeps,
          (
            param_stage-Keeps c env,
            (
              module_stage-Keeps,
              (
                router_stage-Keeps,
                (
                  server_stage-Keeps c env,
                  (
                    remote_stage-Keeps c env,
                    (
                      hk_stage-Keeps c env,
                      (monitor_stage-Keeps, (health_stage-Keeps c env, (final_stage-Keeps, tt))),
                    ),
                  ),
                ),
              ),
            ),
          ),
        ),
      ),
    ),
  )

  at_entry-Orderly : Orderly env at_entry []
  at_entry-Orderly = record { order = refl; logged = refl; router = refl; watched = refl }

  -- In every build, whatever the services answer, and for any number of rounds of the loop: each
  -- call of main comes after a success of every call that it rests on, such as a server on CSP
  -- after the router, or the save of the snapshot after its load; the failures are the errors
  -- logged, modulo 2 ^ 32; and csp_started and health_watching are set exactly if the router was
  -- started and the registration succeeded.
  pub main-Orderly : (n : ℕ) → Orderly env (main c env n []).0 (main c env n []).1
  main-Orderly n =
      let before = in_order-Keeps (stages c env) stages-Keep at_entry [] at_entry-Orderly in
      rounds-Keeps n (in_order (stages c env) at_entry []).0 (in_order (stages c env) at_entry []).1
        before
