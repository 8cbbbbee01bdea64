-- ===== src/Startup/Run.antt =====
-- `main` as the sequence of its stages.
use k_fsw.Base.{ℕ, List, [], ◌∷◌}
use k_fsw.Env.{Proc, pure, ◌>>=◌}
use k_fsw.Startup.Services.{StartupCall, StartupEnv, StartupConfig, Startup, Stage, at_entry}
use k_fsw.Startup.Storage.{watchdog_stage, radio_stage, storage_stage, boot_stage, param_stage}
use k_fsw.Startup.Link.{module_stage, router_stage, server_stage, remote_stage}
use k_fsw.Startup.Supervision.{hk_stage, monitor_stage, health_stage, final_stage, rounds}

abbrev pub in_order : List Stage → Stage
in_order [] s = pure s
in_order (stage ∷ stages) s = do s ← stage s; in_order stages s

module _ (c : StartupConfig) (env : StartupEnv) where
  abbrev pub stages : List Stage
  stages =
      watchdog_stage c env
      ∷ radio_stage c env
      ∷ storage_stage c env
      ∷ boot_stage c env
      ∷ param_stage c env
      ∷ module_stage c env
      ∷ router_stage c env
      ∷ server_stage c env
      ∷ remote_stage c env
      ∷ hk_stage c env
      ∷ monitor_stage c env
      ∷ health_stage c env
      ∷ final_stage c env
      ∷ []

  -- `main`, with the first `n` rounds of its loop.
  abbrev pub main : ℕ → Proc StartupCall Startup
  main n = in_order stages at_entry >>= rounds c env n
