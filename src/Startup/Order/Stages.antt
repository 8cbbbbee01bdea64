-- ===== src/Startup/Order/Stages.antt =====
-- The stages of `main` in which a call rests on another, case by case.
use k_fsw.Base.{arith}
use k_fsw.Startup.Services.{StartupEnv, StartupConfig}
use k_fsw.Startup.Storage.{
  watchdog_stage, radio_stage, storage_stage, param_stage, param_ready, snapshot_loaded,
  restart_counted,
}
use k_fsw.Startup.Link.{server_stage, remote_stage}
use k_fsw.Startup.Supervision.{hk_ready, hk_stage, health_stage, round}
use k_fsw.Startup.Order.{Keeps}

module _ (c : StartupConfig) (env : StartupEnv) where
  pub watchdog_stage-Keeps : Keeps env (watchdog_stage c env)
  unfolding watchdog_stage
  watchdog_stage-Keeps s h k = record {
    order = ground (arith, k.order, k.router, k.watched);
    logged = ground (arith, k.logged);
    router = ground (arith, k.router);
    watched = ground (arith, k.watched);
  }

  pub radio_stage-Keeps : Keeps env (radio_stage c env)
  unfolding radio_stage
  radio_stage-Keeps s h k = record {
    order = ground (arith, k.order, k.router, k.watched);
    logged = ground (arith, k.logged);
    router = ground (arith, k.router);
    watched = ground (arith, k.watched);
  }

  pub storage_stage-Keeps : Keeps env (storage_stage c env)
  unfolding storage_stage
  storage_stage-Keeps s h k = record {
    order = ground (arith, k.order, k.router, k.watched);
    logged = ground (arith, k.logged);
    router = ground (arith, k.router);
    watched = ground (arith, k.watched);
  }

  pub param_stage-Keeps : Keeps env (param_stage c env)
  unfolding param_stage param_ready snapshot_loaded restart_counted
  param_stage-Keeps s h k = record {
    order = ground (arith, k.order, k.router, k.watched);
    logged = ground (arith, k.logged);
    router = ground (arith, k.router);
    watched = ground (arith, k.watched);
  }

  pub server_stage-Keeps : Keeps env (server_stage c env)
  unfolding server_stage
  server_stage-Keeps s h k = record {
    order = ground (arith, k.order, k.router, k.watched);
    logged = ground (arith, k.logged);
    router = ground (arith, k.router);
    watched = ground (arith, k.watched);
  }

  pub remote_stage-Keeps : Keeps env (remote_stage c env)
  unfolding remote_stage
  remote_stage-Keeps s h k = record {
    order = ground (arith, k.order, k.router, k.watched);
    logged = ground (arith, k.logged);
    router = ground (arith, k.router);
    watched = ground (arith, k.watched);
  }

  pub hk_stage-Keeps : Keeps env (hk_stage c env)
  unfolding hk_stage hk_ready
  hk_stage-Keeps s h k = record {
    order = ground (arith, k.order, k.router, k.watched);
    logged = ground (arith, k.logged);
    router = ground (arith, k.router);
    watched = ground (arith, k.watched);
  }

  pub health_stage-Keeps : Keeps env (health_stage c env)
  unfolding health_stage
  health_stage-Keeps s h k = record {
    order = ground (arith, k.order, k.router, k.watched);
    logged = ground (arith, k.logged);
    router = ground (arith, k.router);
    watched = ground (arith, k.watched);
  }

  pub round-Keeps : Keeps env (round c env)
  unfolding round
  round-Keeps s h k = record {
    order = ground (arith, k.order, k.router, k.watched);
    logged = ground (arith, k.logged);
    router = ground (arith, k.router);
    watched = ground (arith, k.watched);
  }
