-- ===== src/Startup/Tests.antt =====
-- A start-up in which CSP fails, and one in which everything is answered with success.
use k_fsw.Base.{◌≡◌, refl, true, false, List, [], ◌∷◌, ℤ, ok, enodev, enoent, eio}
use k_fsw.Startup.Services
use k_fsw.Startup.Services.{
  StartupConfig, StartupEnv, StartupCall, Startup, invoke, log_error, log_marker, sleep_ms,
  health_report,
}
use k_fsw.Startup.Run.{main}
use k_fsw.Startup.Order.{Orderly}
use k_fsw.Startup.Order.Main.{main-Orderly}
use k_fsw.Startup.Storage.{
  watchdog_stage, radio_stage, storage_stage, boot_stage, param_stage, param_ready, snapshot_loaded,
  restart_counted,
}
use k_fsw.Startup.Link.{module_stage, csp_ready, router_stage, server_stage, remote_stage}
use k_fsw.Startup.Supervision.{
  hk_ready, hk_stage, monitor_stage, health_stage, final_stage, round, rounds,
}

-- Watchdog, parameters with persistence, CSP with its command server, and health.
abbrev small : StartupConfig
small = record {
  watchdog = true;
  watchdog_auto_start = true;
  radio_uhf = false;
  radio_uhf_crypto = false;
  storage = false;
  storage_tmp = false;
  boot_diagnostics = false;
  boot_confirm_at_start = false;
  param = true;
  param_persistence = true;
  param_csp = false;
  button_test = false;
  fbo = false;
  temperature_example = false;
  command = false;
  csp = true;
  log_remote = false;
  fwu_files = false;
  ftp = false;
  fwu_lite_csp = false;
  remexec = true;
  command_csp = true;
  hk = false;
  hk_csp = false;
  resmon = false;
  scrub = false;
  limits = false;
  gndwdt = false;
  health = true;
  csp_liveness = false;
  debug_shell = false;
  lastwords = false;
  native_sim = false;
  journal = false;
  health_deadline_ms = 4000;
}

-- No watchdog device, no snapshot, and no router.
abbrev poor : List StartupCall → StartupCall → ℤ
poor _ (invoke Services.platform_watchdog_init) = enodev
poor _ (invoke Services.param_persist_load) = enoent
poor _ (invoke Services.csp_start) = eio
poor _ _ = ok

abbrev poor_services : StartupEnv
poor_services = record {
  result = poor;
  boot_delay_ms = λ h. 0;
  app_report_ms = λ h. 1000;
  last_load_error = λ h. ok;
  handle = λ h. 2;
}

-- No server is started, the snapshot is not saved, and the one failure is logged.
without_router :
    (main small poor_services 1 []).1
    ≡ sleep_ms 1000
      ∷ health_report 2
      ∷ invoke Services.boot_service_start
      ∷ log_marker 1
      ∷ invoke Services.health_start
      ∷ invoke Services.health_register
      ∷ invoke Services.remexec_init
      ∷ log_error eio
      ∷ invoke Services.csp_start
      ∷ invoke Services.csp_init
      ∷ invoke Services.csp_set_revision
      ∷ invoke Services.boot_count_restart
      ∷ invoke Services.param_persist_load
      ∷ invoke Services.param_init
      ∷ invoke Services.platform_watchdog_init
      ∷ []
unfolding watchdog_stage radio_stage storage_stage boot_stage param_stage param_ready
    snapshot_loaded restart_counted module_stage csp_ready router_stage server_stage remote_stage
    hk_ready hk_stage monitor_stage health_stage final_stage round rounds
without_router = refl

main-Orderly_example :
    Orderly poor_services (main small poor_services 1 []).0 (main small poor_services 1 []).1
main-Orderly_example = main-Orderly small poor_services 1
