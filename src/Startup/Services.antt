-- ===== src/Startup/Services.antt =====
-- The services that `main` calls, what they answer, and how a result is counted.
use k_fsw.Base.{ℕ, ◌+◌, ◌%◌, Bool, false, List, if◌then◌else◌, ℤ, is_ok}
use k_fsw.Env.{Proc, pure, ◌>>=◌, ◌>>◌, call, tell}

-- One constructor for each function that `main` calls, by its name without `kfsw_`.
pub data Service : Type 0 where
  platform_watchdog_init platform_watchdog_start : Service
  radio_uhf_get_info : Service
  storage_init storage_mount storage_tmp_mount : Service
  boot_diagnostics_start boot_confirm_image : Service
  param_init param_persist_load boot_count_restart param_persist_save : Service
  button_test_init fbo_init temp_example_init command_init : Service
  csp_set_revision radio_uhf_crypto_init csp_init param_server_start csp_start : Service
  radio_uhf_crypto_connect : Service
  log_remote_server_start fwu_files_mount ftp_init ftp_start fwu_lite_server_start : Service
  remexec_init remexec_server_start command_server_start : Service
  hk_init hk_start hk_server_start : Service
  resmon_start scrub_start limits_init gndwdt_start : Service
  health_register csp_liveness_start health_start : Service
  shell_prompt_apply shell_echo_apply lastwords_watch_supply clock_from_host : Service
  journal_start boot_service_start : Service

-- A call of a service, an error line with its result, the line `@SERVICES` with the count of
-- failures, a sleep, and a report to health.
pub data StartupCall : Type 0 where
  invoke : Service → StartupCall
  log_error : ℤ → StartupCall
  log_marker : ℕ → StartupCall
  sleep_ms : ℕ → StartupCall
  health_report : ℕ → StartupCall

-- What the services answer: the result of a call, the values of table 2, the error of the
-- housekeeping restore, and the handle of the registration.
pub record StartupEnv : Type 0 where
  pub result : List StartupCall → StartupCall → ℤ
  pub boot_delay_ms : List StartupCall → ℕ
  pub app_report_ms : List StartupCall → ℕ
  pub last_load_error : List StartupCall → ℤ
  pub handle : List StartupCall → ℕ

-- The options of the build that `main` tests.
pub record StartupConfig : Type 0 where
  pub watchdog : Bool
  pub watchdog_auto_start : Bool
  pub radio_uhf : Bool
  pub radio_uhf_crypto : Bool
  pub storage : Bool
  pub storage_tmp : Bool
  pub boot_diagnostics : Bool
  pub boot_confirm_at_start : Bool
  pub param : Bool
  pub param_persistence : Bool
  pub param_csp : Bool
  pub button_test : Bool
  pub fbo : Bool
  pub temperature_example : Bool
  pub command : Bool
  pub csp : Bool
  pub log_remote : Bool
  pub fwu_files : Bool
  pub ftp : Bool
  pub fwu_lite_csp : Bool
  pub remexec : Bool
  pub command_csp : Bool
  pub hk : Bool
  pub hk_csp : Bool
  pub resmon : Bool
  pub scrub : Bool
  pub limits : Bool
  pub gndwdt : Bool
  pub health : Bool
  pub csp_liveness : Bool
  pub debug_shell : Bool
  pub lastwords : Bool
  pub native_sim : Bool
  pub journal : Bool
  pub health_deadline_ms : ℕ

-- The variables of `main` that later stages read.
pub record Startup : Type 0 where
  pub failures : ℕ
  pub csp_started : Bool
  pub health_handle : ℕ
  pub health_watching : Bool

abbrev pub at_entry : Startup
at_entry = record { failures = 0; csp_started = false; health_handle = 0; health_watching = false }

-- A part of `main`.
abbrev pub Stage : Type 0
Stage = Startup → Proc StartupCall Startup

-- `startup_failures++`, on a `uint32_t`.
abbrev pub failed : Startup → Startup
failed s = record s { failures = (s.failures + 1) % 4294967296 }

-- Under an option of the build.
abbrev pub under : Bool → Stage → Stage
under option stage s = if option then stage s else pure s

-- A failure that is counted and logged.
abbrev pub counted_error : ℤ → Stage
counted_error result s = do tell (log_error result); pure (failed s)

module _ (env : StartupEnv) where
  -- `result = kfsw_…(); if (result != 0) { startup_failures++; kfsw_log_error(…); } else { … }`
  abbrev pub tried : Service → Stage → Stage
  tried service next s = do
    result ← call env.result (invoke service)
    if is_ok result then next s else counted_error result s

  abbrev pub attempt : Service → Stage
  attempt service = tried service pure
