-- ===== src/Startup/Storage.antt =====
-- `main`, from the watchdog to the parameters: what runs before any service.
use k_fsw.Base.{ℕ, Bool, false, not, ◌&&◌, if◌then◌else◌, ℤ, is_ok, ◌==ℤ◌, ◌==◌, enodev, enoent}
use k_fsw.Env.{Proc, pure, ◌>>=◌, ◌>>◌, call, tell, recall}
use k_fsw.Startup.Services.{
  StartupCall, StartupEnv, StartupConfig, Startup, Stage, under, counted_error, tried, attempt,
  invoke, sleep_ms, platform_watchdog_init, platform_watchdog_start, radio_uhf_get_info,
  storage_init, storage_mount, storage_tmp_mount, boot_diagnostics_start, boot_confirm_image,
  param_init, param_persist_load, boot_count_restart, param_persist_save,
}

module _ (c : StartupConfig) (env : StartupEnv) where
  -- Behind the initialization of the watchdog; no device is not a failure.
  abbrev watchdog_ready : Startup → ℤ → Proc StartupCall Startup
  watchdog_ready s result =
      if result ==ℤ enodev
      then pure s
      else if not (is_ok result)
      then counted_error result s
      else under c.watchdog_auto_start (attempt env platform_watchdog_start) s

  unfoldable pub watchdog_stage : Stage
  watchdog_stage =
      under c.watchdog
        (λ s. do result ← call env.result (invoke platform_watchdog_init); watchdog_ready s result)

  unfoldable pub radio_stage : Stage
  radio_stage = under c.radio_uhf (attempt env radio_uhf_get_info)

  -- Initialized, and then mounted; the failure of either counts once.
  unfoldable pub storage_stage : Stage
  storage_stage = under c.storage (tried env storage_init (attempt env storage_mount))

  unfoldable pub boot_stage : Stage
  boot_stage s = do
    s ← under c.boot_diagnostics (attempt env boot_diagnostics_start) s
    s ← under c.boot_confirm_at_start (attempt env boot_confirm_image) s
    under c.storage_tmp (attempt env storage_tmp_mount) s

  abbrev boot_delay : Startup → ℕ → Proc StartupCall Startup
  boot_delay s delay = if delay == 0 then pure s else (do tell (sleep_ms delay); pure s)

  -- The restart is counted, and saved if there was a snapshot; then the boot delay is kept.
  unfoldable pub restart_counted : Bool → Stage
  restart_counted had_snapshot s = do
    tell (invoke boot_count_restart)
    s ← under had_snapshot (attempt env param_persist_save) s
    delay ← recall env.boot_delay_ms
    boot_delay s delay

  -- Behind the load of the snapshot; none is not a failure.
  unfoldable pub snapshot_loaded : Startup → ℤ → Proc StartupCall Startup
  unfolding restart_counted
  snapshot_loaded s result = do
    s ← under (not (result ==ℤ enoent) && not (is_ok result)) (counted_error result) s
    restart_counted (is_ok result) s

  unfoldable pub param_ready : Stage
  unfolding restart_counted snapshot_loaded
  param_ready s =
      if c.param_persistence
      then (do result ← call env.result (invoke param_persist_load); snapshot_loaded s result)
      else restart_counted false s

  unfoldable pub param_stage : Stage
  unfolding param_ready
  param_stage = under c.param (tried env param_init param_ready)
