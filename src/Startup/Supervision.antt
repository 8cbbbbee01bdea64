-- ===== src/Startup/Supervision.antt =====
-- `main`, from housekeeping to the marker line, and its loop.
use k_fsw.Base.{ℕ, zero, suc, ◌/◌, true, not, ◌&&◌, if◌then◌else◌, is_ok}
use k_fsw.Env.{pure, ◌>>=◌, ◌>>◌, tell, recall}
use k_fsw.Startup.Services.{
  Service, StartupEnv, StartupConfig, Stage, under, counted_error, tried, attempt, invoke,
  log_marker, sleep_ms, health_report, hk_init, hk_start, hk_server_start, resmon_start,
  scrub_start, limits_init, gndwdt_start, health_register, csp_liveness_start, health_start,
  shell_prompt_apply, shell_echo_apply, lastwords_watch_supply, clock_from_host, journal_start,
  boot_service_start,
}

module _ (c : StartupConfig) (env : StartupEnv) where
  -- Behind the initialization of housekeeping: a failed restore counts, and the service starts.
  unfoldable pub hk_ready : Stage
  hk_ready s = do
    error ← recall env.last_load_error
    s ← under (not (is_ok error)) (counted_error error) s
    s ← attempt env hk_start s
    under (c.hk_csp && s.csp_started) (attempt env hk_server_start) s

  unfoldable pub hk_stage : Stage
  unfolding hk_ready
  hk_stage = under c.hk (tried env hk_init hk_ready)

  unfoldable pub monitor_stage : Stage
  monitor_stage s = do
    s ← under c.resmon (attempt env resmon_start) s
    s ← under c.scrub (attempt env scrub_start) s
    s ← under c.limits (attempt env limits_init) s
    under c.gndwdt (attempt env gndwdt_start) s

  -- The handle that a registration gives, if it succeeds.
  abbrev registered : Stage
  registered s = do
    handle ← recall env.handle
    pure (record s { health_handle = handle; health_watching = true })

  unfoldable pub health_stage : Stage
  health_stage = under c.health (λ s. do
    s ← tried env health_register registered s
    s ← under c.csp_liveness (attempt env csp_liveness_start) s
    attempt env health_start s)

  -- A call whose result nobody reads.
  abbrev ignored : Service → Stage
  ignored service s = do tell (invoke service); pure s

  -- The end of the start-up: the shell, the supply watch, which is not counted, the clock, the
  -- journal and the marker.
  unfoldable pub final_stage : Stage
  final_stage s = do
    s ← under c.debug_shell (ignored shell_prompt_apply) s
    s ← under (c.debug_shell && c.command) (ignored shell_echo_apply) s
    s ← under c.lastwords (ignored lastwords_watch_supply) s
    s ← under (c.csp && c.native_sim) (ignored clock_from_host) s
    s ← under c.journal (attempt env journal_start) s
    tell (log_marker s.failures)
    ignored boot_service_start s

  abbrev reported : Stage
  reported s = do tell (health_report s.health_handle); pure s

  -- The sleep of one round.
  abbrev pause : Stage
  pause s = do
    period ← recall env.app_report_ms
    tell (
        sleep_ms
          (if c.health then (if c.param then period else c.health_deadline_ms / 4) else 60000))
    pure s

  -- One round of the endless loop.
  unfoldable pub round : Stage
  round s = do s ← under (c.health && s.health_watching) reported s; pause s

  -- The first rounds of the loop.
  unfoldable pub rounds : ℕ → Stage
  unfolding round
  rounds zero s = pure s
  rounds (suc n) s = do s ← round s; rounds n s
