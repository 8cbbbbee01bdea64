-- ===== src/Startup/Link.antt =====
-- `main`, from the commands to the servers on CSP.
use k_fsw.Base.{true, if◌then◌else◌}
use k_fsw.Env.{pure, ◌>>=◌, ◌>>◌, tell}
use k_fsw.Startup.Services.{
  StartupEnv, StartupConfig, Stage, under, tried, attempt, invoke, button_test_init, fbo_init,
  temp_example_init, command_init, csp_set_revision, radio_uhf_crypto_init, csp_init,
  param_server_start, csp_start, radio_uhf_crypto_connect, log_remote_server_start, fwu_files_mount,
  ftp_init, ftp_start, fwu_lite_server_start, remexec_init, remexec_server_start,
  command_server_start,
}

module _ (c : StartupConfig) (env : StartupEnv) where
  unfoldable pub module_stage : Stage
  module_stage s = do
    s ← under c.button_test (attempt env button_test_init) s
    s ← under c.fbo (attempt env fbo_init) s
    s ← under c.temperature_example (attempt env temp_example_init) s
    under c.command (attempt env command_init) s

  -- `csp_started = true`, and the keys of the radio.
  abbrev router_started : Stage
  router_started s =
      if c.radio_uhf_crypto
      then (do tell (invoke radio_uhf_crypto_connect); pure (record s { csp_started = true }))
      else pure (record s { csp_started = true })

  -- With CSP initialized: the parameter server, and then the router whatever came of it.
  unfoldable pub csp_ready : Stage
  csp_ready s = do
    s ← under c.param_csp (attempt env param_server_start) s
    tried env csp_start router_started s

  unfoldable pub router_stage : Stage
  unfolding csp_ready
  router_stage = under c.csp (λ s. do
    tell (invoke csp_set_revision)
    s ← under c.radio_uhf_crypto (attempt env radio_uhf_crypto_init) s
    tried env csp_init csp_ready s)

  -- `if (csp_started) { … }`
  abbrev pub if_started : Stage → Stage
  if_started stage s = under s.csp_started stage s

  -- The servers. A part of the files is mounted, and the allowlist adopted, without CSP too.
  unfoldable pub server_stage : Stage
  server_stage = under c.csp (λ s. do
    s ← under c.log_remote (if_started (attempt env log_remote_server_start)) s
    s ← under c.fwu_files (attempt env fwu_files_mount) s
    under c.ftp (if_started (tried env ftp_init (attempt env ftp_start))) s)

  unfoldable pub remote_stage : Stage
  remote_stage = under c.csp (λ s. do
    s ← under c.fwu_lite_csp (if_started (attempt env fwu_lite_server_start)) s
    s ← under c.remexec (tried env remexec_init (if_started (attempt env remexec_server_start))) s
    under c.command_csp (if_started (attempt env command_server_start)) s)
