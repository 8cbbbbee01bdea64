-- ===== src/Shell/Guarded/Tests.antt =====
-- Commands on services that refuse everything, with the answer -EIO.
use k_fsw.Base.{ℕ, ℤ, false, ◌&&◌, some, [], ◌∷◌, ok, eio, pos}
use k_fsw.Text.{Bytes, codes, str_eq}
use k_fsw.Text.Strtoul.{strtoul}
use k_fsw.Shell.Service.{
  u32_arg, text_arg, command_invoke_args, fwu_begin, health_register, health_report,
  gndwdt_set_timeout_s, resmon_set_alert_percent, table_dump,
}
use k_fsw.Shell.{ShellParts}
use k_fsw.Shell.Fbo.{FboShell, at_utc, cmd_fbo_sched_add, cmd_fbo_sched_cancel}
use k_fsw.Shell.Fwu.{UpdateShell, cmd_fwu_begin}
use k_fsw.Shell.GroundWatchdog.{CountdownShell, cmd_gndwdt_timeout}
use k_fsw.Shell.Health.{HealthShell, cmd_health_watch, cmd_health_report}
use k_fsw.Shell.Resmon.{ResmonShell, cmd_resmon_alert}
use k_fsw.Shell.Tables.{TableShell, cmd_table_dump}
use k_fsw.Shell.Guarded.{Guarded, in_range}
use k_fsw.Shell.Guarded.Services.{is_u32, service_commands-Guarded}

abbrev read_number : Bytes → ℕ × ℤ
read_number text = ((strtoul 64 text).value, ok)

abbrev parts : ShellParts
parts = record { strtoul = read_number; broadcast_address = 31 }

abbrev fbo : FboShell
fbo = record {
  parts = parts;
  state_scheduled = 0;
  state_running = 1;
  state_completed = 2;
  state_failed = 3;
  state_overdue = 4;
  state_cancelled = 5;
  result = λ h c. eio;
  reply = λ h. record { status_name = codes "invalid"; detail = [] };
  entry = λ h. record { index = 0; due = at_utc (pos 0); node = 0; status = 0; line = [] };
  schedule = λ h. record {
    entries = 0;
    capacity = 8;
    scheduled = 0;
    running = 0;
    completed = 0;
    failures = 0;
    overdue = 0;
    cancelled = 0;
    clock_set = false;
    latency_s = 0;
    next_due_s = 0;
    next_due_utc = pos 0;
    releases = 0;
    refusals = 0;
    overdues = 0;
    clock_steps = 0;
    hash = 0;
    last_error = pos 0;
  };
  procedure = λ h. record {
    name = [];
    is_running = false;
    line = 0;
    last_result = pos 0;
    runs = 0;
    lines_run = 0;
    lines_failed = 0;
    lines_skipped = 0;
  };
}

abbrev fwu : UpdateShell
fwu = record {
  strtoul_any = read_number;
  state_name = λ state. codes "idle";
  max_image_size = 65536;
  write_offset = 0;
  result = λ h c. eio;
  status = λ h. record {
    target_bound = false;
    state = 0;
    total_size = 0;
    received = 0;
    expected_crc32 = 0;
    actual_crc32 = 0;
    swap_scheduled = false;
    started = 0;
    completed = 0;
    failures = 0;
  };
}

abbrev health : HealthShell
health = record {
  max_components = 8;
  strtoul_any = read_number;
  state_name = λ state. codes "ok";
  result = λ h c. eio;
  status =
      λ h. record { state = 0; feeding = false; count = 0; faults = 0; feeds = 0; faulted_by = [] };
  component =
      λ h. record { name = []; deadline_ms = 0; since_report_ms = 0; reports = 0; overdue = false };
  handle = λ h. 0;
}

abbrev ground : CountdownShell
ground = record {
  parts = parts;
  command_csp = false;
  detail_size = 96;
  strtoul_any = read_number;
  result = λ h c. eio;
  countdown = λ h. record {
    running = false;
    enabled = false;
    timeout_s = 0;
    remaining_s = 0;
    since_contact_s = 0;
    contacts = 0;
    last_node = 0;
    expiries = 0;
    reschedule_failures = 0;
  };
  reply = λ h. record { accepted = false; status_name = []; detail = [] };
}

abbrev resmon : ResmonShell
resmon = record {
  strtoul_any = read_number;
  result = λ h c. eio;
  status = λ h. record {
    running = false;
    threads = 0;
    unmeasured = 0;
    last_used_percent = 0;
    worst_used_percent = 0;
    worst_thread = [];
    worst_unused_bytes = 0;
    worst_stack_bytes = 0;
    tightest_unused_bytes = 0;
    tightest_stack_bytes = 0;
    tightest_thread = [];
    alert_percent = 0;
    sweeps = 0;
    alerts = 0;
  };
}

abbrev tables : TableShell
tables = record {
  parts = parts;
  state_name = λ state. codes "empty";
  result = λ h c. eio;
  report = λ h. record {
    table = 0;
    entries = 0;
    accepted = 0;
    failed_entry = 0;
    failed_offset = 0;
    reason = pos 0;
  };
  status = λ h. record {
    state = 0;
    table = 0;
    entries = 0;
    path = [];
    loads = 0;
    rejections = 0;
    reverts = 0;
  };
  dumped = λ h. 0;
}

service_commands-Guarded_example :
    Guarded fbo.result
      (in_range 0 65535 (fbo.parts.strtoul (codes "40")))
      (command_invoke_args (codes "fbo_sched_add") (
        text_arg (codes "12")
        ∷ u32_arg (fbo.parts.strtoul (codes "40")).0
        ∷ text_arg (codes "confirm")
        ∷ []))
      []
      (cmd_fbo_sched_add fbo (codes "12") (codes "40") (codes "confirm") [])
    × Guarded fbo.result
        (in_range 0 65535 (fbo.parts.strtoul (codes "12")))
        (command_invoke_args
          (codes "fbo_sched_cancel")
          (u32_arg (fbo.parts.strtoul (codes "12")).0 ∷ []))
        []
        (cmd_fbo_sched_cancel fbo (codes "12") [])
    × Guarded fwu.result
        (is_u32 (codes "12") (fwu.strtoul_any (codes "12"))
          && is_u32 (codes "40") (fwu.strtoul_any (codes "40")))
        (fwu_begin (fwu.strtoul_any (codes "12")).0 (fwu.strtoul_any (codes "40")).0)
        []
        (cmd_fwu_begin fwu (codes "12") (codes "40") [])
    × Guarded health.result
        (str_eq (codes "confirm") (codes "confirm")
          && in_range 1 4294967295 (health.strtoul_any (codes "40")))
        (health_register (codes "12") (health.strtoul_any (codes "40")).0)
        []
        (cmd_health_watch health (some (codes "12", (codes "40"), (codes "confirm"))) [])
    × Guarded health.result
        (in_range 0 255 (health.strtoul_any (codes "12")))
        (health_report (health.strtoul_any (codes "12")).0)
        []
        (cmd_health_report health (codes "12") [])
    × Guarded ground.result
        (in_range 0 4294967295 (ground.strtoul_any (codes "12")))
        (gndwdt_set_timeout_s (ground.strtoul_any (codes "12")).0)
        []
        (cmd_gndwdt_timeout ground (codes "12") [])
    × Guarded resmon.result
        (in_range 0 4294967295 (resmon.strtoul_any (codes "12")))
        (resmon_set_alert_percent (resmon.strtoul_any (codes "12")).0)
        []
        (cmd_resmon_alert resmon (codes "12") [])
    × Guarded tables.result
        (in_range 1 99 (tables.parts.strtoul (codes "12")))
        (table_dump (tables.parts.strtoul (codes "12")).0 (codes "40"))
        []
        (cmd_table_dump tables (codes "12") (codes "40") [])
service_commands-Guarded_example =
    service_commands-Guarded fbo fwu health ground resmon tables (codes "12") (codes "40")
      (codes "confirm") []
