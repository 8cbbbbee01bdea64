-- ===== src/Shell/Guarded/Services.antt =====
-- What the front ends of the services ask for, by the numbers and words that they are given.
use k_fsw.Base.{
  ℕ, ◌≡◌, refl, inl, inr, Bool, not, ◌&&◌, ◌||◌, some, List, [], ◌∷◌, arith, ltb, leb, ℤ, is_ok,
  Bool-cases,
}
use k_fsw.Text.{Bytes, codes, str_eq}
use k_fsw.Shell.Service.{
  u32_arg, text_arg, command_invoke_args, fwu_begin, health_register, health_report,
  gndwdt_set_timeout_s, resmon_set_alert_percent, table_dump,
}
use k_fsw.Shell.{ShellCall}
use k_fsw.Shell.Guarded.{Guarded, in_range, answered-Guarded, below-Guarded, positive-Guarded}
use k_fsw.Shell.Fbo.{FboShell, invoke, cmd_fbo_sched_add, cmd_fbo_sched_cancel}
use k_fsw.Shell.Fwu.{UpdateShell, starts_negative, parse_update_u32, cmd_fwu_begin}
use k_fsw.Shell.GroundWatchdog.{CountdownShell, cmd_gndwdt_timeout}
use k_fsw.Shell.Health.{HealthShell, cmd_health_watch, cmd_health_report}
use k_fsw.Shell.Resmon.{ResmonShell, cmd_resmon_alert}
use k_fsw.Shell.Tables.{TableShell, cmd_table_dump}

refused :
    (negative read : Bool) (n : ℕ)
    → (negative || not read || ltb 4294967295 n)
      ≡ not (not negative && (read && leb 0 n && leb n 4294967295))
refused negative read n = ground arith

timeout-Guarded :
    (env : CountdownShell) (text : Bytes) (h : List ShellCall)
    → let n = env.strtoul_any text in
      Guarded env.result
        (in_range 0 4294967295 n)
        (gndwdt_set_timeout_s n.0)
        h
        (cmd_gndwdt_timeout env text h)
unfolding cmd_gndwdt_timeout
timeout-Guarded env text h =
    let n = env.strtoul_any text in
    below-Guarded env.result (gndwdt_set_timeout_s n.0) _ 4294967295 n.0 n.1 _ h
      (answered-Guarded env.result (gndwdt_set_timeout_s n.0) _ _ h refl refl)

alert-Guarded :
    (env : ResmonShell) (text : Bytes) (h : List ShellCall)
    → let n = env.strtoul_any text in
      Guarded env.result
        (in_range 0 4294967295 n)
        (resmon_set_alert_percent n.0)
        h
        (cmd_resmon_alert env text h)
unfolding cmd_resmon_alert
alert-Guarded env text h =
    let n = env.strtoul_any text in
    below-Guarded env.result (resmon_set_alert_percent n.0) _ 4294967295 n.0 n.1 _ h
      (answered-Guarded env.result (resmon_set_alert_percent n.0) _ _ h refl refl)

report-Guarded :
    (env : HealthShell) (text : Bytes) (h : List ShellCall)
    → let n = env.strtoul_any text in
      Guarded env.result (in_range 0 255 n) (health_report n.0) h (cmd_health_report env text h)
unfolding cmd_health_report
report-Guarded env text h =
    let n = env.strtoul_any text in
    below-Guarded env.result (health_report n.0) _ 255 n.0 n.1 _ h
      (answered-Guarded env.result (health_report n.0) _ _ h refl refl)

watch-Guarded :
    (env : HealthShell) (name deadline word : Bytes) (h : List ShellCall)
    → let n = env.strtoul_any deadline in
      Guarded env.result
        (str_eq word (codes "confirm") && in_range 1 4294967295 n)
        (health_register name n.0)
        h
        (cmd_health_watch env (some (name, deadline, word)) h)
unfolding cmd_health_watch
watch-Guarded env name deadline word h =
    let n = env.strtoul_any deadline in
    elim (Bool-cases (str_eq word (codes "confirm"))) [
      | inr missing ↦ rw missing (refl, refl)
      | inl confirmed ↦ rw confirmed (
          positive-Guarded env.result (health_register name n.0) _ 4294967295 n.0 n.1 _ h
            (answered-Guarded env.result (health_register name n.0) _ _ h refl refl))
    ]

dump-Guarded :
    (env : TableShell) (table path : Bytes) (h : List ShellCall)
    → let n = env.parts.strtoul table in
      Guarded env.result (in_range 1 99 n) (table_dump n.0 path) h (cmd_table_dump env table path h)
unfolding cmd_table_dump
dump-Guarded env table path h =
    let n = env.parts.strtoul table in
    positive-Guarded env.result (table_dump n.0 path) _ 99 n.0 n.1 _ h
      (answered-Guarded env.result (table_dump n.0 path) _ _ h refl refl)

-- The command of the registry that each of two `fbo sched` commands is.
add-Guarded :
    (env : FboShell) (due node line : Bytes) (h : List ShellCall)
    → let n = env.parts.strtoul node in
      Guarded env.result
        (in_range 0 65535 n)
        (command_invoke_args
          (codes "fbo_sched_add")
          (text_arg due ∷ u32_arg n.0 ∷ text_arg line ∷ []))
        h
        (cmd_fbo_sched_add env due node line h)
unfolding cmd_fbo_sched_add invoke
add-Guarded env due node line h =
    let n = env.parts.strtoul node in below-Guarded env.result _ _ 65535 n.0 n.1 _ h (refl, refl)

cancel-Guarded :
    (env : FboShell) (index : Bytes) (h : List ShellCall)
    → let n = env.parts.strtoul index in
      Guarded env.result
        (in_range 0 65535 n)
        (command_invoke_args (codes "fbo_sched_cancel") (u32_arg n.0 ∷ []))
        h
        (cmd_fbo_sched_cancel env index h)
unfolding cmd_fbo_sched_cancel invoke
cancel-Guarded env index h =
    let n = env.parts.strtoul index in below-Guarded env.result _ _ 65535 n.0 n.1 _ h (refl, refl)

-- A text without a minus sign in front, whose number fits in 32 bits.
abbrev pub is_u32 : Bytes → ℕ × ℤ → Bool
is_u32 text n = not (starts_negative text) && in_range 0 4294967295 n

refused_lem :
    (text : Bytes) (n : ℕ × ℤ)
    → (starts_negative text || not (is_ok n.1) || ltb 4294967295 n.0) ≡ not (is_u32 text n)
refused_lem text n = refused (starts_negative text) (is_ok n.1) n.0

begin-Guarded :
    (env : UpdateShell) (size crc : Bytes) (h : List ShellCall)
    → let n = env.strtoul_any size in
      let m = env.strtoul_any crc in
      Guarded env.result
        (is_u32 size n && is_u32 crc m)
        (fwu_begin n.0 m.0)
        h
        (cmd_fwu_begin env size crc h)
unfolding cmd_fwu_begin parse_update_u32
begin-Guarded env size crc h =
    let n = env.strtoul_any size in
    let m = env.strtoul_any crc in
    elim (Bool-cases (is_u32 size n)) [
      | inr bad ↦ rw (refused_lem size n, bad) (refl, refl)
      | inl good ↦ elim (Bool-cases (is_u32 crc m)) [
        | inr bad ↦ rw (refused_lem size n, good, refused_lem crc m, bad) (refl, refl)
        | inl both ↦
            rw (refused_lem size n, good, refused_lem crc m, both)
              (answered-Guarded env.result (fwu_begin n.0 m.0) _ _ h refl refl)
      ]
    ]

-- Whatever the services answer: fbo sched add and cancel, fwu begin, health watch and report,
-- gndwdt timeout, resmon alert and table dump each make exactly one call, with the numbers and
-- words that they are given, and return what it answers, if their numbers are read without an
-- error and lie in the range of the command, with fwu no text begins with a minus sign, and with
-- health watch the last word is confirm; otherwise they ask nothing and return -EINVAL.
pub service_commands-Guarded :
    (fbo : FboShell) (fwu : UpdateShell) (health : HealthShell) (ground : CountdownShell)
    (resmon : ResmonShell) (tables : TableShell) (first second third : Bytes) (h : List ShellCall)
    → Guarded fbo.result
        (in_range 0 65535 (fbo.parts.strtoul second))
        (command_invoke_args
          (codes "fbo_sched_add")
          (text_arg first ∷ u32_arg (fbo.parts.strtoul second).0 ∷ text_arg third ∷ []))
        h
        (cmd_fbo_sched_add fbo first second third h)
      × Guarded fbo.result
          (in_range 0 65535 (fbo.parts.strtoul first))
          (command_invoke_args
            (codes "fbo_sched_cancel")
            (u32_arg (fbo.parts.strtoul first).0 ∷ []))
          h
          (cmd_fbo_sched_cancel fbo first h)
      × Guarded fwu.result
          (is_u32 first (fwu.strtoul_any first) && is_u32 second (fwu.strtoul_any second))
          (fwu_begin (fwu.strtoul_any first).0 (fwu.strtoul_any second).0)
          h
          (cmd_fwu_begin fwu first second h)
      × Guarded health.result
          (str_eq third (codes "confirm") && in_range 1 4294967295 (health.strtoul_any second))
          (health_register first (health.strtoul_any second).0)
          h
          (cmd_health_watch health (some (first, second, third)) h)
      × Guarded health.result
          (in_range 0 255 (health.strtoul_any first))
          (health_report (health.strtoul_any first).0)
          h
          (cmd_health_report health first h)
      × Guarded ground.result
          (in_range 0 4294967295 (ground.strtoul_any first))
          (gndwdt_set_timeout_s (ground.strtoul_any first).0)
          h
          (cmd_gndwdt_timeout ground first h)
      × Guarded resmon.result
          (in_range 0 4294967295 (resmon.strtoul_any first))
          (resmon_set_alert_percent (resmon.strtoul_any first).0)
          h
          (cmd_resmon_alert resmon first h)
      × Guarded tables.result
          (in_range 1 99 (tables.parts.strtoul first))
          (table_dump (tables.parts.strtoul first).0 second)
          h
          (cmd_table_dump tables first second h)
service_commands-Guarded fbo fwu health ground resmon tables first second third h = (
  add-Guarded fbo first second third h,
  cancel-Guarded fbo first h,
  begin-Guarded fwu first second h,
  watch-Guarded health first second third h,
  report-Guarded health first h,
  timeout-Guarded ground first h,
  alert-Guarded resmon first h,
  dump-Guarded tables first second h,
)
