-- ===== src/Commands/Safe.antt =====
-- What holds of every command of the table, whatever the build composes.
use k_fsw.Base.{
  ℕ, ◌+◌, ◌≡◌, ◌≢◌, refl, ◌⊎◌, inl, inr, Bool, true, false, List, [], ◌∷◌, ◌++◌, arith, All,
  All-append, ok,
}
use k_fsw.Parameters.System.{SystemValues}
use k_fsw.Commands.{
  command_ok, CommandArg, CommandResult, CommandConfig, CommandCall, sys_reboot, golden_install,
  schedule_reboot, CommandEnv, Handler,
}
use k_fsw.Commands.Node.{
  command_noop, command_info, command_reboot, command_golden_install, pin_accepted,
}
use k_fsw.Commands.Event.{command_event_stats, command_event_tail}
use k_fsw.Commands.Hk.{
  DefineText, unreadable, readable, read_definition, define_readable, command_hk_define,
  command_hk_period, command_hk_clear,
}
use k_fsw.Commands.Journal.{
  journal_record, command_journal_stats, command_journal_tail, command_journal_time,
}
use k_fsw.Commands.Table.{
  CommandDefinition, when, journal_rows, node_rows, event_rows, hk_rows, golden_rows, reboot_rows,
  app_commands,
}

All-when :
    (P : CommandDefinition → Type 0) (option : Bool) (rows : List CommandDefinition)
    → All P rows
    → All P (when option rows)
All-when P true rows all = all
All-when P false rows all = tt

module _ (P : CommandDefinition → Type 0) (c : CommandConfig) (env : CommandEnv)
    (v : SystemValues) where
  All-more :
      (rows : List CommandDefinition) (option : Bool) (more : List CommandDefinition)
      → All P rows
      → All P more
      → All P (rows ++ when option more)
  All-more rows option more all others =
      All-append P rows (when option more) all (All-when P option more others)

  -- The rows of each part of the table, and so all rows.
  All-app_commands :
      All P (journal_rows c env v)
      → All P (node_rows c env v)
      → All P (event_rows c env v)
      → All P (hk_rows c env v)
      → All P (golden_rows c env v)
      → All P (reboot_rows c env v)
      → All P (app_commands c env v)
  All-app_commands j n e k g r =
      All-more _ c.reboot (reboot_rows c env v)
        (All-more _ c.golden (golden_rows c env v)
          (All-more _ c.hk (hk_rows c env v)
            (All-more _ c.event (event_rows c env v)
              (All-append P (when c.journal (journal_rows c env v)) (node_rows c env v)
                (All-when P c.journal (journal_rows c env v) j) n)
              e)
            k)
          g)
        r

abbrev is_reset : CommandCall → ℕ
is_reset sys_reboot = 1
is_reset golden_install = 1
is_reset (schedule_reboot _) = 1
is_reset _ = 0

-- How many of the calls reset the node, schedule a reset or install the recovery image.
abbrev pub resets : List CommandCall → ℕ
resets [] = 0
resets (k ∷ ks) = is_reset k + resets ks

module _ (c : CommandConfig) (env : CommandEnv) (v : SystemValues) (args : ℕ → CommandArg)
    (node : ℕ) (result : CommandResult) (h : List CommandCall) where
  -- The handler returns 0, or the status says that it failed.
  abbrev pub Reports : Handler → Type 0
  Reports f = ((f args node result h).0.0 ≡ ok) ⊎ ((f args node result h).0.1.status ≢ command_ok)

  -- The handler does not reset the node, or the pin is right.
  abbrev Guarded : Handler → Type 0
  Guarded f = (resets (f args node result h).1 ≡ resets h) ⊎ (pin_accepted c v (args 0).text ≡ true)

  define_readable-Reports :
      (text : DefineText)
      → ((define_readable c env (args 0).u32 (args 1).text result text h).0.0 ≡ ok)
        ⊎ ((define_readable c env (args 0).u32 (args 1).text result text h).0.1.status ≢ command_ok)
  unfolding define_readable
  define_readable-Reports (unreadable outcome) = ground arith
  define_readable-Reports (readable entries class) = ground arith

  define_readable-resets :
      (text : DefineText)
      → resets (define_readable c env (args 0).u32 (args 1).text result text h).1 ≡ resets h
  unfolding define_readable
  define_readable-resets (unreadable outcome) = refl
  define_readable-resets (readable entries class) = ground arith

  node-Reports :
      Reports (command_noop c env)
      × Reports (command_info c env)
      × Reports (command_reboot c env v)
      × Reports (command_golden_install c env v)
  unfolding command_noop command_info command_reboot command_golden_install
  node-Reports = (ground arith, ground arith, ground arith, ground arith)

  event-Reports : Reports (command_event_stats c env) × Reports (command_event_tail c env)
  unfolding command_event_stats command_event_tail
  event-Reports = (ground arith, ground arith)

  hk-Reports :
      Reports (command_hk_define c env)
      × Reports (command_hk_period c env)
      × Reports (command_hk_clear c env)
  unfolding command_hk_define command_hk_period command_hk_clear
  hk-Reports = (
    ground (arith, define_readable-Reports (read_definition c (args 1).text)),
    ground arith,
    ground arith,
  )

  journal-Reports :
      Reports (command_journal_stats c env)
      × Reports (command_journal_tail c env)
      × Reports (command_journal_time c env)
  unfolding command_journal_stats command_journal_tail command_journal_time journal_record
  journal-Reports = (ground arith, ground arith, ground arith)

  -- In every build, a command of the table returns 0 or leaves a status other than OK, whatever it
  -- is asked with and whatever the services answer.
  pub app_commands-Reports : All (λ d. Reports d.handler) (app_commands c env v)
  app_commands-Reports =
      let (noop, info, reboot, golden) = node-Reports in
      let (stats, tail) = event-Reports in
      let (define, period, clear) = hk-Reports in
      let (journal, age, time) = journal-Reports in
      All-app_commands (λ d. Reports d.handler) c env v (journal, (age, (time, tt)))
        (noop, (info, tt)) (stats, (tail, tt)) (define, (period, (clear, tt))) (golden, tt)
        (reboot, tt)

  node-Guarded :
      (resets (command_noop c env args node result h).1 ≡ resets h)
      × (resets (command_info c env args node result h).1 ≡ resets h)
      × Guarded (command_reboot c env v)
      × Guarded (command_golden_install c env v)
  unfolding command_noop command_info command_reboot command_golden_install
  node-Guarded = (ground arith, ground arith, ground arith, ground arith)

  event-resets :
      (resets (command_event_stats c env args node result h).1 ≡ resets h)
      × (resets (command_event_tail c env args node result h).1 ≡ resets h)
  unfolding command_event_stats command_event_tail
  event-resets = (ground arith, ground arith)

  hk-resets :
      (resets (command_hk_define c env args node result h).1 ≡ resets h)
      × (resets (command_hk_period c env args node result h).1 ≡ resets h)
      × (resets (command_hk_clear c env args node result h).1 ≡ resets h)
  unfolding command_hk_define command_hk_period command_hk_clear
  hk-resets = (
    ground (arith, define_readable-resets (read_definition c (args 1).text)),
    ground arith,
    ground arith,
  )

  journal-resets :
      (resets (command_journal_stats c env args node result h).1 ≡ resets h)
      × (resets (command_journal_tail c env args node result h).1 ≡ resets h)
      × (resets (command_journal_time c env args node result h).1 ≡ resets h)
  unfolding command_journal_stats command_journal_tail command_journal_time journal_record
  journal-resets = (ground arith, ground arith, ground arith)

  abbrev pub Unarmed : CommandDefinition → Type 0
  Unarmed d =
      (resets (d.handler args node result h).1 ≡ resets h)
      ⊎ ((d.mutating ≡ true) × (pin_accepted c v (args 0).text ≡ true))

  armed :
      {m n : ℕ}
      → (m ≡ n) ⊎ (pin_accepted c v (args 0).text ≡ true)
      → (m ≡ n) ⊎ ((true ≡ true) × (pin_accepted c v (args 0).text ≡ true))
  armed (inl same) = inl same
  armed (inr right) = inr (refl, right)

  -- In every build, a command of the table resets nothing and installs no recovery image, unless
  -- the table marks it as mutating and the pin that it is given is accepted.
  pub app_commands-Unarmed : All Unarmed (app_commands c env v)
  app_commands-Unarmed =
      let (noop, info, reboot, golden) = node-Guarded in
      let (stats, tail) = event-resets in
      let (define, period, clear) = hk-resets in
      let (journal, age, time) = journal-resets in
      All-app_commands Unarmed c env v (inl journal, (inl age, (inl time, tt)))
        (inl noop, (inl info, tt)) (inl stats, (inl tail, tt))
        (inl define, (inl period, (inl clear, tt))) (armed golden, tt) (armed reboot, tt)
