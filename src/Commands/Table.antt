-- ===== src/Commands/Table.antt =====
-- The table of the application's commands.
use k_fsw.Base.{ℕ, Bool, true, false, List, [], ◌∷◌, ◌++◌, if◌then◌else◌}
use k_fsw.Text.{Bytes, codes}
use k_fsw.Parameters.System.{SystemValues}
use k_fsw.Commands.{CommandConfig, CommandEnv, Handler}
use k_fsw.Commands.Node.{command_noop, command_info, command_reboot, command_golden_install}
use k_fsw.Commands.Event.{command_event_stats, command_event_tail}
use k_fsw.Commands.Hk.{command_hk_define, command_hk_period, command_hk_clear}
use k_fsw.Commands.Journal.{command_journal_stats, command_journal_tail, command_journal_time}

-- KFSW_COMMAND_TYPE_U32 and KFSW_COMMAND_TYPE_TEXT.
pub data CommandType : Type 0 where
  type_u32 : CommandType
  type_text : CommandType

-- `struct kfsw_command_definition`; the count of arguments is the length of their types. The help
-- is left out: it is only printed.
pub record CommandDefinition : Type 0 where
  pub id : ℕ
  pub name : Bytes
  pub mutating : Bool
  pub arg_types : List CommandType
  pub handler : Handler

abbrev plain_row : ℕ → Bytes → List CommandType → Handler → CommandDefinition
plain_row id name types f = record {
  id = id;
  name = name;
  mutating = false;
  arg_types = types;
  handler = f;
}

abbrev mutating_row : ℕ → Bytes → Handler → CommandDefinition
mutating_row id name f = record {
  id = id;
  name = name;
  mutating = true;
  arg_types = type_text ∷ [];
  handler = f;
}

-- Rows that an option of the build puts in.
abbrev pub when : Bool → List CommandDefinition → List CommandDefinition
when option rows = if option then rows else []

module _ (c : CommandConfig) (env : CommandEnv) (v : SystemValues) where
  abbrev pub journal_rows : List CommandDefinition
  journal_rows =
      plain_row 9 (codes "journal_stats") [] (command_journal_stats c env)
      ∷ plain_row 10 (codes "journal_tail") (type_u32 ∷ []) (command_journal_tail c env)
      ∷ plain_row 11 (codes "journal_time") (type_u32 ∷ []) (command_journal_time c env)
      ∷ []

  abbrev pub node_rows : List CommandDefinition
  node_rows =
      plain_row 1 (codes "noop") [] (command_noop c env)
      ∷ plain_row 2 (codes "info") [] (command_info c env)
      ∷ []

  abbrev pub event_rows : List CommandDefinition
  event_rows =
      plain_row 4 (codes "event_stats") [] (command_event_stats c env)
      ∷ plain_row 5 (codes "event_tail") (type_u32 ∷ []) (command_event_tail c env)
      ∷ []

  abbrev pub hk_rows : List CommandDefinition
  hk_rows =
      plain_row 6 (codes "hk_define") (type_u32 ∷ type_text ∷ []) (command_hk_define c env)
      ∷ plain_row 7 (codes "hk_period") (type_u32 ∷ type_u32 ∷ []) (command_hk_period c env)
      ∷ plain_row 8 (codes "hk_clear") (type_u32 ∷ []) (command_hk_clear c env)
      ∷ []

  abbrev pub golden_rows : List CommandDefinition
  golden_rows = mutating_row 24 (codes "golden_install") (command_golden_install c env v) ∷ []

  abbrev pub reboot_rows : List CommandDefinition
  reboot_rows = mutating_row 3 (codes "reboot") (command_reboot c env v) ∷ []

  abbrev pub app_commands : List CommandDefinition
  app_commands =
      when c.journal journal_rows
      ++ node_rows
      ++ when c.event event_rows
      ++ when c.hk hk_rows
      ++ when c.golden golden_rows
      ++ when c.reboot reboot_rows
