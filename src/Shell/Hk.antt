-- ===== src/Shell/Hk.antt =====
-- app/src/shell/shell_hk.c: the `hk` commands. A command takes the words behind its name, those
-- that the shell requires as arguments of their own. This file is about naming a report.
pub mod Settings
pub mod Samples
pub mod Show
pub mod Filter
pub mod Get
pub mod Define
pub mod Words
pub mod Sends
pub mod Remote
mod Tests
use k_fsw.Base.{
  ℕ, ◌+◌, ◌-◌, ◌%◌, Bool, true, false, not, ◌&&◌, ◌||◌, Option, none, some, List, [], ◌∷◌, ◌++◌,
  ltb, leb, ◌==◌, if◌then◌else◌, ℤ, ok, is_ok, ◌==ℤ◌, einval, e2big, length,
}
use k_fsw.Text.{Bytes, codes, decimal, signed, str_eq, starts_with, has_char}
use k_fsw.Hk.Header.{Entry}
use k_fsw.Commands.{CommandConfig}
use k_fsw.Hk.Entries.{read_entry, ClassRead, parse_class}
use k_fsw.Env.{Proc, pure, ◌>>=◌, ◌>>◌, tell, recall}
use k_fsw.Shell.Service.{ServiceCall, hk_define_class}
use k_fsw.Shell.{ShellCall, shell_print, shell_error, ShellParts, ask}
use k_fsw.Shell.Remote.{parse_node}
use k_fsw.Shell.Command.{RunEnv, run_command, last_word}

-- What the commands stand on: `shell_strtoul` in base 0, with the error that it sets; the options
-- and sizes of the build that the command service's handlers have too; CONFIG_KFSW_COMMAND_CSP,
-- CONFIG_KFSW_HK_REPORTS and CONFIG_KFSW_HK_BEACON_FLOOR_MS; and what the housekeeping service
-- answers.
pub record HkShell : Type 0 where
  pub strtoul_0 : Bytes → ℕ × ℤ
  pub parts : ShellParts
  pub registry : RunEnv
  pub build : CommandConfig
  pub command_csp : Bool
  pub reports : ℕ
  pub beacon_floor_ms : ℕ
  pub result : List ShellCall → ServiceCall → ℤ
  pub last_save_error : List ShellCall → ℤ

-- An error line, and the result that goes with it.
abbrev pub refuse : Bytes → ℤ → Proc ShellCall ℤ
refuse text result = do tell (shell_error text); pure result

-- Behind a step that gives nothing when it fails: -EINVAL, or nothing again.
abbrev pub or_einval : {A : Type 0} → (A → Proc ShellCall ℤ) → Option A → Proc ShellCall ℤ
or_einval next none = pure einval
or_einval next (some a) = next a

abbrev pub or_none :
    {A B : Type 0} → (A → Proc ShellCall (Option B)) → Option A → Proc ShellCall (Option B)
or_none next none = pure none
or_none next (some a) = next a

-- Whether `--retry` ends the words.
unfoldable pub ends_with_retry : List Bytes → Bool
ends_with_retry words = elim (last_word words) [
  | none ↦ false
  | some (_, word) ↦ str_eq word (codes "--retry")
]

-- `names_node`, on the words behind the command's name; `local` is how many a local call has.
unfoldable pub names_node : List Bytes → ℕ → Bool
names_node words local =
    ltb local (if ends_with_retry words then length words - 1 else length words)

-- The words of a definition with a single space between two, as `snprintf` adds them to a buffer;
-- none is a text that does not fit. An empty text has no space behind it.
unfoldable pub join_entries : ℕ → Bytes → List Bytes → Option Bytes
join_entries capacity text [] = some text
join_entries capacity text (w ∷ ws) =
    let added = (if length text == 0 then [] else b' ' ∷ []) ++ w in
    let rest = join_entries capacity (text ++ added) ws in
    if leb (capacity - length text) (length added) then none else rest

-- The words in front of a final `--retry`.
abbrev pub without_retry : List Bytes → List Bytes
without_retry words = elim (last_word words) [
  | none ↦ words
  | some (rest, word) ↦ if str_eq word (codes "--retry") then rest else words
]

module _ (env : HkShell) where
  -- Behind `setting_result`: what a setting gives, on the text for a failure and the one for a
  -- success.
  abbrev pub settled : Bytes → Bytes → ℤ → Proc ShellCall ℤ
  settled failure success result =
      if result ==ℤ env.build.applied_unsaved
      then (do
        error ← recall env.last_save_error
        refuse (codes "Applied in RAM; save failed: " ++ signed error) result)
      else if not (is_ok result)
      then refuse (failure ++ codes ": " ++ signed result) result
      else (do tell (shell_print success); pure ok)

  abbrev pub number_read : Bytes → Bytes → ℕ × ℤ → Proc ShellCall (Option ℕ)
  number_read text what (parsed, parse_error) =
      if not (is_ok parse_error) || ltb 4294967295 parsed
      then (do tell (shell_error (codes "Invalid " ++ what ++ codes ": " ++ text)); pure none)
      else pure (some parsed)

  -- `parse_u32`: the number, or none with -EINVAL.
  unfoldable pub parse_u32 : Bytes → Bytes → Proc ShellCall (Option ℕ)
  parse_u32 text what = number_read text what (env.strtoul_0 text)

  -- A number that a command needs; without it the command ends.
  abbrev pub with_u32 : Bytes → Bytes → (ℕ → Proc ShellCall ℤ) → Proc ShellCall ℤ
  with_u32 text what next = parse_u32 text what >>= or_einval next

  -- `run_remote`: the words behind the node go with the command.
  unfoldable pub run_remote : Bytes → Bytes → List Bytes → Proc ShellCall ℤ
  run_remote command node words =
      parse_node env.parts node >>= or_einval (λ n. run_command env.registry n command words)

  abbrev pub send_definition : ℕ → Bytes → Bool → Option Bytes → Proc ShellCall ℤ
  send_definition node report retry none =
      refuse
        (codes "Entries are longer than " ++ decimal env.registry.max_text_size ++ codes " bytes")
        e2big
  send_definition node report retry (some text) =
      run_command env.registry node (codes "hk_define")
        (report ∷ text ∷ (if retry then codes "--retry" ∷ [] else []))

  -- `define_remote`: the node, the report and the words behind it.
  unfoldable pub define_remote : Bytes → Bytes → List Bytes → Proc ShellCall ℤ
  define_remote node report words =
      parse_node env.parts node
      >>= or_einval (λ n.
        send_definition n report (ends_with_retry words)
          (join_entries (env.registry.max_text_size + 1) [] (without_retry words)))

  -- The loop over the entries; none has told of the first that cannot be read.
  unfoldable pub parse_all : List Bytes → Proc ShellCall (Option (List Entry))
  parse_all [] = pure (some [])
  parse_all (w ∷ ws) = elim (read_entry env.build.hk_header env.build.long_bits w) [
    | none ↦ (do
      tell (shell_error (codes "Invalid entry '" ++ w ++ codes "': use [node:]table:offset"))
      pure none)
    | some e ↦ parse_all ws >>= or_none (λ es. pure (some (e ∷ es)))
  ]

  abbrev pub define_entries : ℕ → ℕ → Option (List Entry) → Proc ShellCall ℤ
  define_entries report class none = pure einval
  define_entries report class (some entries) = do
    result ← ask env.result (hk_define_class (report % 256) entries class)
    settled (codes "define report " ++ decimal report)
        (codes "report "
          ++ decimal report
          ++ codes " defines "
          ++ decimal (length entries)
          ++ codes " values")
        result

  -- Behind the class: the entries are the words from here on.
  unfoldable pub define_in_class : ℕ → ℕ → List Bytes → Proc ShellCall ℤ
  define_in_class report class words =
      if leb env.reports report || length words == 0
      then pure einval
      else if ltb env.build.hk_entries (length words)
      then refuse
          (codes "A report holds at most " ++ decimal env.build.hk_entries ++ codes " values") e2big
      else parse_all words >>= define_entries report class

  abbrev pub define_classed : ℕ → ClassRead → List Bytes → Proc ShellCall ℤ
  define_classed report read words =
      if not (is_ok read.result) || not (length read.text == 0)
      then refuse (codes "Class must be 0..7") (if is_ok read.result then einval else read.result)
      else define_in_class report read.retrieval_class words

  unfoldable pub define_local : ℕ → Bytes → List Bytes → Proc ShellCall ℤ
  define_local report second words =
      if starts_with (codes "class=") second
      then define_classed report (parse_class env.build.hk_header env.build.long_bits second) words
      else define_in_class report env.build.hk_header.class_default (second ∷ words)

  -- Whether a definition is for another node: a word without a colon, and no class, is the report.
  unfoldable pub names_report : Bytes → List Bytes → Bool
  names_report second words =
      env.command_csp
      && not (length words == 0)
      && not (has_char b':' second)
      && not (starts_with (codes "class=") second)

  unfoldable pub cmd_hk_define : Bytes → Bytes → List Bytes → Proc ShellCall ℤ
  cmd_hk_define first second words =
      if names_report second words
      then define_remote first second words
      else with_u32 first (codes "report") (λ report. define_local report second words)
