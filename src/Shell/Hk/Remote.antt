-- ===== src/Shell/Hk/Remote.antt =====
-- `hk define` for another node: what it sends, and what the command does there.
use k_fsw.Base.{
  ℕ, ◌+◌, ◌%◌, ◌^◌, ◌≤◌, ◌<◌, ◌≡◌, ◌≢◌, refl, ap, ◌∙◌, true, false, ◌||◌, List, [], ◌∷◌, ◌++◌, map,
  arith, ltb, leb, ◌==◌, All, length, length-map, get_or,
}
use k_fsw.Text.{Bytes, codes, decimal, str_eq, starts_with}
use k_fsw.Hk.Entries.Print.{Fields, FieldsFit, entry_of, print_entry}
use k_fsw.Hk.Entries.Lists.{joined, spaced}
use k_fsw.Commands.{CommandArg, CommandResult, CommandConfig, CommandCall, CommandEnv}
use k_fsw.Commands
use k_fsw.Commands.Hk.{command_hk_define}
use k_fsw.Commands.Define.{command_hk_define-print}
use k_fsw.Shell.Service.{hk_define_class}
use k_fsw.Shell.{ShellCall, service, requests, command_invoke_remote}
use k_fsw.Shell.Command.Order.{invocations}
use k_fsw.Shell.Hk.{
  HkShell, define_in_class, define_local, names_report, cmd_hk_define, define_remote,
}
use k_fsw.Shell.Hk.Filter.{ReadsDecimal, parse_u32-decimal, FitsU32}
use k_fsw.Shell.Hk.Define.{settled-quiet}
use k_fsw.Shell.Hk.Words.{
  class_word, parse_class-word, decimal-plain, IsWord, not_retry, without_retry_self,
  definition-IsWord, join_entries-joined, parse_all-print,
}
use k_fsw.Shell.Hk.Sends.{NamesNode, parse_node-NamesNode, Registered, run_definition}

-- The words of a definition, as they stand on the line.
abbrev pub definition_words : ℕ → List Fields → List Bytes
definition_words class fields = class_word class ∷ map print_entry fields

class_word-ne-nil : (class : ℕ) → class_word class ≢ []
class_word-ne-nil class e = cc

joined-IsWord : (class : ℕ) (fields : List Fields) → IsWord (joined (definition_words class fields))
unfolding str_eq
joined-IsWord class fields = refl

module _ (env : HkShell) (report class : ℕ) (fields : List Fields) (h : List ShellCall) where
  sends_definition :
      (node_text : Bytes) (node : ℕ) (first second : CommandArg)
      → NamesNode env.parts node_text node
      → length (joined (definition_words class fields)) ≤ env.registry.max_text_size
      → Registered env.registry
          (decimal report)
          (joined (definition_words class fields))
          first
          second
      → env.command_csp ≡ true
      → invocations
          (cmd_hk_define env node_text (decimal report) (definition_words class fields) h).1
        ≡ command_invoke_remote node (codes "hk_define") (first ∷ second ∷ []) false ∷ invocations h
  unfolding cmd_hk_define define_remote names_report
  sends_definition node_text node first second names room reg csp =
      let words = definition_words class fields in
      let clear = definition-IsWord class fields in
      let (colon, plain) = decimal-plain report in
      let remote : names_report env (decimal report) words ≡ true = ground (arith, colon, plain) in
      let text =
        join_entries-joined (env.registry.max_text_size + 1) (class_word class)
          (map print_entry fields) (class_word-ne-nil class) (omega (arith, room)) in
      rw remote (
        rw (parse_node-NamesNode env.parts node_text node h names, define_remote)
          (rw (not_retry words clear) (
            rw (without_retry_self words clear) (
              rw text (
                run_definition env.registry node names.positive (decimal report) (joined words)
                  first second h (joined-IsWord class fields) reg)))))

  module _ (wide : 65536 ≤ 2 ^ env.build.long_bits) (known : report < env.reports)
      (byte : env.reports ≤ 256) (offsets : env.build.hk_header.offset_max ≤ 65535)
      (any : 0 < length fields) (room : length fields ≤ env.build.hk_entries)
      (all : All (FieldsFit env.build.hk_header) fields) where
    defines_in_class :
        requests (define_in_class env report class (map print_entry fields) h).1
        ≡ hk_define_class report (map (entry_of env.build.hk_header) fields) class ∷ requests h
    unfolding define_in_class
    defines_in_class =
        let counted = length-map fields print_entry in
        let within : (leb env.reports report || length (map print_entry fields) == 0) ≡ false =
          ground arith in
        let fits : ltb env.build.hk_entries (length (map print_entry fields)) ≡ false =
          ground arith in
        let es = map (entry_of env.build.hk_header) fields in
        let same : report % 256 ≡ report = omega arith in
        let c = hk_define_class (report % 256) es class in
        rw within (
          rw fits (
            rw (parse_all-print env wide offsets fields h all) (
              settled-quiet env (codes "define report " ++ decimal report)
                (codes "report "
                  ++ decimal report
                  ++ codes " defines "
                  ++ decimal (length es)
                  ++ codes " values")
                (env.result h c) (service c ∷ h)
              ∙ rw same refl)))

    defines_local :
        env.build.hk_header.class_max ≤ 255
        → class ≤ env.build.hk_header.class_max
        → requests (define_local env report (class_word class) (map print_entry fields) h).1
          ≡ hk_define_class report (map (entry_of env.build.hk_header) fields) class ∷ requests h
    unfolding define_local starts_with
    defines_local classes class_fits =
        rw
          (parse_class-word env.build.hk_header env.build.long_bits class classes (omega arith)
            class_fits)
          defines_in_class

  defines_here :
      (wide : 65536 ≤ 2 ^ env.build.long_bits)
      → ReadsDecimal env
      → FitsU32 report
      → report < env.reports
      → env.reports ≤ 256
      → env.build.hk_header.class_max ≤ 255
      → env.build.hk_header.offset_max ≤ 65535
      → class ≤ env.build.hk_header.class_max
      → 0 < length fields
      → length fields ≤ env.build.hk_entries
      → All (FieldsFit env.build.hk_header) fields
      → requests
          (cmd_hk_define env (decimal report) (class_word class) (map print_entry fields) h).1
        ≡ hk_define_class report (map (entry_of env.build.hk_header) fields) class ∷ requests h
  unfolding cmd_hk_define names_report starts_with
  defines_here wide reads fits known byte classes offsets class_fits any room all =
      let here : names_report env (class_word class) (map print_entry fields) ≡ false =
        ground arith in
      rw here (
        rw (parse_u32-decimal env reads report (codes "report") h fits)
          (defines_local wide known byte offsets any room all classes class_fits))

spaced_fields :
    (fields : List Fields)
    → 0 < length fields
    → spaced (map print_entry fields) ≡ b' ' ∷ joined (map print_entry fields)
spaced_fields [] any = absurd (omega arith)
spaced_fields (f ∷ fs) any = refl

-- The widths that the build has: reports and classes are bytes, an offset has 16 bits at most, and
-- `unsigned long` no less.
pub record Widths (env : HkShell) : Type 0 where
  pub reports : env.reports ≤ 256
  pub classes : env.build.hk_header.class_max ≤ 255
  pub offsets : env.build.hk_header.offset_max ≤ 65535
  pub long : 65536 ≤ 2 ^ env.build.long_bits

-- The build has the report and the class, and a report holds the entries.
pub record Definable (env : HkShell) (report class : ℕ) (fields : List Fields) : Type 0 where
  pub known : report < env.reports
  pub class_fits : class ≤ env.build.hk_header.class_max
  pub some_entries : 0 < length fields
  pub room : length fields ≤ env.build.hk_entries
  pub in_range : All (FieldsFit env.build.hk_header) fields

module _ (env : HkShell) (widths : Widths env) (report class : ℕ) (fields : List Fields)
    (fit : Definable env report class fields) (h : List ShellCall) where
  -- On a node that names another, in a build whose widths are as usual and for a definition that
  -- the build can take, whose words fit in a text argument, if the registry knows the command and
  -- passes its words on: hk define with the node makes one invocation, of hk_define on that node;
  -- that command there, in the same build, tells the housekeeping service exactly what hk define
  -- without the node tells it here.
  pub cmd_hk_define_refines :
      (node_text : Bytes) (node : ℕ) (first second : CommandArg) (there : CommandEnv) (asker : ℕ)
      → (result : CommandResult) (h' : List CommandCall) → ReadsDecimal env
      → NamesNode env.parts node_text node
      → length (joined (definition_words class fields)) ≤ env.registry.max_text_size
      → Registered env.registry
          (decimal report)
          (joined (definition_words class fields))
          first
          second
      → env.command_csp ≡ true
      → first.u32 ≡ report
      → second.text ≡ joined (definition_words class fields)
      → let entries = map (entry_of env.build.hk_header) fields in
        (invocations
            (cmd_hk_define env node_text (decimal report) (definition_words class fields) h).1
          ≡ command_invoke_remote node (codes "hk_define") (first ∷ second ∷ []) false
            ∷ invocations h)
        × ((command_hk_define env.build there
              (λ i. get_or (first ∷ second ∷ []) i first)
              asker
              result
              h').1
            ≡ Commands.hk_define_class report entries class ∷ h')
        × (requests
              (cmd_hk_define env (decimal report) (class_word class) (map print_entry fields) h).1
            ≡ hk_define_class report entries class ∷ requests h)
  cmd_hk_define_refines node_text node first second there asker result h' reads names room reg csp
        number text =
      (
        sends_definition env report class fields h node_text node first second names room reg csp,
        command_hk_define-print env.build there (λ i. get_or (first ∷ second ∷ []) i first) asker
              result h' class fields (omega (arith, fit.known, widths.reports))
              (text ∙ ap (λ rest. class_word class ++ rest) (spaced_fields fields fit.some_entries))
              widths.classes widths.offsets widths.long fit.class_fits fit.some_entries fit.room
              fit.in_range
            ∙ ap
                (λ n.
                  Commands.hk_define_class n (map (entry_of env.build.hk_header) fields) class ∷ h')
                number,
        defines_here env report class fields h widths.long reads
            (omega (arith, fit.known, widths.reports)) fit.known widths.reports widths.classes
            widths.offsets fit.class_fits fit.some_entries fit.room fit.in_range,
      )
