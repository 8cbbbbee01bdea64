-- ===== src/Shell/Hk/Tests.antt =====
-- A build with 4 reports, on a node that reaches another, and a service that answers.
use k_fsw.Base.{
  ◌==◌, ◌≤◌, ◌≡◌, refl, true, false, some, List, [], ◌∷◌, map, arith, All, ok, if◌then◌else◌,
  get_or, length,
}
use mathlib.Core.List.{append-nil}
use k_fsw.Text.{codes, decimal, decimal_on, starts_with, has_char}
use k_fsw.Text.Strtoul.{strtoul}
use k_fsw.Text.Decimal.{strtoul-decimal}
use k_fsw.Hk.Entries.Print.{FieldsFit, print_entry, entry_of}
use k_fsw.Hk.Entries.Lists.{joined}
use k_fsw.Commands.{CommandArg, hk_define_class as command_define}
use k_fsw.Commands.Hk.{command_hk_define}
use k_fsw.Commands.Tests.{everything, services, untouched, two_fields, header}
use k_fsw.Shell.{ShellParts, command_invoke_remote, requests}
use k_fsw.Shell.Service.{hk_define_class}
use k_fsw.Shell.Command.{RunEnv}
use k_fsw.Shell.Command.Order.{invocations}
use k_fsw.Shell.Hk.{HkShell, names_report, cmd_hk_define}
use k_fsw.Shell.Hk.Samples.{SampleEnv, every_sample, parse_filter, get_from}
use k_fsw.Shell.Hk.Filter.{
  Setting, from, skip, print_setting, apply_all, ReadsDecimal, parse_filter-print,
}
use k_fsw.Shell.Hk.Get.{Asked, get_from-Asked}
use k_fsw.Shell.Hk.Define.{Defines, cmd_hk_define-Defines}
use k_fsw.Shell.Hk.Sends.{NamesNode, Registered}
use k_fsw.Shell.Hk.Words.{class_word}
use k_fsw.Shell.Hk.Remote.{definition_words, Widths, Definable, cmd_hk_define_refines}

abbrev parts : ShellParts
parts = record { strtoul = λ text. ((strtoul 64 text).value, ok); broadcast_address = 31 }

-- The arguments are a number of type 0 and a text.
abbrev registry : RunEnv
registry = record {
  initialized = true;
  find = λ name. some (0 ∷ 1 ∷ []);
  parse_arg = λ text type.
      (ok, record { u32 = if type == 0 then (strtoul 64 text).value else 0; text = text });
  command_csp = true;
  max_text_size = 64;
  detail_size = 96;
  result = λ h c. ok;
  reply = λ h. record { accepted = true; status_name = codes "ok"; detail = [] };
}

abbrev shell : HkShell
shell = record {
  strtoul_0 = λ text. ((strtoul 64 text).value, ok);
  parts = parts;
  registry = registry;
  build = everything;
  command_csp = true;
  reports = 4;
  beacon_floor_ms = 1000;
  result = λ h c. ok;
  last_save_error = λ h. ok;
}

abbrev samples : SampleEnv
samples = record {
  shell = shell;
  flag_clock_unset = 1;
  flag_incomplete = 2;
  header_size = 8;
  sample = λ h. record {
    sequence = 1;
    seconds = 60;
    flags = 1;
    entry_count = 1;
    octets = 0 ∷ 0 ∷ 0 ∷ 0 ∷ 0 ∷ 0 ∷ 0 ∷ 0 ∷ 171 ∷ [];
  };
  store_info = λ h. record {
    records = 0;
    capacity = 0;
    record_size = 0;
    interval_ms = 0;
    oldest = 0;
    newest = 0;
  };
  count = λ h. 0;
}

reads_decimal : ReadsDecimal shell
reads_decimal n fits = rw (rw append-nil at (strtoul-decimal 64 n [] tt (omega (arith, fits)))) refl

abbrev settings : List Setting
settings = from 70000 ∷ skip 3 ∷ []

parse_filter-print_example :
    parse_filter samples (decimal 2) (map print_setting settings) []
    ≡ (some (apply_all (every_sample 2) settings), [])
parse_filter-print_example =
    parse_filter-print samples reads_decimal 2 settings [] (omega arith)
      (omega arith, (omega arith, tt))

get_from-Asked_example :
    ((get_from samples 2 0 3 []).0 ≡ ok) × Asked samples 2 0 3 [] (get_from samples 2 0 3 []).1
get_from-Asked_example = get_from-Asked samples 3 2 0 []

local_entry : names_report shell (codes "2:16") (codes "3:1" ∷ []) ≡ false
unfolding names_report has_char starts_with
local_entry = refl

cmd_hk_define-Defines_example :
    Defines shell
      (strtoul 64 (codes "1")).value
      []
      (cmd_hk_define shell (codes "1") (codes "2:16") (codes "3:1" ∷ []) [])
cmd_hk_define-Defines_example =
    cmd_hk_define-Defines shell (omega arith) (omega arith) (omega arith) (codes "1") (codes "2:16")
      (codes "3:1" ∷ []) [] local_entry

widths : Widths shell
widths = record {
  reports = omega arith;
  classes = omega arith;
  offsets = omega arith;
  long = omega arith;
}

two_fields-FieldsFit : All (FieldsFit header) two_fields
two_fields-FieldsFit = (
  record { node_fits = tt; table_fits = omega arith; offset_fits = omega arith },
  (record { node_fits = omega arith; table_fits = omega arith; offset_fits = omega arith }, tt),
)

definable : Definable shell 1 6 two_fields
definable = record {
  known = omega arith;
  class_fits = omega arith;
  some_entries = omega arith;
  room = omega arith;
  in_range = two_fields-FieldsFit;
}

abbrev report_arg : CommandArg
report_arg = record { u32 = (strtoul 64 (decimal 1)).value; text = decimal 1 }

abbrev words_arg : CommandArg
words_arg = record { u32 = 0; text = joined (definition_words 6 two_fields) }

names_node : NamesNode parts (codes "5") 5
unfolding strtoul
names_node = record {
  reads = refl;
  positive = omega arith;
  below = omega arith;
  narrow = omega arith;
}

registered :
    Registered registry (decimal 1) (joined (definition_words 6 two_fields)) report_arg words_arg
registered = record {
  up = refl;
  csp = refl;
  number_type = 0;
  text_type = 1;
  found = refl;
  number = refl;
  words = refl;
}

short_enough : length (joined (definition_words 6 two_fields)) ≤ 64
unfolding decimal decimal_on print_entry
short_enough = omega arith

report_value : report_arg.u32 ≡ 1
unfolding strtoul decimal
report_value = refl

cmd_hk_define_refines_example :
    (invocations (cmd_hk_define shell (codes "5") (decimal 1) (definition_words 6 two_fields) []).1
      ≡ command_invoke_remote 5 (codes "hk_define") (report_arg ∷ words_arg ∷ []) false ∷ [])
    × ((command_hk_define everything services
          (λ i. get_or (report_arg ∷ words_arg ∷ []) i report_arg)
          9
          untouched
          []).1
        ≡ command_define 1 (map (entry_of header) two_fields) 6 ∷ [])
    × (requests (cmd_hk_define shell (decimal 1) (class_word 6) (map print_entry two_fields) []).1
        ≡ hk_define_class 1 (map (entry_of header) two_fields) 6 ∷ [])
cmd_hk_define_refines_example =
    cmd_hk_define_refines shell widths 1 6 two_fields definable [] (codes "5") 5 report_arg
      words_arg services 9 untouched [] reads_decimal names_node short_enough registered refl
      report_value refl
