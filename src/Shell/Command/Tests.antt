-- ===== src/Shell/Command/Tests.antt =====
-- A command with one argument, run on node 5 with a retry.
use k_fsw.Base.{◌≡◌, refl, true, false, some, List, [], ◌∷◌, ok}
use k_fsw.Text.{Bytes, codes, str_eq, decimal}
use k_fsw.Commands.{CommandArg}
use k_fsw.Shell.{shell_print, command_invoke_remote}
use k_fsw.Shell.Command.{
  CommandReply, RunEnv, fields_from, all_fields, front_word, words, at_equals, print_field,
  print_fields, last_word, take_retry, parse_arguments, run_command,
}
use k_fsw.Shell.Command.Fields.{all_equal, all_fields_lem}
use k_fsw.Shell.Command.Order.{RunsOnce, run_command_once}

abbrev reply : CommandReply
reply = record { accepted = true; status_name = codes "ok"; detail = codes "a=1  b=x" }

abbrev argument : CommandArg
argument = record { u32 = 7; text = codes "7" }

abbrev registry : RunEnv
registry = record {
  initialized = true;
  find = λ name. some (0 ∷ []);
  parse_arg = λ text type. (ok, argument);
  command_csp = true;
  max_text_size = 64;
  detail_size = 96;
  result = λ h k. ok;
  reply = λ h. reply;
}

abbrev argv : List Bytes
argv = codes "7" ∷ codes "--retry" ∷ []

runs :
    (run_command registry 5 (codes "event_tail") argv []).1
    ≡ shell_print (codes "b: x")
      ∷ shell_print (codes "a: 1")
      ∷ shell_print (codes "node: 5")
      ∷ command_invoke_remote 5 (codes "event_tail") (argument ∷ []) true
      ∷ []
unfolding run_command take_retry last_word parse_arguments print_fields print_field all_fields
    fields_from front_word at_equals str_eq decimal
runs = refl

not_fields : all_fields (codes "a=1 plain") ≡ false
unfolding all_fields fields_from
not_fields = refl

all_fields_lem_example : all_fields (codes "a=1 plain") ≡ all_equal (words (codes "a=1 plain"))
all_fields_lem_example = all_fields_lem (codes "a=1 plain")

run_command_once_example :
    RunsOnce registry 5
      (codes "event_tail")
      argv
      []
      (run_command registry 5 (codes "event_tail") argv [])
run_command_once_example = run_command_once registry 5 (codes "event_tail") argv []
