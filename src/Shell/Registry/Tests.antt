-- ===== src/Shell/Registry/Tests.antt =====
-- What is printed of the commands of a small registry.
use k_fsw.Base.{◌≡◌, refl, ℕ, zero, suc, none, some, [], ◌∷◌, ok, enoent, arith}
use k_fsw.Text.{codes, str_eq, decimal, hex_fixed}
use k_fsw.Shell.{shell_print, shell_error}
use k_fsw.Shell.Registry.{
  CommandInfo, RegistryShell, print_arguments, types_from, argument_types, command_type_name,
  print_one, visit_commands, cmd_registry_list, cmd_registry_show,
}
use k_fsw.Shell.Registry.Arguments.{pieces, argument_types_whole}

abbrev types_of_set : ℕ → ℕ
types_of_set zero = 2
types_of_set (suc index) = 1

abbrev set_command : CommandInfo
set_command = record {
  id = 7;
  name = codes "set-value";
  flags = 3;
  arg_count = 3;
  arg_types = some types_of_set;
  help = none;
}

abbrev no_op : CommandInfo
no_op = record {
  id = 1;
  name = codes "noop";
  flags = 0;
  arg_count = 0;
  arg_types = none;
  help = some (codes "Do nothing");
}

abbrev small_shell : RegistryShell
small_shell = record {
  type_u32 = 0;
  type_i32 = 1;
  type_text = 2;
  max_args = 4;
  commands = λ calls. no_op ∷ set_command ∷ [];
  registered = λ calls. some 2;
}

list_all : cmd_registry_list small_shell [] ≡ (
  ok,
  (shell_print (codes "registered: 2 shown: 2")
      ∷ shell_print (codes "7 set-value flags=0x00000003")
      ∷ shell_print (codes "1 noop flags=0x00000000")
      ∷ []),
)
unfolding cmd_registry_list visit_commands print_one decimal hex_fixed
list_all = refl

show_one : cmd_registry_show small_shell (codes "set-value") [] ≡ (
  ok,
  (shell_print (codes "  help: none")
      ∷ shell_print (codes "  args: 3 text,i32,i32")
      ∷ shell_print (codes "7 set-value flags=0x00000003")
      ∷ []),
)
unfolding cmd_registry_show visit_commands print_one print_arguments argument_types types_from
    command_type_name str_eq decimal hex_fixed
show_one = refl

show_missing :
    cmd_registry_show small_shell (codes "reset") []
    ≡ (enoent, (shell_error (codes "no command named reset") ∷ []))
unfolding cmd_registry_show visit_commands print_one str_eq
show_missing = refl

argument_types_whole_example :
    argument_types small_shell set_command ≡ pieces small_shell (some types_of_set) 3 0
argument_types_whole_example = argument_types_whole small_shell set_command (omega arith)
