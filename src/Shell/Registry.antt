-- ===== src/Shell/Registry.antt =====
-- app/src/shell/shell_registry.c: the `cmd` commands, which read the command registry.
pub mod Arguments
mod Tests
use k_fsw.Base.{
  ℕ, zero, suc, ◌+◌, ◌-◌, ◌*◌, ◌%◌, ◌^◌, Bool, true, false, not, ◌||◌, Option, none, some, List, [],
  ◌∷◌, ◌++◌, length, ltb, leb, ◌==◌, if◌then◌else◌, ℤ, ok, enoent,
}
use k_fsw.Text.{Bytes, codes, decimal, str_eq, hex_fixed, fitted}
use k_fsw.Env.{Proc, pure, ◌>>=◌, ◌>>◌, tell, recall}
use k_fsw.Shell.{ShellCall, shell_print, shell_error}

-- `struct kfsw_command_info`; the types of the arguments may be missing, and the help.
pub record CommandInfo : Type 0 where
  pub id : ℕ
  pub name : Bytes
  pub flags : ℕ
  pub arg_count : ℕ
  pub arg_types : Option (ℕ → ℕ)
  pub help : Option Bytes

-- The numbers of the types, KFSW_COMMAND_MAX_ARGS, the commands that a visit goes through, and the
-- count of `kfsw_command_get_stats` where that succeeds.
pub record RegistryShell : Type 0 where
  pub type_u32 : ℕ
  pub type_i32 : ℕ
  pub type_text : ℕ
  pub max_args : ℕ
  pub commands : List ShellCall → List CommandInfo
  pub registered : List ShellCall → Option ℕ

-- A listing: one command or all, and whether arguments and help are printed of all.
pub record Listing : Type 0 where
  pub wanted : Option Bytes
  pub verbose : Bool

abbrev is_wanted : Option Bytes → Bytes → Bool
is_wanted none name = true
is_wanted (some wanted) name = str_eq wanted name

abbrev has_details : Listing → Bool
has_details listing = listing.verbose || (elim listing.wanted [ none ↦ false | some _ ↦ true ])

abbrev help_text : Option Bytes → Bytes
help_text none = codes "none"
help_text (some help) = help

module _ (env : RegistryShell) where
  unfoldable pub command_type_name : ℕ → Bytes
  command_type_name type =
      if type == env.type_u32
      then codes "u32"
      else if type == env.type_i32
      then codes "i32"
      else if type == env.type_text
      then codes "text"
      else codes "?"

  abbrev pub argument_name : Option (ℕ → ℕ) → ℕ → Bytes
  argument_name none index = codes "?"
  argument_name (some types) index = command_type_name (types index)

  -- What is printed of an argument: a comma in front of all but the first.
  abbrev pub argument_piece : Option (ℕ → ℕ) → ℕ → Bytes
  argument_piece types index = (if ltb 0 index then codes "," else []) ++ argument_name types index

  -- The loop, on the arguments left: a piece that does not fit is cut and ends it.
  unfoldable pub types_from : ℕ → Option (ℕ → ℕ) → ℕ → ℕ → Bytes → Bytes
  types_from size types zero index text = text
  types_from size types (suc left) index text =
      let piece = argument_piece types index in
      let rest = types_from size types left (index + 1) (text ++ piece) in
      if length piece == 0 || leb (size - length text) (length piece)
      then text ++ fitted (size - length text) piece
      else rest

  unfoldable pub argument_types : CommandInfo → Bytes
  argument_types info = types_from (env.max_args * 5 + 1) info.arg_types info.arg_count 0 []

  unfoldable print_arguments : CommandInfo → Proc ShellCall (Unit {0})
  print_arguments info =
      tell (
        shell_print
          (codes "  args: " ++ decimal info.arg_count ++ codes " " ++ argument_types info))

  abbrev print_details : Bool → CommandInfo → Proc ShellCall (Unit {0})
  print_details details info =
      if details
      then (do print_arguments info; tell (shell_print (codes "  help: " ++ help_text info.help)))
      else pure tt

  abbrev print_command : Listing → CommandInfo → Proc ShellCall (Unit {0})
  print_command listing info = do
    tell (
        shell_print (
          decimal info.id ++ codes " " ++ info.name ++ codes " flags=0x" ++ hex_fixed 8 info.flags))
    print_details (has_details listing) info

  -- `print_one`, with the count of the commands shown.
  unfoldable print_one : Listing → CommandInfo → ℕ → Proc ShellCall ℕ
  print_one listing info shown =
      if not (is_wanted listing.wanted info.name)
      then pure shown
      else print_command listing info >> pure ((shown + 1) % 2 ^ 32)

  unfoldable visit_commands : Listing → List CommandInfo → ℕ → Proc ShellCall ℕ
  visit_commands listing [] shown = pure shown
  visit_commands listing (info ∷ infos) shown =
      print_one listing info shown >>= visit_commands listing infos

  abbrev shown_of : Listing → Proc ShellCall ℕ
  shown_of listing = recall env.commands >>= λ infos. visit_commands listing infos 0

  abbrev print_registered : ℕ → Option ℕ → Proc ShellCall ℤ
  print_registered shown none = pure ok
  print_registered shown (some registered) = do
    tell (
        shell_print
          (codes "registered: " ++ decimal registered ++ codes " shown: " ++ decimal shown))
    pure ok

  unfoldable cmd_registry_list : Proc ShellCall ℤ
  cmd_registry_list = do
    shown ← shown_of (record { wanted = none; verbose = false })
    recall env.registered >>= print_registered shown

  unfoldable cmd_registry_describe : Proc ShellCall ℤ
  cmd_registry_describe = do
    shown ← shown_of (record { wanted = none; verbose = true })
    tell (shell_print (codes "shown: " ++ decimal shown))
    pure ok

  abbrev was_shown : Bytes → ℕ → Proc ShellCall ℤ
  was_shown name shown =
      if shown == 0
      then (do tell (shell_error (codes "no command named " ++ name)); pure enoent)
      else pure ok

  unfoldable cmd_registry_show : Bytes → Proc ShellCall ℤ
  cmd_registry_show name =
      shown_of (record { wanted = some name; verbose = false }) >>= was_shown name
