-- ===== src/Shell/Param/Tests.antt =====
-- A node with address 1 that sets a parameter of node 5, and lists ten parameters of a table.
use k_fsw.Base.{
  ℕ, ◌≡◌, ◌<◌, refl, true, false, none, some, List, [], ◌∷◌, map, arith, length, ok, pos,
}
use k_fsw.Text.{codes, decimal, decimal_on}
use k_fsw.Text.Strtoul.{strtoul}
use k_fsw.Shell.Service.{ParamValue}
use k_fsw.Parameters.Definition.{u8, array}
use k_fsw.Shell.Param.{ParamInfo, ParamShell, cmd_param_set}
use k_fsw.Shell.Param.Format.{FormatParts, format_data, format_param_value, data_from}
use k_fsw.Shell.Param.Set.{SetsOnce, cmd_param_set-SetsOnce}
use k_fsw.Shell.Param.Fit.{listed, format_param_value-below, format_data-listed}
use k_fsw.Shell.Param.Table.{print_collected}
use k_fsw.Shell.Param.Windows.{Fetches, print_collected-Fetches}

abbrev format : FormatParts
format = record { floats = false; print_float = λ n. []; print_double = λ n. [] }

abbrev byte : ParamValue
byte = record { type = u8; unsigned = 7; signed = pos 7; floating = 0; text = []; bytes = [] }

abbrev three_bytes : ParamValue
three_bytes = record {
  type = array;
  unsigned = 0;
  signed = pos 0;
  floating = 0;
  text = [];
  bytes = 1 ∷ 255 ∷ 30 ∷ [];
}

abbrev row : ℕ → ParamInfo
row offset = record {
  name = decimal offset;
  table = 2;
  table_name = none;
  offset = offset;
  type = u8;
  flags = 0;
  unit = none;
  description = none;
}

abbrev rows : List ParamInfo
rows = map row (0 ∷ 1 ∷ 2 ∷ 3 ∷ 4 ∷ 5 ∷ 6 ∷ 7 ∷ 8 ∷ 9 ∷ [])

-- Every call succeeds, and every text gives the value that was there.
abbrev shell : ParamShell
shell = record {
  parts = record { strtoul = λ text. ((strtoul 64 text).value, ok); broadcast_address = 31 };
  format = format;
  csp = true;
  persistence = false;
  remote_pool_size = 64;
  string_max = 32;
  name_max = 24;
  core_first = 1;
  module_last = 63;
  type_name = λ t. codes "u8";
  mode_name = λ n. codes "rw";
  band_name = λ n. codes "core";
  parse_text = λ text v. (ok, v);
  result = λ h c. ok;
  own_address = λ h. 1;
  value = λ h. byte;
  window = λ h i. byte;
  visited = λ h. rows;
  tables = λ h. [];
  info = λ h. row 0;
  kept = λ h. 0;
  persist_bytes = λ h. 0;
}

cmd_param_set-SetsOnce_example :
    SetsOnce shell
      (codes "5")
      (codes "gain")
      (some (codes "7"))
      []
      (cmd_param_set shell (codes "5") (codes "gain") (some (codes "7")) [])
cmd_param_set-SetsOnce_example =
    cmd_param_set-SetsOnce shell (codes "5") (codes "gain") (some (codes "7")) [] (omega arith)

format_param_value-below_example : length (format_param_value format 12 three_bytes) < 12
format_param_value-below_example =
    format_param_value-below format 12 three_bytes (omega arith)
      (omega arith, (omega arith, (omega arith, tt)))

short_enough : length (listed 1 (255 ∷ 30 ∷ [])) < 18
unfolding decimal decimal_on
short_enough = omega arith

format_data-listed_example : format_data 20 (1 ∷ 255 ∷ 30 ∷ []) ≡ listed 1 (255 ∷ 30 ∷ [])
format_data-listed_example = format_data-listed 20 1 (255 ∷ 30 ∷ []) (omega (arith, short_enough))

-- The buffer ends the list early.
cut_short : format_data 11 (1 ∷ 255 ∷ 30 ∷ []) ≡ codes "[1,255]"
unfolding format_data data_from decimal decimal_on
cut_short = refl

print_collected-Fetches_example : Fetches shell 5 rows [] (print_collected shell 5 2 rows [])
print_collected-Fetches_example = print_collected-Fetches shell 5 2 rows []
