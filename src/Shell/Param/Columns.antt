-- ===== src/Shell/Param/Columns.antt =====
-- One row of a listing of parameters, and the callbacks of a visit that print it. A visit calls its
-- callback on each descriptor that it goes through, until the callback asks it to stop.
use k_fsw.Base.{
  ℕ, ◌+◌, Bool, true, false, not, Option, none, some, List, [], ◌∷◌, ◌++◌, ◌==◌, if◌then◌else◌,
  is_ok, take,
}
use k_fsw.Text.{Bytes, codes, decimal, hex_byte, fitted, pad_right}
use k_fsw.Env.{Proc, pure, ◌>>=◌, ◌>>◌, tell, recall}
use k_fsw.Shell.Service.{param_get}
use k_fsw.Shell.{ShellCall, shell_print, ask}
use k_fsw.Shell.Param.{ParamInfo, ParamShell, value_text}

-- KFSW_PARAM_TABLE_COLUMN, KFSW_PARAM_TYPE_COLUMN and KFSW_PARAM_MODE_COLUMN
abbrev pub table_column : ℕ
table_column = 10

abbrev pub type_column : ℕ
type_column = 6

abbrev pub mode_column : ℕ
mode_column = 4

abbrev pub or_else : Bytes → Option Bytes → Bytes
or_else text none = text
or_else text (some t) = t

-- The cells of a row, two spaces between two.
abbrev pub cells : List Bytes → Bytes
cells [] = []
cells (c ∷ []) = c
cells (c ∷ d ∷ ds) = c ++ codes "  " ++ cells (d ∷ ds)

abbrev pub dashes : ℕ → Bytes
dashes n = take n (codes "--------------------------------")

-- `filter_table` with `table`, and `local`.
pub record ListContext : Type 0 where
  pub table : Option ℕ
  pub local : Bool

abbrev pub passes_over : ListContext → ParamInfo → Bool
passes_over c i = elim c.table [ none ↦ false | some t ↦ not (i.table == t) ]

module _ (env : ParamShell) where
  unfoldable pub print_list_header : Proc ShellCall (Unit {0})
  print_list_header = do
    tell (
        shell_print (
          cells (
            pad_right table_column (codes "table")
            ∷ codes "addr"
            ∷ pad_right env.name_max (codes "name")
            ∷ pad_right type_column (codes "type")
            ∷ pad_right mode_column (codes "mode")
            ∷ codes "value"
            ∷ [])))
    tell (
        shell_print (
          cells (
            dashes table_column
            ∷ dashes 4
            ∷ dashes env.name_max
            ∷ dashes type_column
            ∷ dashes mode_column
            ∷ codes "-----"
            ∷ [])))

  unfoldable pub print_describe_header : Proc ShellCall (Unit {0})
  print_describe_header = do
    tell (
        shell_print (
          cells (
            pad_right table_column (codes "table")
            ∷ codes "addr"
            ∷ pad_right env.name_max (codes "name")
            ∷ pad_right type_column (codes "type")
            ∷ pad_right mode_column (codes "mode")
            ∷ pad_right 6 (codes "unit")
            ∷ codes "description"
            ∷ [])))
    tell (
        shell_print (
          cells (
            dashes table_column
            ∷ dashes 4
            ∷ dashes env.name_max
            ∷ dashes type_column
            ∷ dashes mode_column
            ∷ dashes 6
            ∷ codes "-----------"
            ∷ [])))

  -- The columns that both listings begin with, behind the text for the table.
  abbrev pub first_cells : Bytes → ParamInfo → List Bytes → Bytes
  first_cells table i rest = cells (
      pad_right table_column table
      ∷ (codes "0x" ++ hex_byte i.offset)
      ∷ pad_right env.name_max i.name
      ∷ pad_right type_column (env.type_name i.type)
      ∷ pad_right mode_column (env.mode_name i.flags)
      ∷ rest)

  -- `char table_text[KFSW_PARAM_TABLE_COLUMN + 1]`
  abbrev pub table_text : ParamInfo → Bytes
  table_text i = fitted (table_column + 1) (or_else (decimal i.table) i.table_name)

  -- Both callbacks return whether the header is printed.
  unfoldable pub print_param_description : ListContext → Bool → ParamInfo → Proc ShellCall Bool
  print_param_description c header_printed i = if passes_over c i then pure header_printed else (do
    if header_printed then pure tt else print_describe_header
    tell (
        shell_print (
          first_cells (table_text i) i
            (pad_right 6 (or_else (codes "-") i.unit) ∷ or_else (codes "-") i.description ∷ [])))
    pure true)

  -- A remote listing shows no value.
  abbrev pub listed_value : ListContext → ParamInfo → Proc ShellCall Bytes
  listed_value c i = if not c.local then pure (codes "-") else (do
    result ← ask env.result (param_get i.name)
    v ← recall env.value
    pure (if is_ok result then value_text env v else codes "-"))

  unfoldable pub print_param_info : ListContext → Bool → ParamInfo → Proc ShellCall Bool
  print_param_info c header_printed i = if passes_over c i then pure header_printed else (do
    if header_printed then pure tt else print_list_header
    value ← listed_value c i
    tell (shell_print (first_cells (table_text i) i (value ∷ [])))
    pure true)

  -- A callback that never stops, over a visit.
  unfoldable pub over_visit :
      (Bool → ParamInfo → Proc ShellCall Bool) → Bool → List ParamInfo → Proc ShellCall Bool
  over_visit callback header_printed [] = pure header_printed
  over_visit callback header_printed (i ∷ is) =
      callback header_printed i >>= λ printed. over_visit callback printed is

  abbrev pub visit_all : (Bool → ParamInfo → Proc ShellCall Bool) → Bool → Proc ShellCall Bool
  visit_all callback header_printed = recall env.visited >>= over_visit callback header_printed
