-- ===== src/Shell/Param/Tables.antt =====
-- `param whichtables`: the tables of this node or of another.
use k_fsw.Base.{
  ℕ, zero, suc, ◌+◌, ◌-◌, ◌%◌, Bool, false, not, Option, none, some, List, [], ◌∷◌, ◌++◌, ◌==◌, leb,
  if◌then◌else◌, ℤ, ok, is_ok, ◌==ℤ◌, enotsup,
}
use k_fsw.Text.{Bytes, codes, decimal, signed, pad_left, pad_right}
use k_fsw.Env.{Proc, pure, ◌>>=◌, ◌>>◌, tell, recall}
use k_fsw.Shell.Service.{
  param_visit_tables, param_persist_table_count, param_remote_tables, param_remote_visit,
}
use k_fsw.Shell.{ShellCall, shell_print, ask}
use k_fsw.Shell.Remote.{remote_failed}
use k_fsw.Shell.Param.{
  ParamInfo, TableInfo, ParamShell, this_node, refuse, or_einval, parse_param_node,
}
use k_fsw.Shell.Param.Columns.{or_else, cells, dashes}

-- TABLE_NAME_COLUMN
abbrev table_name_column : ℕ
table_name_column = 12

-- `tally_table` over a visit, for one table: a count of 16 bits, and no table above the last.
unfoldable pub tally : ℕ → ℕ → ℕ → List ParamInfo → ℕ
tally last table counted [] = counted
tally last table counted (i ∷ is) =
    let one_more = tally last table ((counted + 1) % 65536) is in
    let same = tally last table counted is in
    if leb i.table last then if i.table == table then one_more else same else same

-- `find_table` over a visit: the first with the identifier ends it.
unfoldable pub find_table : ℕ → List TableInfo → Option TableInfo
find_table id [] = none
find_table id (t ∷ ts) = let rest = find_table id ts in if t.id == id then some t else rest

abbrev table_holds : TableInfo → Bytes
table_holds t = or_else [] t.description

module _ (env : ParamShell) where
  -- The columns that the three listings share, behind the identifier.
  abbrev table_cells : ℕ → Bytes → ℕ → List Bytes → Bytes
  table_cells id name count rest = cells (
      pad_left 3 (decimal id)
      ∷ pad_right 7 (env.band_name id)
      ∷ pad_right table_name_column name
      ∷ pad_left 6 (decimal count)
      ∷ rest)

  -- The heading, with the column for what is kept or without.
  unfoldable pub print_table_heading : Bool → Proc ShellCall (Unit {0})
  print_table_heading kept = do
    tell (
        shell_print (
          cells (
            codes " id"
            ∷ pad_right 7 (codes "layer")
            ∷ pad_right table_name_column (codes "name")
            ∷ pad_left 6 (codes "params")
            ∷ (if kept
                then pad_left 4 (codes "kept") ∷ codes "holds" ∷ []
                else codes "holds" ∷ []))))
    tell (
        shell_print (
          cells (
            dashes 3
            ∷ dashes 7
            ∷ dashes table_name_column
            ∷ dashes 6
            ∷ (if kept then dashes 4 ∷ dashes 5 ∷ [] else dashes 5 ∷ []))))

  -- How many values of a table are saved; a count that fails leaves 0.
  abbrev kept_of : ℕ → Proc ShellCall ℕ
  kept_of id = do
    result ← ask env.result (param_persist_table_count id)
    kept ← recall env.kept
    pure (if is_ok result then kept else 0)

  abbrev with_kept : TableInfo → Proc ShellCall (Unit {0})
  with_kept t = do
    kept ← kept_of t.id
    tell (
        shell_print
          (table_cells t.id t.name t.count (pad_left 4 (decimal kept) ∷ table_holds t ∷ [])))

  unfoldable pub print_table_info : TableInfo → Proc ShellCall (Unit {0})
  print_table_info t =
      if env.persistence
      then with_kept t
      else tell (shell_print (table_cells t.id t.name t.count (table_holds t ∷ [])))

  abbrev print_tables : List TableInfo → Proc ShellCall (Unit {0})
  print_tables [] = pure tt
  print_tables (t ∷ ts) = print_table_info t >> print_tables ts

  -- A node names its own tables, so one that this build does not carry is named too.
  unfoldable pub print_remote_table : List TableInfo → Proc ShellCall (Unit {0})
  print_remote_table [] = pure tt
  print_remote_table (t ∷ ts) = do
    tell (shell_print (table_cells t.id t.name t.count (table_holds t ∷ [])))
    print_remote_table ts

  abbrev counted_row : ℕ → ℕ → Option TableInfo → Bytes
  counted_row table count none = table_cells table (codes "-") count ([] ∷ [])
  counted_row table count (some t) = table_cells table t.name count (table_holds t ∷ [])

  abbrev count_row : ℕ → ℕ → Proc ShellCall (Unit {0})
  count_row table count = if count == 0 then pure tt else (do
    ask env.result param_visit_tables
    tables ← recall env.tables
    tell (shell_print (counted_row table count (find_table table tables))))

  -- The loop over the tables, from one on, for so many more.
  unfoldable pub print_counts : List ParamInfo → ℕ → ℕ → Proc ShellCall ℤ
  print_counts infos table zero = pure ok
  print_counts infos table (suc more) = do
    count_row table (tally env.module_last table 0 infos)
    print_counts infos (table + 1) more

  abbrev counts_known : ℕ → ℤ → Proc ShellCall ℤ
  counts_known node result =
      if not (is_ok result)
      then remote_failed (codes "param whichtables") node result
      else recall env.visited >>= λ infos.
          print_counts infos env.core_first (env.module_last + 1 - env.core_first)

  -- A node that does not serve the list has its descriptors counted.
  unfoldable pub print_remote_tables : ℕ → Proc ShellCall ℤ
  print_remote_tables node = do
    print_table_heading false
    result ← ask env.result (param_remote_tables node)
    recall env.tables >>= print_remote_table
    if is_ok result
        then pure ok
        else (if not (result ==ℤ enotsup)
            then remote_failed (codes "param whichtables") node result
            else ask env.result (param_remote_visit node) >>= counts_known node)

  unfoldable pub print_local_tables : Proc ShellCall ℤ
  print_local_tables = do
    print_table_heading env.persistence
    result ← ask env.result param_visit_tables
    recall env.tables >>= print_tables
    if is_ok result
        then pure result
        else refuse (codes "parameter tables failed (" ++ signed result ++ codes ")") result

  unfoldable pub cmd_param_whichtables : Option Bytes → Proc ShellCall ℤ
  cmd_param_whichtables none = print_local_tables
  cmd_param_whichtables (some text) =
      parse_param_node env text
      >>= or_einval
          (λ node. if node == this_node then print_local_tables else print_remote_tables node)
