-- ===== src/Shell/Param/Table.antt =====
-- `param table`: one table of this node or of another, whose values are fetched in windows.
use k_fsw.Base.{
  ℕ, zero, suc, ◌+◌, Bool, not, Option, none, some, List, [], ◌∷◌, ◌++◌, map, leb, ◌==◌,
  if◌then◌else◌, ℤ, ok, is_ok, ◌==ℤ◌, enotsup, length, take, drop,
}
use k_fsw.Text.{Bytes, codes, decimal, fitted}
use k_fsw.Env.{Proc, pure, ◌>>=◌, ◌>>◌, tell, recall}
use k_fsw.Shell.Service.{
  ParamValue, param_remote_visit, param_remote_visit_table, param_remote_get_many,
}
use k_fsw.Shell.{ShellCall, shell_print, ask}
use k_fsw.Shell.Remote.{remote_failed}
use k_fsw.Shell.Param.{ParamInfo, ParamShell, this_node, or_einval, parse_param_node, value_text}
use k_fsw.Shell.Param.Columns.{table_column, print_list_header, first_cells}
use k_fsw.Shell.Param.Listing.{parse_table_id, print_local_table}

-- KFSW_PARAM_TABLE_NAMES_MAX and KFSW_PARAM_REMOTE_WINDOW
abbrev pub table_names_max : ℕ
table_names_max = 32

abbrev pub remote_window : ℕ
remote_window = 8

-- `collect_table_names` over a visit: the descriptors of a table, and an end when there are too
-- many.
unfoldable pub collect_from : ℕ → List ParamInfo → List ParamInfo → List ParamInfo
collect_from table collected [] = collected
collect_from table collected (i ∷ is) =
    let next = collect_from table (collected ++ i ∷ []) is in
    let other = collect_from table collected is in
    if not (i.table == table)
    then other
    else if leb table_names_max (length collected)
    then collected
    else next

module _ (env : ParamShell) where
  -- The rows of one window; without its values the names are listed anyway.
  unfoldable pub print_rows :
      ℕ → Bool → (ℕ → ParamValue) → ℕ → List ParamInfo → Proc ShellCall (Unit {0})
  print_rows table read_ok values offset [] = pure tt
  print_rows table read_ok values offset (i ∷ is) = do
    tell (
        shell_print (
          first_cells env (fitted (table_column + 1) (decimal table)) i
            ((if read_ok then value_text env (values offset) else codes "-") ∷ [])))
    print_rows table read_ok values (offset + 1) is

  -- The loop over the windows, on fuel; the descriptors are those from the base on.
  unfoldable pub print_windows : ℕ → ℕ → ℕ → List ParamInfo → Proc ShellCall ℤ
  print_windows zero node table infos = pure ok
  print_windows (suc fuel) node table [] = pure ok
  print_windows (suc fuel) node table (i ∷ is) =
      let span = take remote_window (i ∷ is) in
      let rest = drop remote_window (i ∷ is) in
      do
        result ← ask env.result (param_remote_get_many node (map (λ x. x.name) span))
        values ← recall env.window
        if is_ok result then pure ok else remote_failed (codes "param table") node result
        print_rows table (is_ok result) values 0 span
        print_windows fuel node table rest

  unfoldable pub print_collected : ℕ → ℕ → List ParamInfo → Proc ShellCall ℤ
  print_collected node table [] = do
    tell
        (shell_print (codes "node " ++ decimal node ++ codes " carries no table " ++ decimal table))
    pure ok
  print_collected node table (i ∷ is) =
      print_list_header env >> print_windows (length (i ∷ is)) node table (i ∷ is)

  abbrev names_known : ℕ → ℕ → ℤ → Proc ShellCall ℤ
  names_known node table result =
      if not (is_ok result)
      then remote_failed (codes "param table") node result
      else recall env.visited >>= λ visited.
          print_collected node table (collect_from table [] visited)

  -- Where the node does not serve one table, its whole list is visited; a visit that is not
  -- supported has gone through nothing.
  unfoldable pub remote_table : ℕ → ℕ → Proc ShellCall ℤ
  remote_table node table = ask env.result (param_remote_visit_table node table) >>= λ result.
      if result ==ℤ enotsup
      then ask env.result (param_remote_visit node) >>= names_known node table
      else names_known node table result

  -- One word is the table; of two the first is the node.
  unfoldable pub cmd_param_table : Bytes → Option Bytes → Proc ShellCall ℤ
  cmd_param_table first none = parse_table_id env first >>= or_einval (print_local_table env)
  cmd_param_table first (some second) =
      parse_param_node env first
      >>= or_einval (λ node.
        parse_table_id env second
        >>= or_einval (λ table.
          if node == this_node then print_local_table env table else remote_table node table))
