-- ===== src/Shell/Param/Listing.antt =====
-- The listings `param describe` and `param listall`, and a table of this node.
use k_fsw.Base.{
  ℕ, ◌+◌, ◌%◌, Bool, true, false, not, ◌&&◌, ◌||◌, Option, none, some, List, [], ◌∷◌, ◌++◌, ltb,
  ◌==◌, if◌then◌else◌, ℤ, ok, is_ok, ◌==ℤ◌, enospc, enotsup, length,
}
use k_fsw.Text.{Bytes, codes, decimal, signed}
use k_fsw.Env.{Proc, pure, ◌>>=◌, ◌>>◌, tell, recall}
use k_fsw.Shell.Service.{
  param_visit, param_remote_visit, param_remote_visit_table, param_remote_tables,
}
use k_fsw.Shell.{ShellCall, shell_print, shell_error, ask}
use k_fsw.Shell.Remote.{no_answer, remote_failed}
use k_fsw.Shell.Param.{TableInfo, ParamShell, this_node, refuse, or_einval, parse_param_node}
use k_fsw.Shell.Param.Columns.{ListContext, print_param_description, print_param_info, visit_all}

-- The identifiers of a visit of tables, as many as the array holds.
unfoldable pub collect_ids : ℕ → List ℕ → List TableInfo → List ℕ
collect_ids max ids [] = ids
collect_ids max ids (t ∷ ts) =
    let rest = collect_ids max (ids ++ t.id ∷ []) ts in
    let full = collect_ids max ids ts in if ltb (length ids) max then rest else full

module _ (env : ParamShell) where
  abbrev table_read : ℕ × ℤ → Proc ShellCall (Option ℕ)
  table_read (parsed, parse_error) =
      if not (is_ok parse_error) || ltb parsed env.core_first || ltb env.module_last parsed
      then (do
        tell (
            shell_error (
              codes "table must be in range "
              ++ decimal env.core_first
              ++ codes ".."
              ++ decimal env.module_last))
        pure none)
      else pure (some (parsed % 256))

  -- `parse_table_id`: the table, or none with -EINVAL.
  unfoldable pub parse_table_id : Bytes → Proc ShellCall (Option ℕ)
  parse_table_id text = table_read (env.parts.strtoul text)

  abbrev described : ListContext → Proc ShellCall ℤ
  described c = do
    result ← ask env.result param_visit
    printed ← visit_all env (print_param_description env c) false
    if not (is_ok result)
        then refuse (codes "describe: " ++ signed result) result
        else (do if printed then pure tt else tell (shell_print (codes "no parameters")); pure ok)

  unfoldable pub cmd_param_describe : Option Bytes → Proc ShellCall ℤ
  cmd_param_describe none = described (record { table = none; local = true })
  cmd_param_describe (some text) =
      parse_table_id text
      >>= or_einval (λ table. described (record { table = some table; local = true }))

  abbrev everywhere : ListContext
  everywhere = record { table = none; local = false }

  -- One table after the other, up to an error.
  unfoldable pub list_tables : ℕ → Bool → List ℕ → Proc ShellCall ℤ
  list_tables node printed [] = pure ok
  list_tables node printed (id ∷ ids) = do
    result ← ask env.result (param_remote_visit_table node id)
    printed' ← visit_all env (print_param_info env everywhere) printed
    if not (is_ok result) then pure result else list_tables node printed' ids

  -- A node that does not serve its table list is asked for everything.
  unfoldable pub list_remote_parameters : ℕ → Proc ShellCall ℤ
  list_remote_parameters node = ask env.result (param_remote_tables node) >>= λ result.
      if result ==ℤ enotsup
      then (do
        all ← ask env.result (param_remote_visit node)
        visit_all env (print_param_info env everywhere) false
        pure all)
      else if not (is_ok result)
      then pure result
      else recall env.tables >>= λ tables.
          list_tables node false (collect_ids (env.module_last + 1) [] tables)

  -- The end of `cmd_param_listall`; a full cache of another node has a text of its own.
  abbrev listing_end : Bool → ℤ → Proc ShellCall ℤ
  listing_end local result =
      if env.csp && (result ==ℤ enospc) && not local
      then refuse
          (codes "parameter list failed: the remote cache holds "
            ++ decimal env.remote_pool_size
            ++ codes " descriptors; raise CONFIG_KFSW_PARAM_REMOTE_POOL_SIZE")
          result
      else if not (is_ok result)
      then refuse (codes "parameter list failed (" ++ signed result ++ codes ")") result
      else pure result

  unfoldable pub list_here : Proc ShellCall ℤ
  list_here = do
    result ← ask env.result param_visit
    visit_all env (print_param_info env (record { table = none; local = true })) false
    listing_end true result

  unfoldable pub list_there : ℕ → Proc ShellCall ℤ
  list_there node = list_remote_parameters node >>= λ result.
      if no_answer result
      then remote_failed (codes "param listall") node result
      else listing_end false result

  unfoldable pub cmd_param_listall : Option Bytes → Proc ShellCall ℤ
  cmd_param_listall none = list_here
  cmd_param_listall (some text) =
      parse_param_node env text
      >>= or_einval (λ node. if node == this_node then list_here else list_there node)

  unfoldable pub print_local_table : ℕ → Proc ShellCall ℤ
  print_local_table table = do
    result ← ask env.result param_visit
    printed ←
        visit_all env (print_param_info env (record { table = some table; local = true })) false
    if not (is_ok result)
        then refuse (codes "parameter table failed (" ++ signed result ++ codes ")") result
        else (do
          if printed
              then pure tt
              else tell (
                  shell_print
                    (codes "table " ++ decimal table ++ codes " holds no parameters here"))
          pure ok)
