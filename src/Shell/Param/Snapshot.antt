-- ===== src/Shell/Param/Snapshot.antt =====
-- The snapshot of the persistent parameters: `param save`, `persist`, `load`, `defaults` and
-- `clear`.
use k_fsw.Base.{ℕ, not, ◌++◌, ◌==◌, if◌then◌else◌, ℤ, ok, is_ok, ◌==ℤ◌, enoent}
use k_fsw.Text.{Bytes, codes, decimal, signed}
use k_fsw.Env.{Proc, pure, ◌>>=◌, ◌>>◌, tell, recall}
use k_fsw.Shell.Service.{
  param_persist_save, param_persist_load, param_persist_clear, param_persist_table_count,
  param_restore_defaults,
}
use k_fsw.Shell.{ShellCall, shell_print, shell_warn, ask}
use k_fsw.Shell.Param.{ParamShell, refuse, or_einval}
use k_fsw.Shell.Param.Listing.{parse_table_id}

-- The text of a failure and that of a success.
abbrev reported : Bytes → Bytes → ℤ → Proc ShellCall ℤ
reported failure success result =
    if not (is_ok result)
    then refuse (failure ++ codes ": FAIL (" ++ signed result ++ codes ")") result
    else (do tell (shell_print success); pure ok)

abbrev plural : ℕ → Bytes → Bytes
plural n noun = decimal n ++ codes " " ++ noun ++ (if n == 1 then codes "" else codes "s")

module _ (env : ParamShell) where
  unfoldable pub cmd_param_save : Proc ShellCall ℤ
  cmd_param_save =
      ask env.result param_persist_save
      >>= reported (codes "Parameter snapshot save") (codes "Parameter snapshot save: PASS")

  abbrev snapshot_saved : ℕ → ℕ → ℤ → Proc ShellCall ℤ
  snapshot_saved table kept result =
      if not (is_ok result)
      then refuse (codes "Parameter snapshot save: FAIL (" ++ signed result ++ codes ")") result
      else (do
        bytes ← recall env.persist_bytes
        tell (
            shell_print (
              codes "Snapshot written, "
              ++ plural bytes (codes "byte")
              ++ codes "; table "
              ++ decimal table
              ++ codes " contributes "
              ++ plural kept (codes "value")))
        pure ok)

  abbrev table_counted : ℕ → ℤ → Proc ShellCall ℤ
  table_counted table result =
      if result ==ℤ enoent
      then refuse (codes "No table " ++ decimal table ++ codes " on this node") result
      else if not (is_ok result)
      then refuse (codes "table " ++ decimal table ++ codes ": " ++ signed result) result
      else (do
        kept ← recall env.kept
        if kept == 0
            then tell (
                shell_warn
                  (codes "Table " ++ decimal table ++ codes " keeps nothing across a reset"))
            else pure tt
        saved ← ask env.result param_persist_save
        snapshot_saved table kept saved)

  unfoldable pub cmd_param_persist : Bytes → Proc ShellCall ℤ
  cmd_param_persist first =
      parse_table_id env first
      >>= or_einval
          (λ table. ask env.result (param_persist_table_count table) >>= table_counted table)

  abbrev loaded : ℤ → Proc ShellCall ℤ
  loaded result =
      if result ==ℤ enoent
      then refuse (codes "Parameter snapshot load: no saved snapshot") result
      else reported (codes "Parameter snapshot load") (codes "Parameter snapshot load: PASS") result

  unfoldable pub cmd_param_load : Proc ShellCall ℤ
  cmd_param_load = ask env.result param_persist_load >>= loaded

  unfoldable pub cmd_param_defaults : Proc ShellCall ℤ
  cmd_param_defaults =
      ask env.result param_restore_defaults
      >>= reported (codes "Parameter defaults")
          (codes "Parameter defaults: PASS (saved snapshot unchanged)")

  unfoldable pub cmd_param_clear : Proc ShellCall ℤ
  cmd_param_clear =
      ask env.result param_persist_clear
      >>= reported (codes "Parameter snapshot clear")
          (codes "Parameter snapshot clear: PASS (RAM unchanged)")
