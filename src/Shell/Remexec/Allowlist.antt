-- ===== src/Shell/Remexec/Allowlist.antt =====
-- app/src/remexec/remexec_allowlist.c: the commands that another node may run on this one, without
-- their help texts.
use k_fsw.Base.{Bool, List, [], ◌∷◌, ◌++◌, if◌then◌else◌}
use k_fsw.Text.{Bytes, codes}

-- The options CONFIG_KFSW_* of the build
pub record AllowlistConfig : Type 0 where
  pub storage : Bool
  pub resmon : Bool
  pub event : Bool
  pub csp_kiss_uart : Bool
  pub csp_can : Bool
  pub radio_uhf : Bool

-- The entry of an option.
abbrev when : Bool → Bytes → List Bytes
when enabled command = if enabled then command ∷ [] else []

unfoldable remexec_entries : AllowlistConfig → List Bytes
remexec_entries c =
    (codes "time" ∷ codes "version" ∷ [])
    ++ when c.storage (codes "storage info")
    ++ when c.resmon (codes "resmon show")
    ++ when c.event (codes "event stats")
    ++ when c.csp_kiss_uart (codes "comms uart info")
    ++ when c.csp_can (codes "comms can info")
    ++ when c.radio_uhf (codes "comms uhf status")
