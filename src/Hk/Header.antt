-- ===== src/Hk/Header.antt =====
-- What hk_entries.c takes from <kfsw/services/hk.h> and <kfsw/services/parameter.h>.
use k_fsw.Base.{ℕ}

-- KFSW_HK_NODE_LOCAL, KFSW_HK_CLASS_DEFAULT, KFSW_HK_CLASS_MAX, KFSW_PARAM_OFFSET_MAX and the
-- macro KFSW_PARAM_ID of a table and an offset.
pub record HkHeader : Type 0 where
  pub node_local : ℕ
  pub class_default : ℕ
  pub class_max : ℕ
  pub offset_max : ℕ
  pub param_id : ℕ → ℕ → ℕ

-- `struct kfsw_hk_entry`
pub record Entry : Type 0 where
  pub node : ℕ
  pub param_id : ℕ
