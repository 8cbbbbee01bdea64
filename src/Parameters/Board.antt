-- ===== src/Parameters/Board.antt =====
-- app/src/parameters/board_table.c: the identity of the node and what the board carries.
pub mod Identity
pub mod Rows
mod Tests
use k_fsw.Base.{
  ℕ, zero, suc, ◌+◌, ◌%◌, Bool, true, false, Option, none, some, List, [], ◌∷◌, ◌++◌, ltb, ◌==◌,
  if◌then◌else◌, ℤ, ok, einval, length, get_elem?,
}
use k_fsw.Text.{Bytes, codes}
use k_fsw.Parameters.Definition.{
  ParamType, u8, u16, u32, x32, string, number, chars, Flags, no_flags, Value, Definition,
  DefinitionSet,
}

-- The options of the build that the table shows, with CONFIG_KFSW_CSP_ADDRESS and
-- CONFIG_KFSW_CSP_CAN_BITRATE, KFSW_HARDWARE_ID_TEXT_SIZE, the driver's test of a bitrate, and
-- the one that it runs at when it is asked for another.
pub record BoardConfig : Type 0 where
  pub csp : Bool
  pub can : Bool
  pub kiss : Bool
  pub shell : Bool
  pub storage : Bool
  pub csp_address : ℕ
  pub can_bitrate : ℕ
  pub hardware_id_size : ℕ
  pub bitrate_supported : ℕ → Bool
  pub set_bitrate : ℕ → ℕ → ℕ

-- What the running configuration and the boot service give, the static texts, and the bitrate of
-- the driver. A text that may be NULL is an Option.
pub record BoardWorld : Type 0 where
  pub hostname : Option Bytes
  pub model : Option Bytes
  pub revision : Option Bytes
  pub hardware_id : Option Bytes
  pub address : ℕ
  pub reset_cause : ℕ
  pub bitrate : ℕ
  pub board_uid : Bytes
  pub board_model : Bytes
  pub board_revision : Bytes
  pub board_node_id : ℕ

-- KFSW_BOARD_UID_SIZE, KFSW_BOARD_MODEL_SIZE and KFSW_BOARD_REVISION_SIZE
abbrev pub uid_size : ℕ
uid_size = 32

abbrev pub model_size : ℕ
model_size = 32

abbrev pub revision_size : ℕ
revision_size = 40

-- The loop of `sample_identity`: how much room the source still has, and the text copied so far.
unfoldable pub copy_from : ℕ → Bytes → Bytes → Bytes
copy_from size copied [] = copied
copy_from size copied (c ∷ cs) =
    let rest = copy_from size (copied ++ c ∷ []) cs in
    if ltb (length copied + 1) size then rest else copied

-- `sample_identity`: the text that it leaves in front of the NUL.
unfoldable pub sample_identity : ℕ → Option Bytes → Bytes
sample_identity size none = []
sample_identity size (some source) = copy_from size [] source

module _ (c : BoardConfig) where
  -- A text that is sampled from the running configuration, and stays as it was without CSP.
  unfoldable pub sample_text :
      ℕ → (BoardWorld → Option Bytes) → (BoardWorld → Bytes) → BoardWorld → Value × BoardWorld
  sample_text size source kept w =
      (chars (if c.csp then sample_identity size (source w) else kept w), w)

  unfoldable pub sample_hardware_id : BoardWorld → Value × BoardWorld
  sample_hardware_id w = (chars (sample_identity c.hardware_id_size w.hardware_id), w)

  unfoldable pub sample_node_id : BoardWorld → Value × BoardWorld
  sample_node_id w = (number (if c.csp then w.address else w.board_node_id), w)

  unfoldable pub sample_reset_cause : BoardWorld → Value × BoardWorld
  sample_reset_cause w = (number w.reset_cause, w)

  unfoldable pub sample_can_speed : BoardWorld → Value × BoardWorld
  sample_can_speed w = (number w.bitrate, w)

  unfoldable pub validate_can_speed : ℕ → ℤ
  validate_can_speed bitrate = if c.bitrate_supported bitrate then ok else einval

  unfoldable pub changed_can_speed : ℕ → BoardWorld → BoardWorld
  changed_can_speed bitrate w = record w { bitrate = c.set_bitrate bitrate w.bitrate }

  -- KFSW_BOARD_NODE_ID_DEFAULT
  abbrev node_id_default : ℕ
  node_id_default = if c.csp then c.csp_address else 0

  abbrev system_info : Flags
  system_info = record no_flags { read_only = true; system_info = true }

  abbrev flag : Bool → ℕ
  flag b = if b then 1 else 0

  abbrev row :
      ℕ
      → ParamType
      → ℕ
      → Bytes
      → Value
      → Option (BoardWorld → Value × BoardWorld)
      → Definition BoardWorld
  row offset type capacity name default sample = record {
    offset = offset;
    type = type;
    capacity = capacity;
    flags = system_info;
    name = name;
    unit = none;
    default = default;
    sample = sample;
    validate = none;
    validate_text = none;
    changed = none;
  }

  abbrev text_row : ℕ → ℕ → Bytes → (BoardWorld → Value × BoardWorld) → Definition BoardWorld
  text_row offset capacity name sample = row offset string capacity name (chars []) (some sample)

  abbrev switch_row : ℕ → Bytes → Bool → Definition BoardWorld
  switch_row offset name enabled = row offset u8 0 name (number (flag enabled)) none

  -- The bitrate is the one value that can be written.
  abbrev can_speed_row : Definition BoardWorld
  can_speed_row = record {
    offset = 0x0c;
    type = u32;
    capacity = 0;
    flags = no_flags;
    name = codes "can_speed";
    unit = none;
    default = number c.can_bitrate;
    sample = some sample_can_speed;
    validate = some validate_can_speed;
    validate_text = none;
    changed = some changed_can_speed;
  }

  abbrev pub board_definitions : List (Definition BoardWorld)
  board_definitions =
      row 0x00 u16 0 (codes "node_id") (number node_id_default) (some sample_node_id)
        ∷ text_row 0x10 uid_size (codes "uid")
            (sample_text uid_size (λ w. w.hostname) (λ w. w.board_uid))
        ∷ text_row 0x40 c.hardware_id_size (codes "hw_id") sample_hardware_id
        ∷ text_row 0x20 model_size (codes "model")
            (sample_text model_size (λ w. w.model) (λ w. w.board_model))
        ∷ text_row 0x30 revision_size (codes "revision")
            (sample_text revision_size (λ w. w.revision) (λ w. w.board_revision))
        ∷ switch_row 0x02 (codes "csp_enabled") c.csp
        ∷ switch_row 0x05 (codes "can_enabled") c.can
        ∷ (if c.can then can_speed_row ∷ [] else [])
      ++ switch_row 0x03 (codes "kiss_enabled") c.kiss
        ∷ row 0x04 x32 0 (codes "reset_cause") (number 0) (some sample_reset_cause)
        ∷ switch_row 0x08 (codes "shell_enabled") c.shell
        ∷ switch_row 0x09 (codes "storage_enabled") c.storage
        ∷ []

-- KFSW_PARAM_TABLE_BOARD and its name are the parameter service's.
abbrev pub board_set : BoardConfig → ℕ → Bytes → DefinitionSet BoardWorld
board_set c table name = record { table = table; name = name; definitions = board_definitions c }
