-- ===== src/Parameters/Definition.antt =====
-- A row of a parameter table: `struct kfsw_param_definition` of <kfsw/services/parameter.h>, as the
-- tables of app/src/parameters fill it in. `W` is the state that its callbacks read and change.
use k_fsw.Base.{ℕ, Bool, false, Option, ℤ, List}
use k_fsw.Text.{Bytes}

-- `enum kfsw_param_type`
pub data ParamType : Type 0 where
  u8 u16 u32 u64 i8 i16 i32 i64 x8 x16 x32 x64 float double string array invalid : ParamType

-- KFSW_PARAM_FLAG_*
pub record Flags : Type 0 where
  pub read_only : Bool
  pub system_info : Bool
  pub configuration : Bool
  pub persistent : Bool
  pub live : Bool

abbrev pub no_flags : Flags
no_flags = record {
  read_only = false;
  system_info = false;
  configuration = false;
  persistent = false;
  live = false;
}

-- A compiled default, and a value that a callback sees.
pub data Value : Type 0 where
  number : ℕ → Value
  chars : Bytes → Value

-- The description is left out: the application only prints it.
pub record Definition (W : Type 0) : Type 0 where
  pub offset : ℕ
  pub type : ParamType
  pub capacity : ℕ
  pub flags : Flags
  pub name : Bytes
  pub unit : Option Bytes
  pub default : Value
  pub sample : Option (W → Value × W)
  pub validate : Option (ℕ → ℤ)
  pub validate_text : Option (Bytes → ℤ)
  pub changed : Option (ℕ → W → W)

-- `struct kfsw_param_definition_set`; the count is the length of the list.
pub record DefinitionSet (W : Type 0) : Type 0 where
  pub table : ℕ
  pub name : Bytes
  pub definitions : List (Definition W)
