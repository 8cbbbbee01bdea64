-- ===== src/Parameters/System.antt =====
-- app/src/parameters/system_table.c: table 2, the boot delay, the report period and the pin that
-- a reboot must quote.
pub mod Pin
pub mod Period
mod Tests
use k_fsw.Base.{
  ℕ, ◌/◌, ◌%◌, Bool, true, false, not, ◌||◌, ◌&&◌, Option, none, some, List, [], ◌∷◌, leb, ltb,
  ◌==◌, if◌then◌else◌, ℤ, ok, einval, erange, length, bit_or, bit_xor,
}
use k_fsw.Text.{Bytes, codes, is_digit}
use k_fsw.Parameters.Definition.{
  u16, string, number, chars, Flags, no_flags, Value, Definition, DefinitionSet,
}

-- CONFIG_KFSW_HEALTH and CONFIG_KFSW_APP_HEALTH_DEADLINE_MS.
pub record SystemConfig : Type 0 where
  pub health : Bool
  pub deadline_ms : ℕ

abbrev pub app_report_ms_default : SystemConfig → ℕ
app_report_ms_default c = if c.health then c.deadline_ms / 4 else 1000

abbrev pub app_report_ms_max : SystemConfig → ℕ
app_report_ms_max c = if c.health then c.deadline_ms / 2 else 65535

abbrev pub reboot_pin_size : ℕ
reboot_pin_size = 9

-- The statics of the file. The period is stored in 16 bits.
pub record SystemValues : Type 0 where
  pub boot_delay_ms : ℕ
  pub app_report_ms : ℕ
  pub reboot_pin : Bytes

abbrev pub initial : SystemConfig → SystemValues
initial c = record {
  boot_delay_ms = 0;
  app_report_ms = app_report_ms_default c % 65536;
  reboot_pin = codes "0000";
}

-- The loop over the digits.
unfoldable pub all_digits : Bytes → Bool
all_digits [] = true
all_digits (c ∷ cs) = if not (is_digit c) then false else all_digits cs

unfoldable pub validate_reboot_pin : Bytes → ℤ
validate_reboot_pin text =
    if length text == 0 || leb reboot_pin_size (length text)
    then einval
    else if all_digits text
    then ok
    else einval

-- The loop over the bytes of the stored pin, onto the difference so far.
unfoldable pub difference_from : ℕ → Bytes → Bytes → ℕ
difference_from difference (p ∷ pin) (s ∷ stored) =
    difference_from (bit_or difference (bit_xor p s % 256) % 256) pin stored
difference_from difference _ _ = difference

-- `kfsw_system_reboot_pin_matches`
unfoldable pub reboot_pin_matches : SystemValues → Option Bytes → Bool
reboot_pin_matches v none = false
reboot_pin_matches v (some pin) =
    if not (length pin == length v.reboot_pin)
    then false
    else difference_from 0 pin v.reboot_pin == 0

unfoldable pub validate_app_report_ms : SystemConfig → ℕ → ℤ
validate_app_report_ms c value =
    if value == 0 || ltb (app_report_ms_max c) value then erange else ok

abbrev persistent : Flags
persistent = record no_flags { configuration = true; persistent = true }

pub system_definitions : SystemConfig → List (Definition SystemValues)
system_definitions c =
    record {
      offset = 0x10;
      type = string;
      capacity = reboot_pin_size;
      flags = persistent;
      name = codes "reboot_pin";
      unit = none;
      default = chars (codes "0000");
      sample = none;
      validate = none;
      validate_text = some validate_reboot_pin;
      changed = none;
    }
    ∷ record {
      offset = 0x00;
      type = u16;
      capacity = 0;
      flags = persistent;
      name = codes "boot_delay_ms";
      unit = some (codes "ms");
      default = number 0;
      sample = none;
      validate = none;
      validate_text = none;
      changed = none;
    }
    ∷ record {
      offset = 0x02;
      type = u16;
      capacity = 0;
      flags = record persistent { live = true };
      name = codes "app_report_ms";
      unit = some (codes "ms");
      default = number (app_report_ms_default c % 65536);
      sample = none;
      validate = some (validate_app_report_ms c);
      validate_text = none;
      changed = none;
    }
    ∷ []

pub system_set : SystemConfig → DefinitionSet SystemValues
system_set c = record { table = 2; name = codes "system"; definitions = system_definitions c }

-- `kfsw_system_boot_delay_ms` and `kfsw_system_app_report_ms`
unfoldable pub boot_delay_ms : SystemValues → ℕ
boot_delay_ms v = v.boot_delay_ms

unfoldable pub app_report_ms : SystemValues → ℕ
app_report_ms v = v.app_report_ms
