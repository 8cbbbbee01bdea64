-- ===== src/Shell/Param/Format.antt =====
-- The text of a parameter's value: `format_param_value` of app/src/shell/shell_param.c.
use k_fsw.Base.{
  ◌==◌, ℕ, ◌+◌, ◌-◌, Bool, true, false, List, [], ◌∷◌, ◌++◌, ltb, if◌then◌else◌, length,
}
use k_fsw.Text.{Bytes, codes, decimal, signed, hex_fixed, fitted}
use k_fsw.Parameters.Definition.{
  ParamType, u8, u16, u32, u64, i8, i16, i32, i64, x8, x16, x32, x64, float, double, string, array,
}
use k_fsw.Shell.Service.{ParamValue}

-- CONFIG_KFSW_PARAM_FLOAT, and what `%.6g` and `%.12g` print for the bits of a number.
pub record FormatParts : Type 0 where
  pub floats : Bool
  pub print_float : ℕ → Bytes
  pub print_double : ℕ → Bytes

-- The loop over the bytes of an array, on the text so far: it goes on while five more bytes and
-- the end fit, which one byte with its separator never takes.
unfoldable pub data_from : ℕ → Bytes → List ℕ → Bytes
data_from size text [] = text
data_from size text (b ∷ bs) =
    let separator = if length text == 0 then b'[' else b',' in
    let rest = data_from size (text ++ separator ∷ decimal b) bs in
    if ltb (length text + 5) size then rest else text

unfoldable pub format_data : ℕ → List ℕ → Bytes
format_data size bytes =
    let text = data_from size [] bytes in text ++ fitted (size - length text) (codes "]")

-- By the type of the value; an array has a loop of its own.
unfoldable pub scalar_text : FormatParts → ParamValue → ParamType → Bytes
scalar_text p v u8 = decimal v.unsigned
scalar_text p v u16 = decimal v.unsigned
scalar_text p v u32 = decimal v.unsigned
scalar_text p v u64 = decimal v.unsigned
scalar_text p v i8 = signed v.signed
scalar_text p v i16 = signed v.signed
scalar_text p v i32 = signed v.signed
scalar_text p v i64 = signed v.signed
scalar_text p v x8 = codes "0x" ++ hex_fixed 2 v.unsigned
scalar_text p v x16 = codes "0x" ++ hex_fixed 4 v.unsigned
scalar_text p v x32 = codes "0x" ++ hex_fixed 8 v.unsigned
scalar_text p v x64 = codes "0x" ++ hex_fixed 16 v.unsigned
scalar_text p v float = if p.floats then p.print_float v.floating else codes "<unsupported>"
scalar_text p v double = if p.floats then p.print_double v.floating else codes "<unsupported>"
scalar_text p v string = b'"' ∷ v.text ++ codes "\""
scalar_text p v _ = codes "<unsupported>"

unfoldable pub is_data : ParamType → Bool
is_data array = true
is_data _ = false

-- `format_param_value`: what is left in a buffer of so many bytes.
unfoldable pub format_param_value : FormatParts → ℕ → ParamValue → Bytes
format_param_value p size v =
    if is_data v.type then format_data size v.bytes else fitted size (scalar_text p v v.type)
