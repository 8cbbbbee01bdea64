-- ===== src/Text.antt =====
-- C strings as lists of bytes with the final NUL left out, and the functions of <string.h>,
-- <ctype.h> and printf that the application calls on them.
pub mod Strtoul
pub mod Decimal
use Prim.Native.Char.{code}
use k_fsw.Base.{
  ℕ, zero, suc, ◌+◌, ◌-◌, ◌/◌, ◌%◌, ◌<◌, String, ◌≡◌, refl, ◌↔◌, Bool, true, false, ◌&&◌, ◌||◌,
  List, [], ◌∷◌, ◌++◌, arith, ltb, leb, ◌==◌, if◌then◌else◌, ℤ, pos, negsuc, length, take,
}

abbrev pub Bytes : Type 0
Bytes = List ℕ

-- The bytes of an ASCII text.
abbrev pub codes : String → Bytes
codes String.[] = []
codes (String.◌∷◌ c s) = code c ∷ codes s

-- `strcmp(a, b) == 0`
unfoldable pub str_eq : Bytes → Bytes → Bool
str_eq [] [] = true
str_eq (x ∷ xs) (y ∷ ys) = x == y && str_eq xs ys
str_eq _ _ = false

pub str_eq_iff : (a b : Bytes) → (str_eq a b ≡ true) ↔ (a ≡ b)
unfolding str_eq
str_eq_iff (x ∷ a) (y ∷ b) = ground (arith, str_eq_iff a b)
str_eq_iff _ _ = ground arith

-- `strncmp(text, prefix, strlen(prefix)) == 0`
unfoldable pub starts_with : Bytes → Bytes → Bool
starts_with [] text = true
starts_with (p ∷ ps) [] = false
starts_with (p ∷ ps) (c ∷ cs) = p == c && starts_with ps cs

-- `strchr(text, c) != NULL`, for a `c` that is not NUL.
unfoldable pub has_char : ℕ → Bytes → Bool
has_char c [] = false
has_char c (x ∷ xs) = x == c || has_char c xs

-- `isdigit` and `isspace` in the C locale.
abbrev pub is_digit : ℕ → Bool
is_digit c = leb b'0' c && leb c b'9'

abbrev pub is_space : ℕ → Bool
is_space c = c == 32 || (leb 9 c && leb c 13)

-- What `%u` prints, on fuel for the digits.
unfoldable pub decimal_on : ℕ → ℕ → Bytes
decimal_on zero n = []
decimal_on (suc fuel) n =
    let higher = decimal_on fuel (n / 10) in
    if ltb n 10 then (b'0' + n) ∷ [] else higher ++ (b'0' + n % 10) ∷ []

unfoldable pub decimal : ℕ → Bytes
unfolding decimal_on
decimal n = decimal_on (suc n) n

-- What `%d` prints.
unfoldable pub signed : ℤ → Bytes
unfolding decimal
signed (pos n) = decimal n
signed (negsuc n) = b'-' ∷ decimal (suc n)

-- A lower case hexadecimal digit, and what `%02x` prints for a byte.
unfoldable pub hex_digit : ℕ → ℕ
hex_digit d = if ltb d 10 then b'0' + d else b'a' + (d - 10)

unfoldable pub hex_byte : ℕ → Bytes
unfolding hex_digit
hex_byte b = hex_digit (b / 16) ∷ hex_digit (b % 16) ∷ []

unfoldable pub hex_bytes : List ℕ → Bytes
unfolding hex_byte
hex_bytes [] = []
hex_bytes (b ∷ bs) = hex_byte b ++ hex_bytes bs

-- The text that `snprintf(buffer, size, …)` leaves in the buffer, for a size that is not 0.
abbrev pub fitted : ℕ → Bytes → Bytes
fitted size text = take (size - 1) text

-- What `%0*x` prints for a number of at most so many hexadecimal digits.
unfoldable pub hex_fixed : ℕ → ℕ → Bytes
unfolding hex_digit
hex_fixed zero n = []
hex_fixed (suc width) n = hex_fixed width (n / 16) ++ hex_digit (n % 16) ∷ []

-- A text in a column: `%-*s` fills it on the right and `%*s` on the left, a longer text stays.
abbrev pub spaces : ℕ → Bytes
spaces zero = []
spaces (suc n) = b' ' ∷ spaces n

unfoldable pub pad_right : ℕ → Bytes → Bytes
pad_right width text = text ++ spaces (width - length text)

unfoldable pub pad_left : ℕ → Bytes → Bytes
pad_left width text = spaces (width - length text) ++ text

-- A printed number with zeros in front, as `%0*u` fills it.
abbrev zeros : ℕ → Bytes
zeros zero = []
zeros (suc n) = b'0' ∷ zeros n

unfoldable pub pad_zero : ℕ → Bytes → Bytes
pad_zero width digits = zeros (width - length digits) ++ digits
