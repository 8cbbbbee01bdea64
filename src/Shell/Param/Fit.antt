-- ===== src/Shell/Param/Fit.antt =====
-- A printed value against its buffer: what is printed of an array, and that nothing overruns.
use mathlib.Core.List.{append_assoc, append-nil}
use k_fsw.Base.{
  ℕ, ◌+◌, ◌-◌, ◌<◌, ◌≡◌, refl, ap, sym, ◌∙◌, inl, inr, true, false, List, [], ◌∷◌, ◌++◌, arith, ltb,
  ◌==◌, All, length, length-append, length-take, take-eq_self, Bool-cases, if◌then◌else◌,
}
use k_fsw.Text.{Bytes, codes, decimal, fitted}
use k_fsw.Text.Decimal.{length-decimal, decimal-cons}
use k_fsw.Shell.Service.{ParamValue}
use k_fsw.Shell.Param.Format.{
  FormatParts, data_from, format_data, scalar_text, is_data, format_param_value,
}

abbrev pub IsByte : ℕ → Type 0
IsByte b = b < 256

length-fitted : (size : ℕ) (text : Bytes) → 0 < size → length (fitted size text) < size
length-fitted size text some_bytes = rw length-take (ground arith)

data_from-below :
    (size : ℕ) (text : Bytes) (bytes : List ℕ)
    → length text < size
    → All IsByte bytes
    → length (data_from size text bytes) < size
unfolding data_from
data_from-below size text [] room bytes = room
data_from-below size text (b ∷ bs) room bytes =
    let next = text ++ (if length text == 0 then b'[' else b',') ∷ decimal b in
    let digits = length-decimal b 2 (omega (arith, bytes.0)) in
    let long = length-append text ((if length text == 0 then b'[' else b',') ∷ decimal b) in
    elim (Bool-cases (ltb (length text + 5) size)) [
      | inl more ↦ rw more (data_from-below size next bs (ground arith) bytes.1)
      | inr full ↦ rw full room
    ]

format_data-below :
    (size : ℕ) (bytes : List ℕ)
    → 0 < size
    → All IsByte bytes
    → length (format_data size bytes) < size
unfolding format_data
format_data-below size bytes some_bytes all =
    let text = data_from size [] bytes in
    let room = data_from-below size [] bytes some_bytes all in
    let long = length-append text (fitted (size - length text) (codes "]")) in
    let end = length-fitted (size - length text) (codes "]") (omega (arith, room)) in
    omega (arith, long, end, room)

-- In a buffer of at least one byte, the text of a value whose array holds bytes leaves room for
-- its NUL.
pub format_param_value-below :
    (p : FormatParts) (size : ℕ) (v : ParamValue)
    → 0 < size
    → All IsByte v.bytes
    → length (format_param_value p size v) < size
unfolding format_param_value
format_param_value-below p size v some_bytes all = elim (Bool-cases (is_data v.type)) [
  | inl array ↦ rw array (format_data-below size v.bytes some_bytes all)
  | inr scalar ↦ rw scalar (length-fitted size (scalar_text p v v.type) some_bytes)
]

-- The bytes of an array, each behind its separator.
abbrev pub elements : ℕ → List ℕ → Bytes
elements separator [] = []
elements separator (b ∷ bs) = separator ∷ decimal b ++ elements b',' bs

-- A first byte and others as a list in brackets, with commas between.
abbrev pub listed : ℕ → List ℕ → Bytes
listed b bs = b'[' ∷ decimal b ++ elements b',' bs ++ codes "]"

abbrev separator_of : Bytes → ℕ
separator_of text = if length text == 0 then b'[' else b','

separator_later : (text rest : Bytes) (c : ℕ) → b',' ≡ separator_of (text ++ c ∷ rest)
separator_later text rest c =
    let long = length-append text (c ∷ rest) in
    let some_bytes : (length (text ++ c ∷ rest) == 0) ≡ false = ground arith in rw some_bytes refl

data_from-elements :
    (size separator : ℕ) (text : Bytes) (bytes : List ℕ)
    → separator ≡ separator_of text
    → length (text ++ elements separator bytes) + 3 < size
    → data_from size text bytes ≡ text ++ elements separator bytes
unfolding data_from
data_from-elements size separator text [] first room = sym (append-nil text)
data_from-elements size separator text (b ∷ bs) first room =
    let (c, cs, shape, digit) = decimal-cons b in
    let long = length-append text (separator ∷ decimal b ++ elements b',' bs) in
    let behind = length-append (decimal b) (elements b',' bs) in
    let some_digit : 0 < length (decimal b) = rw shape (omega arith) in
    let more : ltb (length text + 5) size ≡ true = ground arith in
    let same = append_assoc text (separator ∷ decimal b) (elements b',' bs) in
    rw more (
      rw (← first) (
        data_from-elements size b',' (text ++ separator ∷ decimal b) bs
          (separator_later text (decimal b) separator) (rw same room)
        ∙ same))

-- An array of at least one byte is printed whole, as a list in brackets with commas between, if
-- the list is at least three bytes shorter than the buffer.
pub format_data-listed :
    (size b : ℕ) (bs : List ℕ)
    → length (listed b bs) + 2 < size
    → format_data size (b ∷ bs) ≡ listed b bs
unfolding format_data
format_data-listed size b bs room =
    let body = elements b'[' (b ∷ bs) in
    let long = length-append body (codes "]") in
    let text = data_from-elements size b'[' [] (b ∷ bs) refl (omega (arith, long)) in
    rw text (
      ap (λ end. body ++ end)
        (take-eq_self (size - length body - 1) (codes "]") (omega (arith, long))))
