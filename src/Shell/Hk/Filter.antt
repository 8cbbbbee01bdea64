-- ===== src/Shell/Hk/Filter.antt =====
-- What the arguments of `hk stored` and `hk extract` select, and the line a sample is printed as.
use mathlib.Core.List.{append_assoc, append-nil}
use k_fsw.Base.{
  ℕ, zero, suc, ◌+◌, ◌-◌, ◌*◌, ◌%◌, ◌≤◌, ◌≡◌, refl, sym, ◌∙◌, inl, inr, some, List, [], ◌∷◌, ◌++◌,
  map, arith, leb, length, length-append, take, All, ok, Bool-cases,
}
use k_fsw.Text.{Bytes, codes, decimal, starts_with, hex_byte, hex_bytes}
use k_fsw.Env.{run_next}
use k_fsw.Shell.Service.{StoreFilter}
use k_fsw.Shell.{ShellCall}
use k_fsw.Shell.Command.{at_equals}
use k_fsw.Shell.Hk.{HkShell, or_none, parse_u32}
use k_fsw.Shell.Hk.Samples.{
  SampleEnv, line_size, hex_line, every_sample, set_filter, filter_value, filter_from, parse_filter,
}

-- One argument of a filter.
pub data Setting : Type 0 where
  from : ℕ → Setting
  to : ℕ → Setting
  since : ℕ → Setting
  until : ℕ → Setting
  skip : ℕ → Setting

abbrev pub print_setting : Setting → Bytes
print_setting (from n) = codes "from=" ++ decimal n
print_setting (to n) = codes "to=" ++ decimal n
print_setting (since n) = codes "since=" ++ decimal n
print_setting (until n) = codes "until=" ++ decimal n
print_setting (skip n) = codes "skip=" ++ decimal n

abbrev pub number : Setting → ℕ
number (from n) = n
number (to n) = n
number (since n) = n
number (until n) = n
number (skip n) = n

abbrev name : Setting → Bytes
name (from n) = codes "from"
name (to n) = codes "to"
name (since n) = codes "since"
name (until n) = codes "until"
name (skip n) = codes "skip"

at_equals-print : (s : Setting) → at_equals (print_setting s) ≡ some (name s, decimal (number s))
unfolding at_equals
at_equals-print (from n) = refl
at_equals-print (to n) = refl
at_equals-print (since n) = refl
at_equals-print (until n) = refl
at_equals-print (skip n) = refl

-- A sequence has 16 bits and the flags 8.
abbrev pub apply : StoreFilter → Setting → StoreFilter
apply f (from n) = record f { from_sequence = n % 65536 }
apply f (to n) = record f { to_sequence = n % 65536 }
apply f (since n) = record f { from_seconds = n }
apply f (until n) = record f { to_seconds = n }
apply f (skip n) = record f { without_flags = n % 256 }

abbrev pub apply_all : StoreFilter → List Setting → StoreFilter
apply_all f [] = f
apply_all f (s ∷ ss) = apply_all (apply f s) ss

-- A number of 32 bits.
abbrev pub FitsU32 : ℕ → Type 0
FitsU32 n = n ≤ 4294967295

-- The shell's conversion reads a printed number of 32 bits.
abbrev pub ReadsDecimal : HkShell → Type 0
ReadsDecimal env = (n : ℕ) → FitsU32 n → env.strtoul_0 (decimal n) ≡ (n, ok)

module _ (env : HkShell) (reads : ReadsDecimal env) where
  pub parse_u32-decimal :
      (n : ℕ) (what : Bytes) (h : List ShellCall)
      → FitsU32 n
      → parse_u32 env (decimal n) what h ≡ (some n, h)
  unfolding parse_u32
  parse_u32-decimal n what h fits = rw (reads n fits) (ground arith)

module _ (env : SampleEnv) (reads : ReadsDecimal env.shell) where
  filter_value-print :
      (s : Setting) (f : StoreFilter) (h : List ShellCall)
      → FitsU32 (number s)
      → filter_value env (print_setting s) f (some (name s, decimal (number s))) h
        ≡ (some (apply f s), h)
  unfolding set_filter starts_with
  filter_value-print (from n) f h fits =
      rw (parse_u32-decimal env.shell reads n (codes "value") h fits) refl
  filter_value-print (to n) f h fits =
      rw (parse_u32-decimal env.shell reads n (codes "value") h fits) refl
  filter_value-print (since n) f h fits =
      rw (parse_u32-decimal env.shell reads n (codes "value") h fits) refl
  filter_value-print (until n) f h fits =
      rw (parse_u32-decimal env.shell reads n (codes "value") h fits) refl
  filter_value-print (skip n) f h fits =
      rw (parse_u32-decimal env.shell reads n (codes "value") h fits) refl

  filter_from-cons :
      (s : Setting) (f : StoreFilter) (rest : List Bytes) (h : List ShellCall)
      → FitsU32 (number s)
      → filter_from env f (print_setting s ∷ rest) h ≡ filter_from env (apply f s) rest h
  unfolding filter_from
  filter_from-cons s f rest h fits = rw (at_equals-print s) (
      run_next (filter_value env (print_setting s) f (some (name s, decimal (number s))))
        (or_none (λ f'. filter_from env f' rest)) (filter_value-print s f h fits))

  filter_from-print :
      (ss : List Setting) (f : StoreFilter) (h : List ShellCall)
      → All (λ s. FitsU32 (number s)) ss
      → filter_from env f (map print_setting ss) h ≡ (some (apply_all f ss), h)
  unfolding filter_from
  filter_from-print [] f h fit = refl
  filter_from-print (s ∷ ss) f h fit =
      filter_from-cons s f (map print_setting ss) h fit.0 ∙ filter_from-print ss (apply f s) h fit.1

  -- If the shell reads printed numbers of 32 bits: a report and a list of printed settings of 32
  -- bits are read back as the filter that the settings give one after the other, a sequence in 16
  -- bits and flags in 8, and nothing is printed.
  pub parse_filter-print :
      (report : ℕ) (ss : List Setting) (h : List ShellCall)
      → FitsU32 report
      → All (λ s. FitsU32 (number s)) ss
      → parse_filter env (decimal report) (map print_setting ss) h
        ≡ (some (apply_all (every_sample report) ss), h)
  unfolding parse_filter
  parse_filter-print report ss h fits all =
      rw (parse_u32-decimal env.shell reads report (codes "report") h fits, parse_filter)
        (filter_from-print ss (every_sample report) h all)

take-nil : (n : ℕ) → take {A = ℕ} n [] ≡ []
take-nil zero = refl
take-nil (suc n) = refl

length-hex_byte : (b : ℕ) → length (hex_byte b) ≡ 2
unfolding hex_byte
length-hex_byte b = refl

hex_line-from :
    (k : ℕ) (line : Bytes) (bs : List ℕ)
    → k ≤ 47
    → length line ≡ 2 * k
    → hex_line line bs ≡ line ++ hex_bytes (take (47 - k) bs)
unfolding hex_line hex_bytes
hex_line-from k line [] room even = rw take-nil (sym (append-nil line))
hex_line-from k line (b ∷ bs) room even = elim (Bool-cases (leb line_size (length line + 3))) [
  | inl full ↦ let last : 47 - k ≡ 0 = ground arith in rw full (rw last (sym (append-nil line)))
  | inr free ↦
      let more : 47 - k ≡ suc (47 - suc k) = ground arith in
      rw free (
        rw more (
          hex_line-from (suc k) (line ++ hex_byte b) bs (ground arith)
            (rw length-append (omega (arith, length-hex_byte b)))
          ∙ append_assoc line (hex_byte b) _))
]

-- A sample's line is the hexadecimal text of its first 47 bytes.
hex_line_lem : (bs : List ℕ) → hex_line [] bs ≡ hex_bytes (take 47 bs)
hex_line_lem bs = hex_line-from 0 [] bs (omega arith) refl
