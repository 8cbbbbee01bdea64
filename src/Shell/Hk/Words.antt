-- ===== src/Shell/Hk/Words.antt =====
-- The words of a printed definition: the class, and the entries behind it.
use mathlib.Core.List.{append_assoc, append-nil}
use k_fsw.Base.{
  ℕ, suc, ◌-◌, ◌^◌, ◌≤◌, ◌<◌, ◌≡◌, ◌≢◌, refl, ap, ◌∙◌, inl, inr, false, some, none, Option, List,
  [], ◌∷◌, ◌++◌, map, arith, leb, ◌==◌, length, length-append, All, ok, Option-cases,
}
use k_fsw.Text.{Bytes, codes, decimal, str_eq, starts_with, has_char}
use k_fsw.Text.Decimal.{strtoul-decimal, decimal-cons, decimal-digits, IsDigit}
use k_fsw.Hk.Header.{HkHeader}
use k_fsw.Hk.Entries.{parse_class, class_value, skip_spaces}
use k_fsw.Hk.Entries.Print.{
  Fields, FieldsFit, entry_of, print_entry, print_entry-IsDigit, read_entry-print,
}
use k_fsw.Hk.Entries.Lists.{joined, spaced}
use k_fsw.Env.{pure, run_next}
use k_fsw.Shell.{ShellCall}
use k_fsw.Shell.Command.{last_word, before_last}
use k_fsw.Shell.Hk.{HkShell, or_none, ends_with_retry, without_retry, join_entries, parse_all}

-- `class=N` as a word.
abbrev pub class_word : ℕ → Bytes
class_word class = codes "class=" ++ decimal class

pub parse_class-word :
    (h : HkHeader) (bits class : ℕ)
    → h.class_max ≤ 255
    → 256 ≤ 2 ^ bits
    → class ≤ h.class_max
    → parse_class h bits (class_word class)
      ≡ record { result = ok; text = []; retrieval_class = class }
unfolding parse_class starts_with class_value skip_spaces
parse_class-word h bits class narrow wide fits =
    let read = rw append-nil at (strtoul-decimal bits class [] tt (omega arith)) in
    rw read (ground arith)

digits-no_char : (c : ℕ) (ds : Bytes) → c ≡ b':' → All IsDigit ds → has_char c ds ≡ false
unfolding has_char
digits-no_char c [] colon all = refl
digits-no_char c (d ∷ ds) colon all = ground (arith, digits-no_char c ds colon all.1)

-- A printed number is no class and has no colon.
pub decimal-plain :
    (n : ℕ)
    → (has_char b':' (decimal n) ≡ false) × (starts_with (codes "class=") (decimal n) ≡ false)
unfolding starts_with
decimal-plain n =
    let (c, cs, shape, digit) = decimal-cons n in
    (digits-no_char b':' (decimal n) refl (decimal-digits n), rw shape (ground arith))

-- Words that are not `--retry`.
abbrev pub IsWord : Bytes → Type 0
IsWord w = str_eq w (codes "--retry") ≡ false

abbrev LastIsWord : Option (List Bytes × Bytes) → Type 0
LastIsWord none = Unit
LastIsWord (some (rest, w)) = IsWord w

before_last-IsWord :
    (w : Bytes) (o : Option (List Bytes × Bytes))
    → IsWord w
    → LastIsWord o
    → LastIsWord (some (before_last w o))
before_last-IsWord w none word last = word
before_last-IsWord w (some (rest, l)) word last = last

last_word-IsWord : (ws : List Bytes) → All IsWord ws → LastIsWord (last_word ws)
unfolding last_word
last_word-IsWord [] all = tt
last_word-IsWord (w ∷ ws) all =
    before_last-IsWord w (last_word ws) all.0 (last_word-IsWord ws all.1)

pub not_retry : (ws : List Bytes) → All IsWord ws → ends_with_retry ws ≡ false
unfolding ends_with_retry
not_retry ws all = elim (Option-cases (last_word ws)) [
  | inl empty ↦ rw (empty, ends_with_retry) refl
  | inr ((rest, w), last) ↦ rw (last, ends_with_retry) (rw last at (last_word-IsWord ws all))
]

pub without_retry_self : (ws : List Bytes) → All IsWord ws → without_retry ws ≡ ws
without_retry_self ws all = elim (Option-cases (last_word ws)) [
  | inl empty ↦ rw (empty, without_retry) refl
  | inr ((rest, w), last) ↦
      rw (last, without_retry) (rw (rw last at (last_word-IsWord ws all)) refl)
]

digit-IsWord : (c : ℕ) (cs : Bytes) → IsDigit c → IsWord (c ∷ cs)
unfolding str_eq
digit-IsWord c cs digit = ground arith

class_word-IsWord : (class : ℕ) → IsWord (class_word class)
unfolding str_eq
class_word-IsWord class = refl

print_entry-IsWord : (f : Fields) → IsWord (print_entry f)
print_entry-IsWord f =
    let (c, cs, shape, digit) = print_entry-IsDigit f in rw shape (digit-IsWord c cs digit)

-- The words of a printed definition are not `--retry`.
pub definition-IsWord :
    (class : ℕ) (fields : List Fields) → All IsWord (class_word class ∷ map print_entry fields)
definition-IsWord class fields = (class_word-IsWord class, entries fields)
  where
    entries : (fields : List Fields) → All IsWord (map print_entry fields)
    entries [] = tt
    entries (f ∷ fs) = (print_entry-IsWord f, entries fs)

join_entries-spaced :
    (capacity : ℕ) (c : ℕ) (cs : Bytes) (ws : List Bytes)
    → length ((c ∷ cs) ++ spaced ws) < capacity
    → join_entries capacity (c ∷ cs) ws ≡ some ((c ∷ cs) ++ spaced ws)
unfolding join_entries
join_entries-spaced capacity c cs [] room = rw append-nil refl
join_entries-spaced capacity c cs (w ∷ ws) room =
    let used = length-append cs (spaced (w ∷ ws)) in
    let behind = length-append w (spaced ws) in
    let fits : leb (capacity - suc (length cs)) (suc (length w)) ≡ false = ground arith in
    let some_bytes : (suc (length cs) == 0) ≡ false = ground arith in
    let same = append_assoc cs (b' ' ∷ w) (spaced ws) in
    rw some_bytes (
      rw fits (
        join_entries-spaced capacity c (cs ++ b' ' ∷ w) ws (rw same room)
        ∙ ap (λ text. some (c ∷ text)) same))

-- Words that fit are joined with single spaces, if the first is not empty.
pub join_entries-joined :
    (capacity : ℕ) (w : Bytes) (ws : List Bytes)
    → w ≢ []
    → length (joined (w ∷ ws)) < capacity
    → join_entries capacity [] (w ∷ ws) ≡ some (joined (w ∷ ws))
unfolding join_entries
join_entries-joined capacity [] ws some_bytes room = absurd (some_bytes refl)
join_entries-joined capacity (c ∷ cs) ws some_bytes room =
    let used = length-append cs (spaced ws) in
    let fits : leb (capacity - 0) (suc (length cs)) ≡ false = ground arith in
    rw fits (join_entries-spaced capacity c cs ws room)

module _ (env : HkShell) (wide : 65536 ≤ 2 ^ env.build.long_bits)
    (narrow : env.build.hk_header.offset_max ≤ 65535) where
  pub parse_all-print :
      (fields : List Fields) (h : List ShellCall)
      → All (FieldsFit env.build.hk_header) fields
      → parse_all env (map print_entry fields) h
        ≡ (some (map (entry_of env.build.hk_header) fields), h)
  unfolding parse_all
  parse_all-print [] h fit = refl
  parse_all-print (f ∷ fs) h fit =
      rw (read_entry-print env.build.long_bits wide env.build.hk_header narrow f fit.0, parse_all)
        (run_next (parse_all env (map print_entry fs))
          (or_none (λ es. pure (some (entry_of env.build.hk_header f ∷ es))))
          (parse_all-print fs h fit.1))
