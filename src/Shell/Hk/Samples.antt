-- ===== src/Shell/Hk/Samples.antt =====
-- Reading samples back: those that are held, and those of the file behind a filter.
use Prim.Native.Nat.{bit_and}
use k_fsw.Base.{
  ℕ, zero, suc, ◌+◌, ◌%◌, not, Option, none, some, List, [], ◌∷◌, ◌++◌, ltb, leb, ◌==◌,
  if◌then◌else◌, ℤ, ok, is_ok, einval, length, drop,
}
use k_fsw.Text.{Bytes, codes, decimal, signed, starts_with, hex_byte}
use k_fsw.Env.{Proc, pure, ◌>>=◌, ◌>>◌, tell, recall}
use k_fsw.Shell.Service.{
  StoreFilter, hk_get, hk_store_query, hk_store_count, hk_store_read, hk_store_extract,
}
use k_fsw.Shell.{ShellCall, shell_print, shell_error, ask}
use k_fsw.Shell.Command.{at_equals}
use k_fsw.Shell.Hk.{HkShell, refuse, or_einval, or_none, parse_u32, with_u32}

-- `struct kfsw_hk_sample`; `octets` are the first `length` bytes of its data.
pub record Sample : Type 0 where
  pub sequence : ℕ
  pub seconds : ℕ
  pub flags : ℕ
  pub entry_count : ℕ
  pub octets : List ℕ

-- `struct kfsw_hk_store_info`
pub record StoreInfo : Type 0 where
  pub records : ℕ
  pub capacity : ℕ
  pub record_size : ℕ
  pub interval_ms : ℕ
  pub oldest : ℕ
  pub newest : ℕ

-- KFSW_HK_FLAG_CLOCK_UNSET, KFSW_HK_FLAG_INCOMPLETE and KFSW_HK_HEADER_SIZE, and what the service
-- leaves behind its pointers.
pub record SampleEnv : Type 0 where
  pub shell : HkShell
  pub flag_clock_unset : ℕ
  pub flag_incomplete : ℕ
  pub header_size : ℕ
  pub sample : List ShellCall → Sample
  pub store_info : List ShellCall → StoreInfo
  pub count : List ShellCall → ℕ

-- `char line[3 * 32 + 1]`
abbrev pub line_size : ℕ
line_size = 97

-- The loop over the bytes, on the line so far: it ends early if three more bytes do not fit.
unfoldable pub hex_line : Bytes → List ℕ → Bytes
hex_line line [] = line
hex_line line (b ∷ bs) =
    let rest = hex_line (line ++ hex_byte b) bs in
    if leb line_size (length line + 3) then line else rest

-- The filter without an argument, and the field that a name sets.
abbrev pub every_sample : ℕ → StoreFilter
every_sample report = record {
  report = report % 256;
  from_sequence = 0;
  to_sequence = 0;
  from_seconds = 0;
  to_seconds = 0;
  without_flags = 0;
}

unfoldable pub set_filter : Bytes → ℕ → StoreFilter → Option StoreFilter
set_filter argument parsed f =
    if starts_with (codes "from=") argument
    then some (record f { from_sequence = parsed % 65536 })
    else if starts_with (codes "to=") argument
    then some (record f { to_sequence = parsed % 65536 })
    else if starts_with (codes "since=") argument
    then some (record f { from_seconds = parsed })
    else if starts_with (codes "until=") argument
    then some (record f { to_seconds = parsed })
    else if starts_with (codes "skip=") argument
    then some (record f { without_flags = parsed % 256 })
    else none

module _ (env : SampleEnv) where
  abbrev mark : ℕ → Bytes → Sample → Bytes
  mark flag text s = if bit_and s.flags flag == 0 then [] else text

  unfoldable pub print_sample : Sample → Proc ShellCall (Unit {0})
  print_sample s = do
    tell (
        shell_print (
          codes "seq "
          ++ decimal s.sequence
          ++ codes "  at "
          ++ decimal s.seconds
          ++ mark env.flag_clock_unset (codes " (no clock)") s
          ++ codes "  "
          ++ decimal s.entry_count
          ++ codes " values"
          ++ mark env.flag_incomplete (codes " (incomplete)") s
          ++ codes "  "
          ++ decimal (length s.octets)
          ++ codes " bytes"))
    tell (shell_print (codes "  " ++ hex_line [] (drop env.header_size s.octets)))

  -- Nothing is told of a sample that is missing behind another.
  abbrev pub nothing_at : ℕ → ℕ → Proc ShellCall (Unit {0})
  nothing_at report age =
      if age == 0
      then tell (
          shell_error
            (codes "report " ++ decimal report ++ codes " has nothing at age " ++ decimal age))
      else pure tt

  -- The loop from an age on, for so many more; the age is passed as 16 bits.
  unfoldable pub get_from : ℕ → ℕ → ℕ → Proc ShellCall ℤ
  get_from report age zero = pure ok
  get_from report age (suc more) =
      ask env.shell.result (hk_get (report % 256) (age % 65536)) >>= λ result.
      if not (is_ok result)
      then (do nothing_at report age; pure ok)
      else (do s ← recall env.sample; print_sample s; get_from report (age + 1) more)

  unfoldable pub cmd_hk_get : Bytes → Option Bytes → Proc ShellCall ℤ
  cmd_hk_get first none = with_u32 env.shell first (codes "report") (λ report. get_from report 0 1)
  cmd_hk_get first (some second) =
      with_u32 env.shell first (codes "report")
        (λ report. with_u32 env.shell second (codes "count") (λ wanted. get_from report 0 wanted))

  abbrev pub filter_set : Bytes → Option StoreFilter → Proc ShellCall (Option StoreFilter)
  filter_set argument none = do tell (shell_error (codes "Unknown filter: " ++ argument)); pure none
  filter_set argument (some f) = pure (some f)

  abbrev pub filter_value :
      Bytes → StoreFilter → Option (Bytes × Bytes) → Proc ShellCall (Option StoreFilter)
  filter_value argument f none = do
    tell (shell_error (codes "Expected name=value, got " ++ argument))
    pure none
  filter_value argument f (some (name, value)) =
      parse_u32 env.shell value (codes "value")
      >>= or_none (λ parsed. filter_set argument (set_filter argument parsed f))

  -- The loop over the arguments.
  unfoldable pub filter_from : StoreFilter → List Bytes → Proc ShellCall (Option StoreFilter)
  filter_from f [] = pure (some f)
  filter_from f (argument ∷ arguments) = filter_value argument f (at_equals argument) >>= λ set.
      elim set [ none ↦ pure none | some f' ↦ filter_from f' arguments ]

  -- `parse_filter`; none is -EINVAL.
  unfoldable pub parse_filter : Bytes → List Bytes → Proc ShellCall (Option StoreFilter)
  parse_filter first arguments =
      parse_u32 env.shell first (codes "report")
      >>= or_none (λ report. filter_from (every_sample report) arguments)

  -- A filter that a command needs.
  abbrev pub with_filter : Bytes → List Bytes → (StoreFilter → Proc ShellCall ℤ) → Proc ShellCall ℤ
  with_filter first arguments next = parse_filter first arguments >>= or_einval next

  -- The loop over the samples that match, from an index on, for so many more.
  unfoldable pub read_from : StoreFilter → ℕ → ℕ → Proc ShellCall ℤ
  read_from f index zero = pure ok
  read_from f index (suc more) = ask env.shell.result (hk_store_read f index) >>= λ result.
      if not (is_ok result)
      then pure ok
      else (do s ← recall env.sample; print_sample s; read_from f (index + 1) more)

  abbrev pub after_count : StoreFilter → ℤ → Proc ShellCall ℤ
  after_count f result =
      if not (is_ok result) then refuse (codes "count failed: " ++ signed result) result else (do
        matching ← recall env.count
        tell (shell_print (codes "selected: " ++ decimal matching))
        read_from f 0 matching)

  abbrev held : StoreInfo → Proc ShellCall (Unit {0})
  held info =
      if info.records == 0
      then pure tt
      else tell (
          shell_print
            (codes "held: seq " ++ decimal info.oldest ++ codes ".." ++ decimal info.newest))

  abbrev pub queried : StoreFilter → ℤ → Proc ShellCall ℤ
  queried f result =
      if not (is_ok result)
      then refuse
          (codes "report " ++ decimal f.report ++ codes " has no stored history: " ++ signed result)
          result
      else (do
        info ← recall env.store_info
        tell (
            shell_print (
              codes "file: "
              ++ decimal info.records
              ++ codes " of "
              ++ decimal info.capacity
              ++ codes " slots, "
              ++ decimal info.record_size
              ++ codes " bytes each, every "
              ++ decimal info.interval_ms
              ++ codes " ms"))
        held info
        answer ← ask env.shell.result (hk_store_count f)
        after_count f answer)

  unfoldable pub cmd_hk_stored : Bytes → List Bytes → Proc ShellCall ℤ
  cmd_hk_stored first arguments =
      with_filter first arguments
        (λ f. ask env.shell.result (hk_store_query f.report) >>= queried f)

  abbrev pub extracted : Bytes → ℤ → Proc ShellCall ℤ
  extracted path result =
      if not (is_ok result) then refuse (codes "extract failed: " ++ signed result) result else (do
        records ← recall env.count
        tell (shell_print (codes "Extracted " ++ decimal records ++ codes " records to " ++ path))
        pure ok)

  -- The words are the report, the path and the arguments of the filter.
  unfoldable pub cmd_hk_extract : Bytes → Bytes → List Bytes → Proc ShellCall ℤ
  cmd_hk_extract first path arguments =
      if ltb (env.shell.build.hk_entries + 2) (length arguments + 3)
      then refuse (codes "Too many filters") einval
      else with_filter first arguments
          (λ f. ask env.shell.result (hk_store_extract f path) >>= extracted path)
