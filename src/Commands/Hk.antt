-- ===== src/Commands/Hk.antt =====
-- hk_define, hk_period and hk_clear.
use k_fsw.Base.{
  ℕ, true, Option, none, some, List, ◌++◌, not, ltb, if◌then◌else◌, ℤ, ok, is_ok, ◌==ℤ◌, einval,
  erange, e2big, length,
}
use k_fsw.Text.{Bytes, codes, decimal, signed}
use k_fsw.Hk.Header.{Entry}
use k_fsw.Hk.Entries.{Batch, parse_entries, ClassRead, parse_class}
use k_fsw.Env.{Proc, pure, ◌>>=◌, call, recall}
use k_fsw.Commands.{
  command_failed, command_invalid_argument, CommandResult, CommandConfig, CommandCall,
  hk_define_class, hk_set_period, hk_clear, CommandEnv, Handler, answered, detailed, marked,
}

abbrev uint8_max : ℕ
uint8_max = 255

-- What the definition's text says, or the error in reading it.
pub data DefineText : Type 0 where
  unreadable : ℤ → DefineText
  readable : List Entry → ℕ → DefineText

-- A batch that was read in the class. The loop always ends (`parse_entries-Sound`), so the case
-- of no batch is never taken.
abbrev pub batch_read : ℕ → Option Batch → DefineText
batch_read class none = unreadable einval
batch_read class (some b) = if is_ok b.result then readable b.entries class else unreadable b.result

module _ (c : CommandConfig) where
  abbrev pub class_then_entries : ClassRead → DefineText
  class_then_entries k =
      if is_ok k.result
      then batch_read k.retrieval_class
          (parse_entries c.hk_header c.long_bits (some k.text) true c.hk_entries)
      else unreadable k.result

  -- The class in front and the entries behind it.
  unfoldable pub read_definition : Bytes → DefineText
  read_definition text = class_then_entries (parse_class c.hk_header c.long_bits text)

  -- Why a text cannot be read.
  abbrev why : ℤ → Bytes → Bytes
  why outcome text =
      if outcome ==ℤ erange
      then codes "class must be 0..7"
      else if outcome ==ℤ e2big
      then codes "more than " ++ decimal c.hk_entries ++ codes " entries"
      else codes "cannot read '" ++ text ++ codes "' as [node:]table:offset"

module _ (c : CommandConfig) (env : CommandEnv) where
  -- The end that the three handlers share: what the service answered, the text for a failure and
  -- the one for a success, which leaves the status as it was.
  abbrev applied : CommandResult → Bytes → Bytes → ℤ → Proc CommandCall (ℤ × CommandResult)
  applied result failure success outcome =
      if outcome ==ℤ c.applied_unsaved
      then (do
        error ← recall env.hk_last_save_error
        pure (
          outcome,
          answered c command_failed (codes "applied in RAM; save failed: " ++ signed error),
        ))
      else if not (is_ok outcome)
      then pure (outcome, answered c command_failed (failure ++ codes ": " ++ signed outcome))
      else pure (ok, detailed c result success)

  unfoldable pub define_readable :
      ℕ → Bytes → CommandResult → DefineText → Proc CommandCall (ℤ × CommandResult)
  define_readable report text result (unreadable outcome) =
      pure (outcome, answered c command_invalid_argument (why c outcome text))
  define_readable report text result (readable entries class) = do
    outcome ← call env.result (hk_define_class report entries class)
    applied result (codes "define report " ++ decimal report)
        (codes "report "
          ++ decimal report
          ++ codes " defines "
          ++ decimal (length entries)
          ++ codes " values")
        outcome

  unfoldable pub command_hk_define : Handler
  command_hk_define args node result =
      if ltb uint8_max (args 0).u32
      then pure (einval, marked result command_invalid_argument)
      else define_readable (args 0).u32 (args 1).text result (read_definition c (args 1).text)

  unfoldable pub command_hk_period : Handler
  command_hk_period args node result =
      if ltb uint8_max (args 0).u32
      then pure (einval, marked result command_invalid_argument)
      else (do
        outcome ← call env.result (hk_set_period (args 0).u32 (args 1).u32)
        applied result (codes "period for report " ++ decimal (args 0).u32)
            (codes "report "
              ++ decimal (args 0).u32
              ++ codes " every "
              ++ decimal (args 1).u32
              ++ codes " ms")
            outcome)

  unfoldable pub command_hk_clear : Handler
  command_hk_clear args node result =
      if ltb uint8_max (args 0).u32
      then pure (einval, marked result command_invalid_argument)
      else (do
        outcome ← call env.result (hk_clear (args 0).u32)
        applied result (codes "clear report " ++ decimal (args 0).u32)
            (codes "report " ++ decimal (args 0).u32 ++ codes " cleared") outcome)
