-- ===== src/Commands/Journal.antt =====
-- journal_stats, journal_tail and journal_time.
use k_fsw.Base.{ℕ, ◌++◌, not, leb, if◌then◌else◌, ℤ, ok, is_ok, ◌==ℤ◌, einval, enoent}
use k_fsw.Text.{Bytes, codes, decimal, signed, hex_bytes}
use k_fsw.Env.{Proc, pure, ◌>>=◌, call, recall}
use k_fsw.Commands.{
  command_ok, command_failed, command_unavailable, CommandArg, CommandResult, CommandConfig,
  CommandCall, journal_get, JournalRecord, CommandEnv, Handler, answered, detailed, marked,
}

abbrev uint16_max : ℕ
uint16_max = 65535

module _ (c : CommandConfig) (env : CommandEnv) where
  unfoldable pub command_journal_stats : Handler
  command_journal_stats args node result = do
    stats ← recall env.journal_stats
    pure (
      ok,
      answered c command_ok (
          codes "held="
          ++ decimal stats.held
          ++ codes " queued="
          ++ decimal stats.queued
          ++ codes " drop="
          ++ decimal stats.dropped
          ++ codes " err="
          ++ decimal stats.errors
          ++ codes " bad="
          ++ decimal stats.corrupt
          ++ codes " ready="
          ++ decimal stats.ready
          ++ codes " last="
          ++ signed stats.last_error),
    )

  -- The outcome of a read, and the result that it leaves.
  abbrev read_as : ℕ → CommandResult → ℤ → ℤ × CommandResult
  read_as age result outcome =
      if outcome ==ℤ enoent
      then (outcome, answered c command_failed (codes "no record at age " ++ decimal age))
      else if not (is_ok outcome)
      then (outcome, answered c command_unavailable (codes "journal read: " ++ signed outcome))
      else (outcome, marked result command_ok)

  -- `journal_record`; an age that does not fit in 16 bits is refused without a call.
  unfoldable pub journal_record :
      (ℕ → CommandArg) → CommandResult → Proc CommandCall (ℤ × CommandResult)
  journal_record args result =
      if leb (args 0).u32 uint16_max
      then (do
        outcome ← call env.result (journal_get (args 0).u32)
        pure (read_as (args 0).u32 result outcome))
      else pure (read_as (args 0).u32 result einval)

  abbrev tail_line : JournalRecord → Bytes
  tail_line r =
      codes "seq="
      ++ decimal r.sequence
      ++ codes " boot="
      ++ decimal r.boot
      ++ codes " src="
      ++ env.event_source_name r.event.source
      ++ codes " id="
      ++ decimal r.event.id
      ++ codes " sev="
      ++ decimal r.event.severity
      ++ codes " data="
      ++ hex_bytes r.event.payload

  abbrev time_line : JournalRecord → Bytes
  time_line r =
      codes "seq="
      ++ decimal r.sequence
      ++ codes " up_us="
      ++ decimal r.event.monotonic_us
      ++ codes " utc="
      ++ signed r.utc_seconds
      ++ codes " valid="
      ++ decimal r.utc_valid

  -- Both commands return 0 whatever the read gave; the status tells.
  abbrev with_line :
      (JournalRecord → Bytes) → ℤ × CommandResult → Proc CommandCall (ℤ × CommandResult)
  with_line line (outcome, result) =
      if is_ok outcome
      then (do r ← recall env.journal_record; pure (ok, detailed c result (line r)))
      else pure (ok, result)

  unfoldable pub command_journal_tail : Handler
  command_journal_tail args node result = do
    read ← journal_record args result
    with_line tail_line read

  unfoldable pub command_journal_time : Handler
  command_journal_time args node result = do
    read ← journal_record args result
    with_line time_line read
