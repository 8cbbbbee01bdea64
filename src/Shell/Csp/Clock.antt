-- ===== src/Shell/Csp/Clock.antt =====
-- `csp clock`: reading and setting the clock, here and on another node.
use k_fsw.Base.{
  ℕ, ◌+◌, ◌%◌, Bool, false, not, ◌||◌, Option, none, some, ◌++◌, ltb, ◌==◌, if◌then◌else◌, ℤ, pos,
  negsuc, ok, is_ok, einval, length,
}
use k_fsw.Text.{Bytes, codes, decimal, signed, str_eq, pad_zero}
use k_fsw.Env.{Proc, pure, ◌>>=◌, ◌>>◌, tell, recall}
use k_fsw.Shell.Service.{csp_clock_read, csp_clock_set, csp_clock_write}
use k_fsw.Shell.{ShellCall, shell_print, ask}
use k_fsw.Shell.Csp.{CspClock, Tm, CspShell, refuse}

-- KFSW_CSP_PING_TIMEOUT_MS
abbrev pub ping_timeout_ms : ℕ
ping_timeout_ms = 1000

abbrev two_digits : ℕ → Bytes
two_digits n = pad_zero 2 (decimal n)

-- "%04d-%02d-%02d %02d:%02d:%02d"
abbrev date_text : Tm → Bytes
date_text t =
    pad_zero 4 (decimal (t.tm_year + 1900))
    ++ codes "-"
    ++ two_digits (t.tm_mon + 1)
    ++ codes "-"
    ++ two_digits t.tm_mday
    ++ codes " "
    ++ two_digits t.tm_hour
    ++ codes ":"
    ++ two_digits t.tm_min
    ++ codes ":"
    ++ two_digits t.tm_sec

module _ (env : CspShell) where
  -- With the label `clock`, which is the only one.
  unfoldable pub print_clock : CspClock → Proc ShellCall (Unit {0})
  print_clock k =
      if not (env.clock_is_set k)
      then tell (shell_print (codes "clock: not set (reads " ++ signed k.seconds ++ codes ")"))
      else tell (
          shell_print (
            codes "clock: "
            ++ date_text (env.gmtime k.seconds)
            ++ codes " UTC ("
            ++ signed k.seconds
            ++ codes "."
            ++ pad_zero 9 (decimal k.nanoseconds)
            ++ codes ")"))

  abbrev pub show_clock : Proc ShellCall ℤ
  show_clock = do k ← recall env.clock; print_clock k; pure ok

  abbrev clock_was_set : ℤ → Proc ShellCall ℤ
  clock_was_set result =
      if not (is_ok result)
      then refuse (codes "clock set: " ++ signed result) result
      else show_clock

  -- A time that is positive and fits in an int32_t, and nothing behind it.
  abbrev time_read : Bytes → ℤ × Bytes → Proc ShellCall ℤ
  time_read text (negsuc n, rest) = refuse (codes "Invalid time: " ++ text) einval
  time_read text (pos seconds, rest) =
      if length rest == length text
        || not (length rest == 0)
        || seconds == 0
        || ltb 2147483647 seconds
      then refuse (codes "Invalid time: " ++ text) einval
      else ask env.result (csp_clock_set (pos seconds) 0) >>= clock_was_set

  abbrev set_time : Option Bytes → Proc ShellCall ℤ
  set_time none = refuse (codes "Usage: csp clock set <seconds since 1970 UTC>") einval
  set_time (some text) = time_read text (env.strtoll_0 text)

  abbrev clock_answered : ℕ → ℤ → Proc ShellCall ℤ
  clock_answered node result =
      if not (is_ok result)
      then refuse (codes "clock node=" ++ decimal node ++ codes ": " ++ signed result) result
      else show_clock

  -- The node gets this node's time, if that is set.
  abbrev hand_over : ℕ → CspClock → Proc ShellCall ℤ
  hand_over node mine =
      if not (env.clock_is_set mine)
      then refuse (codes "This node's clock is not set; nothing to hand over") einval
      else ask env.result
          (csp_clock_write (node % 65536) ping_timeout_ms mine.seconds mine.nanoseconds)
        >>= clock_answered node

  abbrev is_sync : Option Bytes → Bool
  is_sync none = false
  is_sync (some word) = str_eq word (codes "sync")

  abbrev clock_node : Bytes → Option Bytes → ℕ × ℤ → Proc ShellCall ℤ
  clock_node text verb (node, parse_error) =
      if not (is_ok parse_error) || ltb env.parts.broadcast_address node
      then refuse (codes "Invalid node: " ++ text) einval
      else if is_sync verb
      then recall env.clock >>= hand_over node
      else ask env.result (csp_clock_read (node % 65536) ping_timeout_ms) >>= clock_answered node

  unfoldable pub cmd_csp_clock : Option Bytes → Option Bytes → Proc ShellCall ℤ
  cmd_csp_clock none second = show_clock
  cmd_csp_clock (some first) second =
      if str_eq first (codes "set")
      then set_time second
      else clock_node first second (env.strtoul_0 first)
