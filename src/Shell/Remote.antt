-- ===== src/Shell/Remote.antt =====
-- app/src/shell/shell_remote.c: the node that a command names, and what a failed exchange is.
use k_fsw.Base.{
  ℕ, ◌-◌, ◌%◌, Bool, not, ◌||◌, Option, none, some, ◌++◌, leb, ◌==◌, if◌then◌else◌, ℤ, is_ok,
  eagain, econnreset, ehostunreach, enotconn, etimedout, ◌==ℤ◌,
}
use k_fsw.Text.{Bytes, codes, decimal, signed}
use k_fsw.Env.{Proc, pure, ◌>>◌, tell}
use k_fsw.Shell.{ShellCall, shell_error, log_warning, ShellParts}

abbrev node_number : ShellParts → Bytes → ℕ × ℤ → Proc ShellCall (Option ℕ)
node_number p text (parsed, parse_error) =
    if not (is_ok parse_error) || parsed == 0 || leb p.broadcast_address parsed
    then (do
      tell (
          shell_error
            (codes "Node must be 1.." ++ decimal (p.broadcast_address - 1) ++ codes ": " ++ text))
      pure none)
    else pure (some (parsed % 65536))

-- `kfsw_shell_parse_node`: the node, or none with -EINVAL.
unfoldable pub parse_node : ShellParts → Bytes → Proc ShellCall (Option ℕ)
parse_node p text = node_number p text (p.strtoul text)

unfoldable pub no_answer : ℤ → Bool
no_answer result =
    (result ==ℤ etimedout)
    || (result ==ℤ eagain)
    || (result ==ℤ enotconn)
    || (result ==ℤ econnreset)
    || (result ==ℤ ehostunreach)

-- `kfsw_shell_remote_failed`
unfoldable pub remote_failed : Bytes → ℕ → ℤ → Proc ShellCall ℤ
remote_failed what node result =
    if no_answer result
    then (do
      tell (log_warning (what ++ codes ": node " ++ decimal node ++ codes " did not answer"))
      pure result)
    else (do
      tell (
          shell_error (
            what
            ++ codes ": node "
            ++ decimal node
            ++ codes " failed ("
            ++ signed result
            ++ codes ")"))
      pure result)
