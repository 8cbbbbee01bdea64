-- ===== src/Shell/Report.antt =====
-- What the front ends of the services have in common: rows of a status, and a failed call of a
-- service.
use k_fsw.Base.{ℕ, Bool, ◌++◌, if◌then◌else◌, ℤ, ok, is_ok, not}
use k_fsw.Text.{Bytes, codes, decimal, signed}
use k_fsw.Env.{Proc, pure, ◌>>◌, tell}
use k_fsw.Shell.{ShellCall, shell_print, shell_error}

abbrev pub row : Bytes → Bytes → Proc ShellCall (Unit {0})
row name text = tell (shell_print (name ++ codes ": " ++ text))

abbrev pub number_row : Bytes → ℕ → Proc ShellCall (Unit {0})
number_row name n = row name (decimal n)

abbrev pub yes_no : Bool → Bytes
yes_no flag = if flag then codes "yes" else codes "no"

-- A line on standard error, and the result that is returned with it.
abbrev pub refuse : Bytes → ℤ → Proc ShellCall ℤ
refuse text result = do tell (shell_error text); pure result

abbrev pub failed : Bytes → ℤ → Proc ShellCall ℤ
failed text result = refuse (text ++ codes " (" ++ signed result ++ codes ")") result

-- What follows a call of a service that has to answer zero.
abbrev pub unless_failed : Bytes → Proc ShellCall ℤ → ℤ → Proc ShellCall ℤ
unless_failed text next result = if not (is_ok result) then failed text result else next

-- The last line of a command.
abbrev pub done_with : Bytes → Proc ShellCall ℤ
done_with text = do tell (shell_print text); pure ok
