-- ===== src/Shell/Remexec/Tests.antt =====
-- `remexec 5 run storage info`, on a node that runs it.
use k_fsw.Base.{◌≡◌, refl, false, none, some, List, [], ◌∷◌, arith, ltb, if◌then◌else◌, length, ok}
use k_fsw.Text.{Bytes, codes, str_eq, decimal}
use k_fsw.Hk.Entries.Lists.{joined}
use k_fsw.Shell.{shell_print, remexec_run_remote}
use k_fsw.Shell.Remote.{parse_node}
use k_fsw.Shell.Remexec.{
  RemexecReply, RemexecEnv, remexec_ok, join_words, join_command, text_lines, at_tab, print_line,
  print_lines, run_offered, cmd_remexec,
}
use k_fsw.Shell.Remexec.Join.{join_command_lem}
use k_fsw.Shell.Remexec.Sent.{SentOnce, cmd_remexec_sent}

abbrev reply : RemexecReply
reply = record {
  status = remexec_ok;
  command_result = ok;
  size = 4;
  produced = 4;
  dropped = 0;
  truncated = false;
  text = 97 ∷ 9 ∷ 98 ∷ 10 ∷ [];
}

abbrev service : RemexecEnv
service = record {
  parts = record { strtoul = λ text. (5, ok); broadcast_address = 16383 };
  command_max = 12;
  status_name = λ s. codes "ok";
  result = λ h k. ok;
  reply = λ h. reply;
}

abbrev words : List Bytes
words = codes "storage" ∷ codes "info" ∷ []

-- Twelve bytes fit, and thirteen do not.
joins : join_command 13 words ≡ some (codes "storage info")
unfolding join_command join_words
joins = refl

too_long : join_command 12 words ≡ none
unfolding join_command join_words
too_long = refl

runs :
    (cmd_remexec service (codes "5") (codes "run") words []).1
    ≡ shell_print (codes "status: ok")
      ∷ shell_print (codes "a                        b")
      ∷ shell_print (codes "output: 4 bytes")
      ∷ shell_print (codes "command: storage info")
      ∷ shell_print (codes "node: 5")
      ∷ remexec_run_remote 5 (codes "storage info")
      ∷ []
unfolding cmd_remexec parse_node run_offered join_command join_words print_lines print_line
    text_lines at_tab str_eq decimal
runs = refl

join_command_lem_example :
    join_command 13 words ≡ (if ltb (length (joined words)) 13 then some (joined words) else none)
join_command_lem_example = join_command_lem 13 words (omega arith)

cmd_remexec_sent_example :
    SentOnce service (codes "run") words [] (cmd_remexec service (codes "5") (codes "run") words [])
cmd_remexec_sent_example = cmd_remexec_sent service (codes "5") (codes "run") words [] (omega arith)
