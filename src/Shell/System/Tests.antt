-- ===== src/Shell/System/Tests.antt =====
-- What a build of two repositories prints.
use k_fsw.Base.{◌≡◌, refl, List, [], ◌∷◌}
use k_fsw.Text.{codes, has_char}
use k_fsw.Shell.{shell_print}
use k_fsw.Shell.System.{
  repository_of, until_space, past_spaces, at_colon, revision_line, print_words, print_revisions,
}
use k_fsw.Shell.System.Revisions.{Revision, joined, printed, print_revisions-joined}

abbrev built : List Revision
built =
    record { label = codes "app"; revision = codes "1ba96309" }
    ∷ record { label = codes "radio"; revision = codes "31818d2c" }
    ∷ []

print_built :
    (print_revisions (codes "app:1ba96309  radio:31818d2c") []).1
    ≡ shell_print (codes "  radio: 31818d2c")
      ∷ shell_print (codes "  k-fsw: 1ba96309")
      ∷ shell_print (codes "revisions:")
      ∷ []
unfolding print_revisions print_words until_space past_spaces at_colon revision_line repository_of
print_built = refl

print_revisions-joined_example :
    (print_revisions (joined 1 built) []).1 ≡ printed built (shell_print (codes "revisions:") ∷ [])
unfolding has_char
print_revisions-joined_example =
    print_revisions-joined 1 built [] ((refl, refl, refl), ((refl, refl, refl), tt))
