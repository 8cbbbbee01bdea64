-- ===== src/Shell/Ftp/Once.antt =====
-- What the `ftp` commands ask of the service.
use k_fsw.Base.{
  ℕ, ◌%◌, ◌≡◌, refl, sym, ◌∙◌, ◌⊎◌, inl, inr, true, false, not, ◌||◌, Option, none, some, List, [],
  ◌∷◌, arith, leb, ◌==◌, if◌then◌else◌, ℤ, ok, is_ok, ==ℤ_iff, Bool-cases,
}
use k_fsw.Text.{Bytes, codes}
use k_fsw.Env.{Proc, ◌>>=◌}
use k_fsw.Shell.Service.{ServiceCall, ftp_list, ftp_stat, ftp_mkdir, ftp_put, ftp_get}
use k_fsw.Shell.{ShellCall, shell_print, service, requests}
use k_fsw.Shell.Remote.{parse_node, remote_failed}
use k_fsw.Shell.Ftp.{
  FtpShell, FtpEntry, on_node, print_ftp_error, print_ftp_entry, print_entries, list_line,
  list_directory, stat_path, make_directory, optional_node, is_number, path_last, cmd_ftp_ls,
  cmd_ftp_stat, cmd_ftp_mkdir,
}
use k_fsw.Shell.Ftp.Transfer.{ftp_transfer, cmd_ftp_get, cmd_ftp_put}

module _ (env : FtpShell) where
  print_ftp_error-quiet :
      (operation : Bytes) (node : ℕ) (path : Bytes) (result : ℤ) (h : List ShellCall)
      → ((print_ftp_error env operation node path result h).0 ≡ result)
        × (requests (print_ftp_error env operation node path result h).1 ≡ requests h)
  unfolding print_ftp_error remote_failed
  print_ftp_error-quiet operation node path result h = ground arith

  print_entries-quiet :
      (path : Bytes) (es : List FtpEntry) (h : List ShellCall)
      → requests (print_entries env path es h).1 ≡ requests h
  unfolding print_ftp_entry
  print_entries-quiet path [] h = refl
  print_entries-quiet path (e ∷ es) h = print_entries-quiet path es _

  -- Nothing is asked, with an error; or this call is made once, and its result is passed on.
  abbrev pub Once : ServiceCall → List ShellCall → ℤ × List ShellCall → Type 0
  Once c h (result, after) =
      ((is_ok result ≡ false) × (requests after ≡ requests h))
      ⊎ ((h' : List ShellCall) × (requests h' ≡ requests h)
          × (result ≡ env.result h' c)
          × (requests after ≡ c ∷ requests h))

  -- A call, with an error printed behind it, or what follows a success.
  answered-Once :
      (c : ServiceCall) (operation : Bytes) (node : ℕ) (path : Bytes) (h : List ShellCall)
      (next : Proc ShellCall ℤ)
      → (next (service c ∷ h)).0 ≡ ok
      → requests (next (service c ∷ h)).1 ≡ c ∷ requests h
      → Once c h (
          (if not (is_ok (env.result h c))
              then print_ftp_error env operation node path (env.result h c)
              else next)
            (service c ∷ h))
  answered-Once c operation node path h next good quiet =
      let result = env.result h c in
      let q = print_ftp_error-quiet operation node path result (service c ∷ h) in
      elim (Bool-cases (is_ok result)) [
        | inr failed ↦ rw failed (inr (h, refl, q.0, q.1))
        | inl done ↦ rw done (inr (h, refl, good ∙ sym ((==ℤ_iff result ok).0 done), quiet))
      ]

  stat-Once :
      (path : Bytes) (node : ℕ) (h : List ShellCall)
      → Once (ftp_stat node path) h (stat_path env path node h)
  unfolding stat_path
  stat-Once path node h = answered-Once (ftp_stat node path) _ node path h _ refl refl

  mkdir-Once :
      (path : Bytes) (node : ℕ) (h : List ShellCall)
      → Once (ftp_mkdir node path) h (make_directory env path node h)
  unfolding make_directory
  mkdir-Once path node h = answered-Once (ftp_mkdir node path) _ node path h _ refl refl

  put-Once :
      (source destination : Bytes) (node : ℕ) (h : List ShellCall)
      → Once (ftp_put node source destination) h (ftp_transfer env true source destination node h)
  unfolding ftp_transfer
  put-Once source destination node h =
      answered-Once (ftp_put node source destination) _ node _ h _ refl refl

  get-Once :
      (source destination : Bytes) (node : ℕ) (h : List ShellCall)
      → Once (ftp_get node source destination) h (ftp_transfer env false source destination node h)
  unfolding ftp_transfer
  get-Once source destination node h =
      answered-Once (ftp_get node source destination) _ node _ h _ refl refl

  list-Once :
      (path : Bytes) (node : ℕ) (h : List ShellCall)
      → Once (ftp_list node path) h (list_directory env path node h)
  unfolding list_directory
  list-Once path node h =
      let c = ftp_list node path in
      let h' = shell_print (list_line env node path) ∷ h in
      let printed = (print_entries env path (env.entries (service c ∷ h')) (service c ∷ h')).1 in
      let quiet = print_entries-quiet path (env.entries (service c ∷ h')) (service c ∷ h') in
      let result = env.result h' c in
      let q = print_ftp_error-quiet (codes "ls") node path result printed in
      elim (Bool-cases (is_ok result)) [
        | inr failed ↦ rw failed (inr (h', refl, q.0, q.1 ∙ quiet))
        | inl done ↦ rw done (inr (h', refl, sym ((==ℤ_iff result ok).0 done), quiet))
      ]

  -- A node that is read from a word.
  abbrev pub named_node : Bytes → ℕ
  named_node text = (env.parts.strtoul text).0 % 65536

  parsed-Once :
      (request : ℕ → ServiceCall) (next : ℕ → Proc ShellCall ℤ) (text : Bytes) (h : List ShellCall)
      → ((node : ℕ) (h : List ShellCall) → Once (request node) h (next node h))
      → Once (request (named_node text)) h ((parse_node env.parts text >>= on_node next) h)
  unfolding parse_node
  parsed-Once request next text h once =
      let read = env.parts.strtoul text in
      elim (Bool-cases
        (not (is_ok read.1) || read.0 == 0 || leb env.parts.broadcast_address read.0)) [
          | inl bad ↦ rw bad (inl (refl, refl))
          | inr good ↦ rw good (once (read.0 % 65536) h)
        ]

  -- The node of the word, or this one.
  abbrev pub acting_node : List ShellCall → Option Bytes → ℕ
  acting_node h none = env.own_address h
  acting_node h (some text) = named_node text

  -- The words for a node and a path, of which the node may be missing, and with `ls` the path too:
  -- there a word alone is a node if it is a number.
  abbrev pub path_words : Bytes → Option Bytes → Option Bytes × Bytes
  path_words path none = (none, path)
  path_words node (some path) = (some node, path)

  abbrev pub list_words : Option Bytes → Option Bytes → Option Bytes × Bytes
  list_words none _ = (none, [])
  list_words (some word) none = if is_number env word then (some word, []) else (none, word)
  list_words (some node) (some path) = (some node, path)

  acting-Once :
      (request : ℕ → ServiceCall) (next : ℕ → Proc ShellCall ℤ) (node : Option Bytes)
      (h : List ShellCall)
      → ((node : ℕ) (h : List ShellCall) → Once (request node) h (next node h))
      → Once (request (acting_node h node)) h ((optional_node env node >>= on_node next) h)
  unfolding optional_node
  acting-Once request next none h once = once (env.own_address h) h
  acting-Once request next (some text) h once = parsed-Once request next text h once

  words-Once :
      (request : Bytes → ℕ → ServiceCall) (next : Bytes → ℕ → Proc ShellCall ℤ) (first : Bytes)
      (last : Option Bytes) (h : List ShellCall)
      → ((path : Bytes) (node : ℕ) (h : List ShellCall)
          → Once (request path node) h (next path node h))
      → let w = path_words first last in
        Once (request w.1 (acting_node h w.0)) h (path_last env next first last h)
  words-Once request next path none h once =
      acting-Once (request path) (next path) none h (once path)
  words-Once request next node (some path) h once =
      acting-Once (request path) (next path) (some node) h (once path)

  ls-Once :
      (first second : Option Bytes) (h : List ShellCall)
      → let w = list_words first second in
        Once (ftp_list (acting_node h w.0) w.1) h (cmd_ftp_ls env first second h)
  unfolding cmd_ftp_ls
  ls-Once none second h = acting-Once (λ n. ftp_list n []) _ none h (list-Once [])
  ls-Once (some word) none h = elim (Bool-cases (is_number env word)) [
    | inl number ↦ rw number (acting-Once (λ n. ftp_list n []) _ (some word) h (list-Once []))
    | inr path ↦ rw path (acting-Once (λ n. ftp_list n word) _ none h (list-Once word))
  ]
  ls-Once (some node) (some path) h =
      acting-Once (λ n. ftp_list n path) _ (some node) h (list-Once path)

  -- Each of ftp get, put, stat, mkdir and ls asks nothing and returns an error, or makes its
  -- request exactly once and returns what the service answers: on the node that its first word
  -- names, modulo 2 ^ 16, or without such a word on this node, and for the path that its words
  -- give, where a word alone is the path, but with ls a node if it is a number.
  pub ftp_commands-Once :
      (first second third : Bytes) (word last : Option Bytes) (h : List ShellCall)
      → let w = path_words first last in
        let l = list_words word last in
        Once (ftp_get (named_node first) second third) h (cmd_ftp_get env first second third h)
        × Once (ftp_put (named_node first) second third) h (cmd_ftp_put env first second third h)
        × Once (ftp_stat (acting_node h w.0) w.1) h (cmd_ftp_stat env first last h)
        × Once (ftp_mkdir (acting_node h w.0) w.1) h (cmd_ftp_mkdir env first last h)
        × Once (ftp_list (acting_node h l.0) l.1) h (cmd_ftp_ls env word last h)
  unfolding cmd_ftp_get cmd_ftp_put cmd_ftp_stat cmd_ftp_mkdir
  ftp_commands-Once first second third word last h = (
    parsed-Once (λ n. ftp_get n second third) _ first h (get-Once second third),
    parsed-Once (λ n. ftp_put n second third) _ first h (put-Once second third),
    words-Once (λ p n. ftp_stat n p) (stat_path env) first last h stat-Once,
    words-Once (λ p n. ftp_mkdir n p) (make_directory env) first last h mkdir-Once,
    ls-Once word last h,
  )
