-- ===== src/Shell/Remexec/Sent.antt =====
-- What a remote execution command sends: the words joined, to a node in range, once.
use k_fsw.Base.{
  ℕ, ◌+◌, ◌%◌, ◌≤◌, ◌<◌, ◌≡◌, ◌≢◌, refl, ◌⊎◌, inl, inr, false, not, ◌||◌, some, List, [], ◌∷◌, ◌++◌,
  arith, ltb, leb, ◌==◌, length, ℤ, is_ok, Bool-cases, Option-cases,
}
use k_fsw.Text.{Bytes, codes, str_eq, str_eq_iff, decimal}
use k_fsw.Hk.Entries.Lists.{joined}
use k_fsw.Shell.Remexec.Join.{join_command_lem}
use k_fsw.Shell.{ShellCall, shell_print, remexec_list_remote, remexec_run_remote}
use k_fsw.Shell.Remote.{parse_node, remote_failed}
use k_fsw.Shell.Remexec.{
  RemexecReply, RemexecEnv, at_tab, print_line, print_each, print_lines, failed, listing, listed,
  get_offered, has_run, is_remexec_ok, output_line, answer, ran, run_line, run_offered, for_node,
  cmd_remexec, text_lines,
}

-- The calls of the service among all calls.
abbrev pub sent : List ShellCall → List ShellCall
sent [] = []
sent (remexec_list_remote node prefix ∷ h) = remexec_list_remote node prefix ∷ sent h
sent (remexec_run_remote node line ∷ h) = remexec_run_remote node line ∷ sent h
sent (_ ∷ h) = sent h

print_line-quiet : (line : Bytes) (h : List ShellCall) → sent (print_line line h).1 ≡ sent h
unfolding print_line
print_line-quiet line h = elim (Option-cases (at_tab line)) [
  | inl plain ↦ elim (Bool-cases (length line == 0)) [
    | inl empty ↦ rw (plain, sent, print_line) (rw empty refl)
    | inr some_bytes ↦ rw (plain, sent, print_line) (rw some_bytes refl)
  ]
  | inr ((name, help), tabbed) ↦ rw (tabbed, sent, print_line) refl
]

print_each-quiet : (lines : List Bytes) (h : List ShellCall) → sent (print_each lines h).1 ≡ sent h
print_each-quiet [] h = refl
print_each-quiet (l ∷ ls) h = cc (print_each-quiet ls (print_line l h).1, print_line-quiet l h)

print_lines-quiet : (text : Bytes) (h : List ShellCall) → sent (print_lines text h).1 ≡ sent h
unfolding print_lines
print_lines-quiet text h = print_each-quiet (text_lines text) h

failed-quiet :
    (what : Bytes) (node : ℕ) (result : ℤ) (h : List ShellCall)
    → sent (failed what node result h).1 ≡ sent h
unfolding failed remote_failed
failed-quiet what node result h = ground arith

module _ (env : RemexecEnv) where
  listing-quiet : (r : RemexecReply) (h : List ShellCall) → sent (listing env r h).1 ≡ sent h
  listing-quiet r h = ground (arith, print_lines-quiet r.text h)

  listed-quiet :
      (node : ℕ) (result : ℤ) (h : List ShellCall) → sent (listed env node result h).1 ≡ sent h
  listed-quiet node result h = elim (Bool-cases (is_ok result)) [
    | inl good ↦
        let named = shell_print (codes "node: " ++ decimal node) ∷ h in
        rw good (listing-quiet (env.reply named) named)
    | inr bad ↦ rw bad (failed-quiet (codes "remexec get") node result h)
  ]

  answer-quiet : (r : RemexecReply) (h : List ShellCall) → sent (answer env r h).1 ≡ sent h
  answer-quiet r h = elim (Bool-cases (has_run r.status)) [
    | inr refused ↦ rw refused refl
    | inl run ↦ elim (Bool-cases (is_remexec_ok r.status)) [
      | inl fine ↦ rw run (rw fine (print_lines-quiet r.text (shell_print (output_line env r) ∷ h)))
      | inr bad ↦ rw run (rw bad (print_lines-quiet r.text (shell_print (output_line env r) ∷ h)))
    ]
  ]

  ran-quiet :
      (node : ℕ) (line : Bytes) (result : ℤ) (h : List ShellCall)
      → sent (ran env node line result h).1 ≡ sent h
  ran-quiet node line result h = elim (Bool-cases (is_ok result)) [
    | inl good ↦
        let named =
          shell_print (codes "command: " ++ line)
          ∷ shell_print (codes "node: " ++ decimal node)
          ∷ h in
        rw good (answer-quiet (env.reply named) named)
    | inr bad ↦ rw bad (failed-quiet (codes "remexec run") node result h)
  ]

  -- What a command line sends to a node, given its verb; none of the calls is made twice.
  abbrev pub Sends : Bytes → ℕ → Bytes → List ShellCall → List ShellCall → Type 0
  Sends verb node line after before =
      ((verb ≡ codes "get") × (after ≡ remexec_list_remote node line ∷ before))
      ⊎ ((verb ≡ codes "run") × (line ≢ []) × (after ≡ remexec_run_remote node line ∷ before))

  get_offered-sent :
      (node : ℕ) (words : List Bytes) (h : List ShellCall)
      → ((is_ok (get_offered env node words h).0 ≡ false)
          × (env.command_max < length (joined words))
          × (sent (get_offered env node words h).1 ≡ sent h))
        ⊎ ((length (joined words) ≤ env.command_max)
            × (sent (get_offered env node words h).1
                ≡ remexec_list_remote node (joined words) ∷ sent h))
  unfolding get_offered
  get_offered-sent node words h =
      let line = join_command_lem (env.command_max + 1) words (omega arith) in
      elim (Bool-cases (ltb (length (joined words)) (env.command_max + 1))) [
        | inl fits ↦ inr (
          ground arith,
          rw (line, get_offered)
              (rw fits (
                listed-quiet node (env.result h (remexec_list_remote node (joined words)))
                  (remexec_list_remote node (joined words) ∷ h))),
        )
        | inr long ↦ rw (line, get_offered) (rw long (inl (refl, ground arith, refl)))
      ]

  run_line-sent :
      (node : ℕ) (line : Bytes) (h : List ShellCall)
      → ((is_ok (run_line env node line h).0 ≡ false)
          × (line ≡ [])
          × (sent (run_line env node line h).1 ≡ sent h))
        ⊎ ((line ≢ [])
            × (sent (run_line env node line h).1 ≡ remexec_run_remote node line ∷ sent h))
  run_line-sent node [] h = inl (refl, refl, refl)
  run_line-sent node (c ∷ cs) h = inr (
    ground arith,
    ran-quiet node (c ∷ cs) (env.result h (remexec_run_remote node (c ∷ cs)))
        (remexec_run_remote node (c ∷ cs) ∷ h),
  )

  run_offered-sent :
      (node : ℕ) (words : List Bytes) (h : List ShellCall)
      → ((is_ok (run_offered env node words h).0 ≡ false)
          × ((env.command_max < length (joined words)) ⊎ (joined words ≡ []))
          × (sent (run_offered env node words h).1 ≡ sent h))
        ⊎ ((length (joined words) ≤ env.command_max)
            × (joined words ≢ [])
            × (sent (run_offered env node words h).1
                ≡ remexec_run_remote node (joined words) ∷ sent h))
  unfolding run_offered
  run_offered-sent node words h =
      let line = join_command_lem (env.command_max + 1) words (omega arith) in
      elim (Bool-cases (ltb (length (joined words)) (env.command_max + 1))) [
        | inr long ↦ rw (line, run_offered) (rw long (inl (refl, inl (ground arith), refl)))
        | inl fits ↦ elim (run_line-sent node (joined words) h) [
          | inl (bad, empty, none_sent) ↦
              rw (line, run_offered) (rw fits (inl (bad, inr empty, none_sent)))
          | inr (some_line, one_sent) ↦
              rw (line, run_offered) (rw fits (inr (ground arith, some_line, one_sent)))
        ]
      ]

  -- A command sends nothing and returns an error, or one call to a node in range.
  abbrev pub SentOnce : Bytes → List Bytes → List ShellCall → ℤ × List ShellCall → Type 0
  SentOnce verb words h (result, after) =
      ((is_ok result ≡ false) × (sent after ≡ sent h))
      ⊎ ((n : ℕ) × (1 ≤ n)
          × (n < env.parts.broadcast_address)
          × (length (joined words) ≤ env.command_max)
          × Sends verb n (joined words) (sent after) (sent h))

  for_node-sent :
      (verb : Bytes) (words : List Bytes) (n : ℕ) (h : List ShellCall)
      → 1 ≤ n
      → n < env.parts.broadcast_address
      → SentOnce verb words h (for_node env verb words (some n) h)
  for_node-sent verb words n h low high = elim (Bool-cases (str_eq verb (codes "get"))) [
    | inl get ↦ elim (get_offered-sent n words h) [
      | inl (bad, long, same) ↦ rw get (inl (bad, same))
      | inr (fits, one) ↦
          rw get (inr (n, low, high, fits, inl ((str_eq_iff verb (codes "get")).0 get, one)))
    ]
    | inr not_get ↦ elim (Bool-cases (str_eq verb (codes "run"))) [
      | inr not_run ↦ rw not_get (rw not_run (inl (refl, refl)))
      | inl run ↦ elim (run_offered-sent n words h) [
        | inl (bad, why, same) ↦ rw not_get (rw run (inl (bad, same)))
        | inr (fits, some_line, one) ↦ rw not_get (
            rw run (
              inr
                (n, low, high, fits, inr ((str_eq_iff verb (codes "run")).0 run, some_line, one))))
      ]
    ]
  ]

  -- With a broadcast address of 16 bits, a remexec command on the words behind it sends nothing
  -- and returns an error; or it sends exactly one call, to a node from 1 below the broadcast
  -- address, with the words of the line joined by single spaces within the longest command, to
  -- list for the verb get, and to run for the verb run if the line is not empty.
  pub cmd_remexec_sent :
      (node verb : Bytes) (words : List Bytes) (h : List ShellCall)
      → env.parts.broadcast_address ≤ 65535
      → SentOnce verb words h (cmd_remexec env node verb words h)
  unfolding cmd_remexec parse_node
  cmd_remexec_sent node verb words h narrow =
      let parsed = (env.parts.strtoul node).0 in
      elim (Bool-cases (
        not (is_ok (env.parts.strtoul node).1)
        || parsed == 0
        || leb env.parts.broadcast_address parsed)) [
          | inl bad ↦ rw bad (inl (refl, refl))
          | inr good ↦
              let kept : parsed % 65536 ≡ parsed = ground arith in
              rw good (rw kept (for_node-sent verb words parsed h (ground arith) (ground arith)))
        ]
