-- ===== src/Shell/Param/Set.antt =====
-- What `param get` and `param set` write, and where.
use k_fsw.Base.{
  ℕ, ◌%◌, ◌≤◌, ◌<◌, ◌≡◌, refl, ap, ◌∙◌, ◌⊎◌, inl, inr, true, false, not, ◌||◌, Option, none, some,
  List, [], ◌∷◌, ◌++◌, arith, ltb, ◌==◌, if◌then◌else◌, ℤ, ok, is_ok, Bool-cases,
}
use k_fsw.Text.{Bytes, codes}
use k_fsw.Env.{Proc, pure, ◌>>=◌, ◌>>◌, recall}
use k_fsw.Shell.Service.{ServiceCall, ParamValue, param_set, param_get, param_remote_set}
use k_fsw.Shell.{ShellCall, service}
use k_fsw.Shell.Remote.{no_answer, remote_failed}
use k_fsw.Shell.Param.{
  ParamShell, this_node, print_param_error, print_param_value, read_call, on_answer, get_value,
  stored_here, set_here, set_there, set_parsed, set_value, node_read, parse_param_node, or_einval,
  cmd_param_set,
}

-- The name and the text of the words, and the node if the first word is not the name.
abbrev pub Names : Bytes → Bytes → Option Bytes → ℕ → Bytes → Bytes → Type 0
Names first second none node name text = (node ≡ this_node) × (name ≡ first) × (text ≡ second)
Names first second (some third) node name text = (name ≡ second) × (text ≡ third)

-- The writes among all calls.
abbrev pub writes : List ShellCall → List ServiceCall
writes [] = []
writes (service (param_set name v) ∷ h) = param_set name v ∷ writes h
writes (service (param_remote_set node name v) ∷ h) = param_remote_set node name v ∷ writes h
writes (_ ∷ h) = writes h

abbrev pub write_call : ℕ → Bytes → ParamValue → ServiceCall
write_call node name v =
    if node == this_node then param_set name v else param_remote_set node name v

print_param_error-quiet :
    (operation name : Bytes) (result : ℤ) (h : List ShellCall)
    → (writes (print_param_error operation name result h).1 ≡ writes h)
      × ((print_param_error operation name result h).0 ≡ result)
unfolding print_param_error
print_param_error-quiet operation name result h = ground arith

remote_failed-quiet :
    (what : Bytes) (node : ℕ) (result : ℤ) (h : List ShellCall)
    → (writes (remote_failed what node result h).1 ≡ writes h)
      × ((remote_failed what node result h).0 ≡ result)
unfolding remote_failed
remote_failed-quiet what node result h = ground arith

module _ (env : ParamShell) where
  print_param_value-quiet :
      (node : ℕ) (name : Bytes) (v : ParamValue) (h : List ShellCall)
      → writes (print_param_value env node name v h).1 ≡ writes h
  unfolding print_param_value
  print_param_value-quiet node name v h = ground arith

  read_call-quiet :
      (node : ℕ) (name : Bytes) (h : List ShellCall)
      → writes (service (read_call env node name) ∷ h) ≡ writes h
  read_call-quiet node name h = ground arith

  -- The value that the text gives, read as the value that was there.
  abbrev pub Gives : ℕ → Bytes → Bytes → ParamValue → Type 0
  Gives node name text v =
      (before : List ShellCall) × (is_ok (env.result before (read_call env node name)) ≡ true)
      × (is_ok (env.parse_text text (env.value (service (read_call env node name) ∷ before))).0
          ≡ true)
      × (v ≡ (env.parse_text text (env.value (service (read_call env node name) ∷ before))).1)

  -- No write, and an error; or the one write.
  abbrev pub WritesOnce : ℕ → Bytes → Bytes → List ShellCall → ℤ × List ShellCall → Type 0
  WritesOnce node name text h (result, after) =
      ((is_ok result ≡ false) × (writes after ≡ writes h))
      ⊎ ((v : ParamValue) × Gives node name text v
          × (writes after ≡ write_call node name v ∷ writes h))

  stored_here-quiet :
      (name : Bytes) (result : ℤ) (h : List ShellCall)
      → writes (stored_here env name result h).1 ≡ writes h
  stored_here-quiet name result h = elim (Bool-cases (is_ok result)) [
    | inr bad ↦ rw bad ((print_param_error-quiet (codes "set") name result h).0)
    | inl good ↦ rw good (ground (arith, print_param_value-quiet this_node name (env.value h) h))
  ]

  set_here-once :
      (name : Bytes) (v : ParamValue) (h : List ShellCall)
      → writes (set_here env name v h).1 ≡ param_set name v ∷ writes h
  set_here-once name v h =
      let w = param_set name v in
      elim (Bool-cases (is_ok (env.result h w))) [
        | inl good ↦ rw good (
            stored_here-quiet name (env.result (service w ∷ h) (param_get name))
              (service (param_get name) ∷ service w ∷ h))
        | inr bad ↦
            rw bad ((print_param_error-quiet (codes "set") name (env.result h w) (service w ∷ h)).0)
      ]

  -- What is behind a call: an error that is told, or what comes next.
  on_answer-cases :
      (operation : Bytes) (node : ℕ) (name : Bytes) (next : Unit {0} → Proc ShellCall ℤ)
      → (result : ℤ) (h : List ShellCall)
      → let after = on_answer env operation node name next result h in
        ((is_ok result ≡ false) × (is_ok after.0 ≡ false) × (writes after.1 ≡ writes h))
        ⊎ ((is_ok result ≡ true) × (after ≡ next tt h))
  unfolding no_answer
  on_answer-cases operation node name next result h =
      let failed = remote_failed-quiet (codes "param " ++ operation) node result h in
      let refused = print_param_error-quiet operation name result h in
      ground (arith, failed.0, failed.1, refused.0, refused.1)

  set_there-once :
      (node : ℕ) (name : Bytes) (v : ParamValue) (h : List ShellCall)
      → writes (set_there env node name v h).1 ≡ param_remote_set node name v ∷ writes h
  set_there-once node name v h =
      let w = param_remote_set node name v in
      let next : Unit {0} → Proc ShellCall ℤ = λ _. print_param_value env node name v >> pure ok in
      elim (on_answer-cases (codes "set") node name next (env.result h w) (service w ∷ h)) [
        | inl (bad, error, same) ↦ same
        | inr (good, e) ↦
            ap (λ p. writes p.1) e ∙ print_param_value-quiet node name v (service w ∷ h)
      ]

  -- What the text gives decides.
  abbrev Decides : ℕ → Bytes → List ShellCall → ℤ × ParamValue → ℤ × List ShellCall → Type 0
  Decides node name h (parsed, v) (result, after) =
      ((is_ok parsed ≡ false) × (is_ok result ≡ false) × (writes after ≡ writes h))
      ⊎ ((is_ok parsed ≡ true) × (writes after ≡ write_call node name v ∷ writes h))

  set_parsed-once :
      (node : ℕ) (name text : Bytes) (r : ℤ × ParamValue) (h : List ShellCall)
      → Decides node name h r (set_parsed env node name text r h)
  set_parsed-once node name text (parsed, v) h = elim (Bool-cases (is_ok parsed)) [
    | inr bad ↦ rw bad (inl (refl, bad, refl))
    | inl good ↦ elim (Bool-cases (node == this_node)) [
      | inl here ↦ rw good (rw here (inr (refl, set_here-once name v h)))
      | inr there ↦ rw good (rw there (inr (refl, set_there-once node name v h)))
    ]
  ]

  after_parse :
      (node : ℕ) (name text : Bytes) (h : List ShellCall) (p : ℤ × List ShellCall)
      → is_ok (env.result h (read_call env node name)) ≡ true
      → let h' = service (read_call env node name) ∷ h in
        Decides node name h' (env.parse_text text (env.value h')) p → WritesOnce node name text h p
  after_parse node name text h p good (inl (bad, error, same)) =
      inl (error, same ∙ read_call-quiet node name h)
  after_parse node name text h p good (inr (parsed, one)) = inr (
    _,
    (h, good, parsed, refl),
    one
        ∙ ap
            (λ w.
              write_call node name
                (env.parse_text text (env.value (service (read_call env node name) ∷ h))).1
              ∷ w)
            (read_call-quiet node name h),
  )

  set_value-once :
      (node : ℕ) (name text : Bytes) (h : List ShellCall)
      → WritesOnce node name text h (set_value env node name text h)
  unfolding set_value
  set_value-once node name text h =
      let c = read_call env node name in
      let h' = service c ∷ h in
      let next : Unit {0} → Proc ShellCall ℤ =
        λ _. recall env.value >>= λ old. set_parsed env node name text (env.parse_text text old) in
      elim (on_answer-cases (codes "set") node name next (env.result h c) h') [
        | inl (bad, error, same) ↦ inl (error, same ∙ read_call-quiet node name h)
        | inr (good, e) ↦ rw e (
            after_parse node name text h
              (set_parsed env node name text (env.parse_text text (env.value h')) h') good
              (set_parsed-once node name text (env.parse_text text (env.value h')) h'))
      ]

  get_value-quiet :
      (node : ℕ) (name : Bytes) (h : List ShellCall)
      → writes (get_value env node name h).1 ≡ writes h
  unfolding get_value
  get_value-quiet node name h =
      let c = read_call env node name in
      let h' = service c ∷ h in
      let next : Unit {0} → Proc ShellCall ℤ =
        λ _. recall env.value >>= λ v. print_param_value env node name v >> pure ok in
      elim (on_answer-cases (codes "get") node name next (env.result h c) h') [
        | inl (bad, error, same) ↦ same ∙ read_call-quiet node name h
        | inr (good, e) ↦
            ap (λ p. writes p.1) e
            ∙ print_param_value-quiet node name (env.value h') h'
            ∙ read_call-quiet node name h
      ]

  -- The node that a word names, if it names one: not this node by its own address, and in range.
  abbrev pub Node : ℕ → Type 0
  Node node = (node ≡ this_node) ⊎ ((0 < node) × (node ≤ env.parts.broadcast_address))

  named_Node :
      (parsed own : ℕ) (parse_error : ℤ)
      → env.parts.broadcast_address ≤ 65535
      → (not (is_ok parse_error) || parsed == 0 || ltb env.parts.broadcast_address parsed) ≡ false
      → Node (if parsed == own then this_node else parsed % 65536)
  named_Node parsed own parse_error narrow good = ground arith

  -- No write, and an error; or one write, to a node that can be addressed.
  abbrev pub SetsOnce : Bytes → Bytes → Option Bytes → List ShellCall → ℤ × List ShellCall → Type 0
  SetsOnce first second third h (result, after) =
      ((is_ok result ≡ false) × (writes after ≡ writes h))
      ⊎ ((node : ℕ) × (name : Bytes) × (text : Bytes) × (v : ParamValue) × Names first second third
            node name text
          × Node node
          × Gives node name text v
          × (writes after ≡ write_call node name v ∷ writes h))

  named-SetsOnce :
      (first second third : Bytes) (r : ℕ × ℤ) (h : List ShellCall)
      → env.parts.broadcast_address ≤ 65535
      → SetsOnce first second
          (some third)
          h
          ((node_read env r >>= or_einval (λ node. set_value env node second third)) h)
  named-SetsOnce first second third (parsed, parse_error) h narrow =
      let node = if parsed == env.own_address h then this_node else parsed % 65536 in
      elim (Bool-cases
        (not (is_ok parse_error) || parsed == 0 || ltb env.parts.broadcast_address parsed)) [
          | inl bad ↦ rw bad (inl (refl, refl))
          | inr good ↦ rw good (elim (set_value-once node second third h) [
            | inl error ↦ inl error
            | inr (v, gives, one) ↦ inr (
              node,
              second,
              third,
              v,
              (refl, refl),
              named_Node parsed (env.own_address h) parse_error narrow good,
              gives,
              one,
            )
          ])
        ]

  -- With a broadcast address of 16 bits: param set writes nothing and returns an error; or it
  -- makes exactly one write, of the name that the words give, on this node or on one up to the
  -- broadcast address; the value written is what the text was accepted as, onto the value that was
  -- read from that node without an error.
  pub cmd_param_set-SetsOnce :
      (first second : Bytes) (third : Option Bytes) (h : List ShellCall)
      → env.parts.broadcast_address ≤ 65535
      → SetsOnce first second third h (cmd_param_set env first second third h)
  unfolding cmd_param_set parse_param_node
  cmd_param_set-SetsOnce first second none h narrow =
      elim (set_value-once this_node first second h) [
        | inl error ↦ inl error
        | inr (v, gives, one) ↦
            inr (this_node, first, second, v, (refl, refl, refl), inl refl, gives, one)
      ]
  cmd_param_set-SetsOnce first second (some text) h narrow =
      named-SetsOnce first second text (env.parts.strtoul first) h narrow
