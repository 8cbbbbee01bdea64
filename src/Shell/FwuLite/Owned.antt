-- ===== src/Shell/FwuLite/Owned.antt =====
-- What `fwu_lite validate`, `flash` and `abort` ask of another node.
use k_fsw.Base.{
  ℕ, ◌%◌, ◌≡◌, refl, ◌∙◌, sym, ◌⊎◌, inl, inr, true, false, not, ◌||◌, Option, none, some, List, ◌∷◌,
  leb, ◌==◌, ℤ, is_ok, Bool-cases,
}
use k_fsw.Text.{Bytes, codes}
use k_fsw.Env.{Proc, ◌>>=◌}
use k_fsw.Shell.Service.{
  ServiceCall, FwuHandle, fwu_remote_status, fwu_remote_verify, fwu_remote_activate,
  fwu_remote_abort,
}
use k_fsw.Shell.{ShellCall, service, requests}
use k_fsw.Shell.Remote.{parse_node}
use k_fsw.Shell.FwuLite.{
  FwuShell, print_digest, print_status, verified, activated, aborted, resolve_transfer, resolve_on,
  with_handle, cmd_validate, cmd_flash, cmd_abort,
}

module _ (env : FwuShell) where
  -- Nothing is asked, with an error; or a node is asked for its transfer, and where it gives one,
  -- the request is made once, with the handle of that transfer. The result is an error where
  -- a step fails, and only there.
  abbrev pub Owned : (ℕ → FwuHandle → ServiceCall) → List ShellCall → ℤ × List ShellCall → Type 0
  Owned request h (result, after) =
      ((is_ok result ≡ false) × (requests after ≡ requests h))
      ⊎ ((node : ℕ) × (((is_ok (env.result h (fwu_remote_status node)) ≡ false)
              × (is_ok result ≡ false)
              × (requests after ≡ fwu_remote_status node ∷ requests h))
            ⊎ ((is_ok (env.result h (fwu_remote_status node)) ≡ true)
                × (is_ok result
                    ≡ is_ok (
                        env.result (service (fwu_remote_status node) ∷ h) (
                          request node (env.status (service (fwu_remote_status node) ∷ h)).handle)))
                × (requests after
                    ≡ request node (env.status (service (fwu_remote_status node) ∷ h)).handle
                      ∷ fwu_remote_status node
                      ∷ requests h))))

  -- What is printed behind a request that succeeds asks nothing more.
  abbrev Quiet : (ℕ → Proc ShellCall ℤ) → Type 0
  Quiet next =
      (node : ℕ) (h : List ShellCall)
      → (is_ok (next node h).0 ≡ true) × (requests (next node h).1 ≡ requests h)

  print_digest-requests :
      (bytes : Option (List ℕ)) (h : List ShellCall)
      → requests (print_digest env bytes h).1 ≡ requests h
  print_digest-requests none h = refl
  print_digest-requests (some bytes) h = refl

  verified-Quiet : Quiet (verified env)
  unfolding print_status
  verified-Quiet node h = (refl, print_digest-requests (env.status h).sha256 _)

  on_node-Owned :
      (request : ℕ → FwuHandle → ServiceCall) (what : Bytes) (next : ℕ → Proc ShellCall ℤ)
      → Quiet next
      → (node : ℕ) (h : List ShellCall)
      → Owned request h ((resolve_on env (some node) >>= with_handle env request what next) h)
  on_node-Owned request what next quiet node h =
      let asked = service (fwu_remote_status node) ∷ h in
      let c = request node (env.status asked).handle in
      elim (Bool-cases (is_ok (env.result h (fwu_remote_status node)))) [
        | inl found ↦ elim (Bool-cases (is_ok (env.result asked c))) [
          | inl accepted ↦
              rw (found, accepted)
                (let q = quiet node (service c ∷ asked) in
                  inr (node, inr (found, q.0 ∙ sym accepted, q.1)))
          | inr refused ↦ rw (found, refused) (inr (node, inr (found, refl, refl)))
        ]
        | inr missing ↦ rw missing (inr (node, inl (missing, missing, refl)))
      ]

  parsed-Owned :
      (request : ℕ → FwuHandle → ServiceCall) (what : Bytes) (next : ℕ → Proc ShellCall ℤ)
      → Quiet next
      → (text : Bytes) (h : List ShellCall)
      → Owned request h ((resolve_transfer env text >>= with_handle env request what next) h)
  unfolding resolve_transfer parse_node
  parsed-Owned request what next quiet text h =
      let read = env.parts.strtoul text in
      elim (Bool-cases
        (not (is_ok read.1) || read.0 == 0 || leb env.parts.broadcast_address read.0)) [
          | inl bad ↦ rw bad (inl (refl, refl))
          | inr good ↦ rw good (on_node-Owned request what next quiet (read.0 % 65536) h)
        ]

  -- Each of fwu_lite validate, flash and abort asks nothing and returns an error; or asks one node
  -- for its transfer, and where the node gives one, makes its own request once, to that node and
  -- with the handle of that transfer. The result is an error exactly where one of these steps
  -- fails.
  pub transfer_commands-Owned :
      (text : Bytes) (h : List ShellCall)
      → Owned fwu_remote_verify h (cmd_validate env text h)
        × Owned fwu_remote_activate h (cmd_flash env text h)
        × Owned fwu_remote_abort h (cmd_abort env text h)
  unfolding cmd_validate cmd_flash cmd_abort
  transfer_commands-Owned text h = (
    parsed-Owned fwu_remote_verify (codes "Stored image validation") (verified env) verified-Quiet
        text h,
    parsed-Owned fwu_remote_activate (codes "Image activation") (activated env)
        (λ node h. (refl, refl)) text h,
    parsed-Owned fwu_remote_abort (codes "Owned transfer cleanup") (aborted env)
        (λ node h. (refl, refl)) text h,
  )
