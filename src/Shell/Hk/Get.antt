-- ===== src/Shell/Hk/Get.antt =====
-- Which samples `hk get` asks for.
use mathlib.Core.List.{append_assoc}
use k_fsw.Base.{
  ℕ, zero, suc, ◌+◌, ◌%◌, ◌≤◌, ◌≡◌, refl, ap, sym, ◌∙◌, ◌⊎◌, inl, inr, Bool, true, false, List, [],
  ◌∷◌, ◌++◌, arith, ok, is_ok, Bool-cases,
}
use k_fsw.Shell.Service.{ServiceCall, hk_get}
use k_fsw.Shell.{ShellCall, service, requests}
use k_fsw.Shell.Hk.Samples.{Sample, SampleEnv, print_sample, nothing_at, get_from}

-- So many times the same.
abbrev pub repeat : {A : Type 0} → A → ℕ → List A
repeat a zero = []
repeat a (suc k) = a ∷ repeat a k

-- The requests for so many samples of a report from an age on, the newest request first.
abbrev pub asked : ℕ → ℕ → ℕ → List ServiceCall
asked report age zero = []
asked report age (suc k) = asked report (age + 1) k ++ hk_get (report % 256) (age % 65536) ∷ []

repeat_shift :
    {A : Type 0} (a : A) (k : ℕ) (rest : List A) → repeat a k ++ a ∷ rest ≡ a ∷ repeat a k ++ rest
repeat_shift a zero rest = refl
repeat_shift a (suc k) rest = ap (λ r. a ∷ r) (repeat_shift a k rest)

module _ (env : SampleEnv) where
  print_sample-quiet :
      (s : Sample) (h : List ShellCall) → requests (print_sample env s h).1 ≡ requests h
  unfolding print_sample
  print_sample-quiet s h = refl

  nothing_at-quiet :
      (report age : ℕ) (h : List ShellCall) → requests (nothing_at env report age h).1 ≡ requests h
  nothing_at-quiet report age h = ground arith

  -- How the service has answered the requests of a history, each behind the calls before it, the
  -- newest first.
  abbrev pub answers : List ShellCall → List Bool
  answers [] = []
  answers (service c ∷ h) = is_ok (env.shell.result h c) ∷ answers h
  answers (_ ∷ h) = answers h

  print_sample-unanswered :
      (s : Sample) (h : List ShellCall) → answers (print_sample env s h).1 ≡ answers h
  unfolding print_sample
  print_sample-unanswered s h = refl

  nothing_at-unanswered :
      (report age : ℕ) (h : List ShellCall) → answers (nothing_at env report age h).1 ≡ answers h
  nothing_at-unanswered report age h = ground arith

  -- Of so many samples from an age on, the first k were asked for, in order: all of them, and the
  -- service had each; or it had all of them but the last.
  abbrev pub Asked : ℕ → ℕ → ℕ → List ShellCall → List ShellCall → Type 0
  Asked report age more h after =
      (k : ℕ) × (k ≤ more)
      × (requests after ≡ asked report age k ++ requests h)
      × (((k ≡ more) × (answers after ≡ repeat true k ++ answers h))
          ⊎ ((j : ℕ) × (k ≡ suc j) × (answers after ≡ false ∷ repeat true j ++ answers h)))

  -- A sample that the service had, before the others.
  Asked-behind :
      (report age more : ℕ) (h h' after : List ShellCall)
      → requests h' ≡ hk_get (report % 256) (age % 65536) ∷ requests h
      → answers h' ≡ true ∷ answers h
      → Asked report (age + 1) more h' after
      → Asked report age (suc more) h after
  Asked-behind report age more h h' after sent found (k, room, all_sent, ends) =
      let c = hk_get (report % 256) (age % 65536) in
      let later = asked report (age + 1) k in
      (
        suc k,
        omega arith,
        all_sent ∙ ap (λ r. later ++ r) sent ∙ sym (append_assoc later (c ∷ []) (requests h)),
        elim ends [
          | inl (whole, had) ↦ inl (
            ap suc whole,
            had ∙ ap (λ r. repeat true k ++ r) found ∙ repeat_shift true k (answers h),
          )
          | inr (j, last, had) ↦ inr (
            suc j,
            ap suc last,
            had
                ∙ ap (λ r. false ∷ repeat true j ++ r) found
                ∙ ap (λ r. false ∷ r) (repeat_shift true j (answers h)),
          )
        ],
      )

  -- From an age on and for so many samples, the loop of hk get returns 0 and has asked for samples
  -- of consecutive ages, the report modulo 2 ^ 8 and the ages modulo 2 ^ 16: for all of them, and
  -- the service had each; or up to the first that the service did not have when it was asked, and
  -- for none behind it.
  pub get_from-Asked :
      (more report age : ℕ) (h : List ShellCall)
      → ((get_from env report age more h).0 ≡ ok)
        × Asked report age more h (get_from env report age more h).1
  unfolding get_from
  get_from-Asked zero report age h = (refl, (0, omega arith, refl, inl (refl, refl)))
  get_from-Asked (suc more) report age h =
      let c = hk_get (report % 256) (age % 65536) in
      elim (Bool-cases (is_ok (env.shell.result h c))) [
        | inr missing ↦ rw missing (
          refl,
          (
            1,
            omega arith,
            nothing_at-quiet report age (service c ∷ h),
            inr (
              0,
              refl,
              nothing_at-unanswered report age (service c ∷ h) ∙ ap (λ b. b ∷ answers h) missing,
            ),
          ),
        )
        | inl found ↦
            let s = env.sample (service c ∷ h) in
            let h' = (print_sample env s (service c ∷ h)).1 in
            let (good, rest) = get_from-Asked more report (age + 1) h' in
            rw found (
              good,
              Asked-behind report age more h h' (get_from env report (age + 1) more h').1
                  (print_sample-quiet s (service c ∷ h))
                  (print_sample-unanswered s (service c ∷ h) ∙ ap (λ b. b ∷ answers h) found) rest,
            )
      ]
