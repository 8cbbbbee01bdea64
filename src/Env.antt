-- ===== src/Env.antt =====
-- Code that calls other services. A procedure adds each call that it makes to a history, newest
-- first, and what a call answers may depend on all that was called before it: the environment is
-- a function of the history, and a parameter of the model.
use k_fsw.Base.{◌≡◌, ap, List, ◌∷◌}

abbrev pub Proc : Type 0 → Type 0 → Type 0
Proc Call A = List Call → A × List Call

module _ {Call : Type 0} where
  abbrev pub pure : {A : Type 0} → A → Proc Call A
  pure a history = (a, history)

  infixl 5 ◌>>=◌ ◌>>◌
  abbrev pub ◌>>=◌ : {A B : Type 0} → Proc Call A → (A → Proc Call B) → Proc Call B
  ◌>>=◌ m f history = let (a, history') = m history in f a history'

  abbrev pub ◌>>◌ : {A B : Type 0} → Proc Call A → Proc Call B → Proc Call B
  m >> k = m >>= λ _. k

  -- A call, and its answer.
  abbrev pub call : {R : Type 0} → (List Call → Call → R) → Call → Proc Call R
  call answer c history = (answer history c, c ∷ history)

  -- A call whose answer is not used.
  abbrev pub tell : Call → Proc Call (Unit {0})
  tell c history = (tt, c ∷ history)

  -- What was called before.
  abbrev pub recall : {R : Type 0} → (List Call → R) → Proc Call R
  recall answer history = (answer history, history)

  -- A procedure behind another, whose answer and history are known.
  pub run_next :
      {A B : Type 0} (m : Proc Call A) (f : A → Proc Call B) {h h' : List Call} {a : A}
      → m h ≡ (a, h')
      → (m >>= f) h ≡ f a h'
  run_next m f e = ap (λ p. f p.0 p.1) e
