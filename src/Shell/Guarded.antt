-- ===== src/Shell/Guarded.antt =====
-- Commands that ask a service once, if their words are in order, and not at all otherwise.
pub mod Services
mod Tests
use k_fsw.Base.{
  ℕ, ◌≡◌, refl, sym, ◌∙◌, inl, inr, Bool, true, false, not, ◌&&◌, ◌||◌, List, ◌∷◌, arith, ltb, leb,
  ◌==◌, if◌then◌else◌, ℤ, ok, is_ok, ==ℤ_iff, einval, Bool-cases,
}
use k_fsw.Text.{Bytes}
use k_fsw.Env.{Proc}
use k_fsw.Shell.Service.{ServiceCall}
use k_fsw.Shell.{ShellCall, service, requests}
use k_fsw.Shell.Report.{refuse}

-- With the guard, this call is made once and its result is passed on; without it nothing is asked,
-- and the result is -EINVAL.
abbrev pub Guarded :
    (List ShellCall → ServiceCall → ℤ)
    → Bool
    → ServiceCall
    → List ShellCall
    → ℤ × List ShellCall
    → Type 0
Guarded answer true c h (result, after) = (result ≡ answer h c) × (requests after ≡ c ∷ requests h)
Guarded answer false c h (result, after) = (result ≡ einval) × (requests after ≡ requests h)

-- A number that was read without an error and lies between two bounds.
abbrev pub in_range : ℕ → ℕ → ℕ × ℤ → Bool
in_range low high (number, error) = is_ok error && leb low number && leb number high

above_lem : (high n : ℕ) → ltb high n ≡ not (leb n high)
above_lem high n = ground arith

-- A call, with an error printed behind it, or what follows a success.
pub answered-Guarded :
    (answer : List ShellCall → ServiceCall → ℤ) (c : ServiceCall) (text : Bytes)
    (next : Proc ShellCall ℤ) (h : List ShellCall)
    → (next (service c ∷ h)).0 ≡ ok
    → requests (next (service c ∷ h)).1 ≡ c ∷ requests h
    → Guarded answer true c h
        ((if not (is_ok (answer h c)) then refuse text (answer h c) else next) (service c ∷ h))
answered-Guarded answer c text next h good quiet = elim (Bool-cases (is_ok (answer h c))) [
  | inr failed ↦ rw failed (refl, refl)
  | inl done ↦ rw done (good ∙ sym ((==ℤ_iff (answer h c) ok).0 done), quiet)
]

-- A check against an upper bound.
pub below-Guarded :
    (answer : List ShellCall → ServiceCall → ℤ) (c : ServiceCall) (text : Bytes) (high n : ℕ)
    (error : ℤ) (next : Proc ShellCall ℤ) (h : List ShellCall)
    → Guarded answer true c h (next h)
    → Guarded answer
        (in_range 0 high (n, error))
        c
        h
        ((if not (is_ok error) || ltb high n then refuse text einval else next) h)
below-Guarded answer c text high n error next h asked =
    let some_low : leb 0 n ≡ true = ground arith in
    elim (Bool-cases (is_ok error)) [
      | inr bad ↦ rw bad (refl, refl)
      | inl read ↦ elim (Bool-cases (leb n high)) [
        | inr large ↦ rw (above_lem high n, read, some_low, large) (refl, refl)
        | inl small ↦ rw (above_lem high n, read, some_low, small) asked
      ]
    ]

positive_lem : (n : ℕ) → leb 1 n ≡ not (n == 0)
positive_lem n = ground arith

-- The same, of a number that must not be zero.
pub positive-Guarded :
    (answer : List ShellCall → ServiceCall → ℤ) (c : ServiceCall) (text : Bytes) (high n : ℕ)
    (error : ℤ) (next : Proc ShellCall ℤ) (h : List ShellCall)
    → Guarded answer true c h (next h)
    → Guarded answer
        (in_range 1 high (n, error))
        c
        h
        ((if not (is_ok error) || n == 0 || ltb high n then refuse text einval else next) h)
positive-Guarded answer c text high n error next h asked = elim (Bool-cases (is_ok error)) [
  | inr bad ↦ rw bad (refl, refl)
  | inl read ↦ elim (Bool-cases (n == 0)) [
    | inl nothing ↦ rw (positive_lem n, read, nothing) (refl, refl)
    | inr positive ↦ elim (Bool-cases (leb n high)) [
      | inr large ↦ rw (above_lem high n, positive_lem n, read, positive, large) (refl, refl)
      | inl small ↦ rw (above_lem high n, positive_lem n, read, positive, small) asked
    ]
  ]
]
