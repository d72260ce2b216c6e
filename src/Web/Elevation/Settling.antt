-- ===== src/Web/Elevation/Settling.antt =====
-- packages/web/src/features/desktop/useElevation.tsx: which promises of `run` are resolved, and how
-- often.
use desk_ssh.Base.{
  ℕ, suc, List, [], ◌∷◌, ◌++◌, Option, none, some, ◌≡◌, ◌⊎◌, inl, inr, refl, arith, sym, Bool-cases,
}
use desk_ssh.Js.Text.{Text}
use desk_ssh.Core.Result.{CapabilityResult, ok, degraded, failed, unsupported}
use desk_ssh.Core.Elevation.{PrivilegeInfo}
use desk_ssh.Web.Elevation.{
  Dialogs, Event, ran, run_threw, typed_user, typed_password, have_admin, cancelled, authorized,
  applied, apply_threw, settle, step, run, cancel, reset, apply_start, is_denied,
}

module _ {A : Type 0} where
  -- The promise of the run was resolved.
  abbrev pub Settled : ℕ → List (ℕ × CapabilityResult A) → Type 0
  Settled k [] = ⊥
  Settled k ((t, r) ∷ rest) = (t ≡ k) ⊎ Settled k rest

  -- No promise is resolved twice.
  abbrev pub Distinct : List (ℕ × CapabilityResult A) → Type 0
  Distinct [] = Unit
  Distinct ((t, r) ∷ rest) = (¬ Settled t rest) × Distinct rest

  pub Settled-append :
      (k t : ℕ) (r : CapabilityResult A) (xs : List (ℕ × CapabilityResult A))
      → Settled k (xs ++ (t, r) ∷ [])
      → Settled k xs ⊎ (t ≡ k)
  Settled-append k t r [] (inl e) = inr e
  Settled-append k t r [] (inr h) = elim h [ ]
  Settled-append k t r ((u, v) ∷ xs) (inl e) = inl (inl e)
  Settled-append k t r ((u, v) ∷ xs) (inr h) = elim (Settled-append k t r xs h) [
    | inl m ↦ inl (inr m)
    | inr e ↦ inr e
  ]

  pub Distinct-append :
      (t : ℕ) (r : CapabilityResult A) (xs : List (ℕ × CapabilityResult A))
      → Distinct xs
      → ¬ Settled t xs
      → Distinct (xs ++ (t, r) ∷ [])
  Distinct-append t r [] d n = (λ e. e, tt)
  Distinct-append t r ((u, v) ∷ xs) (m, d) n = (
    λ h. elim (Settled-append u t r xs h) [ inl q ↦ m q | inr e ↦ n (inl (sym e)) ],
    Distinct-append t r xs d (λ h. n (inr h)),
  )

  -- What an event does to the promises.
  pub data Change (s t : Dialogs A) : Type 0 where
    kept : t.settled ≡ s.settled → t.next ≡ s.next → t.resolve ≡ s.resolve → Change s t
    lost : t.settled ≡ s.settled → t.next ≡ suc s.next → t.resolve ≡ s.resolve → Change s t
    opened : t.settled ≡ s.settled → t.next ≡ suc s.next → t.resolve ≡ some s.next → Change s t
    resolved_now :
        (r : CapabilityResult A)
        → t.settled ≡ s.settled ++ (s.next, r) ∷ []
        → t.next ≡ suc s.next
        → t.resolve ≡ s.resolve
        → Change s t
    resolved :
        (r : CapabilityResult A)
        → t.settled ≡ settle s.resolve r s.settled
        → t.next ≡ s.next
        → t.resolve ≡ none
        → Change s t

module _ {A : Type 0} where
  run-Change :
      (r : CapabilityResult A) (probe : Option PrivilegeInfo) (s : Dialogs A)
      → Change s (run r probe s)
  unfolding run
  run-Change r none s = elim (Bool-cases (is_denied r)) [
    | inl e ↦ rw e (Change.resolved_now r refl refl refl)
    | inr e ↦ rw e (Change.resolved_now r refl refl refl)
  ]
  run-Change r (some p) s = elim (Bool-cases (is_denied r)) [
    | inl e ↦ rw e (Change.opened refl refl refl)
    | inr e ↦ rw e (Change.resolved_now r refl refl refl)
  ]

  cancel-Change : (s : Dialogs A) → Change s (cancel s)
  unfolding cancel reset
  cancel-Change s = elim (Bool-cases s.transitioning) [
    | inl e ↦ rw e (Change.kept refl refl refl)
    | inr e ↦ rw e (Change.resolved _ refl refl refl)
  ]

  pub step-Change : (fallback : Text) (e : Event A) (s : Dialogs A) → Change s (step fallback e s)
  unfolding step reset apply_start
  step-Change f (ran r probe) s = run-Change r probe s
  step-Change f run_threw s = Change.lost refl refl refl
  step-Change f (typed_user text) s = Change.kept refl refl refl
  step-Change f (typed_password text) s = Change.kept refl refl refl
  step-Change f have_admin s = Change.kept refl refl refl
  step-Change f cancelled s = cancel-Change s
  step-Change f authorized s = Change.kept (ground arith) (ground arith) (ground arith)
  step-Change f (applied (ok v raw)) s = Change.resolved (ok v raw) refl refl refl
  step-Change f (applied (degraded raw reason)) s = Change.kept refl refl refl
  step-Change f (applied (failed raw code reason)) s = Change.kept refl refl refl
  step-Change f (applied (unsupported reason)) s = Change.kept refl refl refl
  step-Change f (apply_threw message) s = Change.kept refl refl refl
