-- ===== src/Web/Elevation/Endings.antt =====
-- packages/web/src/features/desktop/useElevation.tsx: how a run ends, and which runs never do.
use desk_ssh.Base.{
  ℕ, suc, ◌<◌, List, [], ◌∷◌, ◌++◌, true, Option, none, some, ◌≡◌, ◌≢◌, inl, inr, arith, some_inj,
  Bool-cases, Option-cases, none-ne-some,
}
use desk_ssh.Js.Text.{Text}
use desk_ssh.Core.Result.{CapabilityResult}
use desk_ssh.Core.Elevation.{PrivilegeInfo}
use desk_ssh.Web.Elevation.{
  Dialogs, Event, ran, run_threw, cancelled, settle, step, run, cancel, reset, is_denied, Reached,
}
use desk_ssh.Web.Elevation.Settling.{Settled, Settled-append, Change, step-Change}
use desk_ssh.Web.Elevation.Once.{Once, Reached-Once}

module _ {A : Type 0} where
  -- The promise of the run is not resolved and can no longer be.
  pub record IsLost (k n : ℕ) (xs : List (ℕ × CapabilityResult A)) (o : Option ℕ) : Type 0 where
    pub old : k < n
    pub unsettled : ¬ Settled k xs
    pub not_pending : o ≢ some k

abbrev pub Lost : {A : Type 0} → ℕ → Dialogs A → Type 0
Lost k s = IsLost k s.next s.settled s.resolve

module _ {A : Type 0} (k n : ℕ) (xs : List (ℕ × CapabilityResult A)) (o : Option ℕ)
    (h : IsLost k n xs o) where
  unsettled_append : (t : ℕ) (r : CapabilityResult A) → t ≢ k → ¬ Settled k (xs ++ (t, r) ∷ [])
  unsettled_append t r e s = elim (Settled-append k t r xs s) [
    | inl q ↦ h.unsettled q
    | inr q ↦ e q
  ]

  IsLost-resolve : (r : CapabilityResult A) → IsLost k n (settle o r xs) none
  IsLost-resolve r = elim (Option-cases o) [
    | inl e ↦ rw e (record { old = h.old; unsettled = h.unsettled; not_pending = none-ne-some })
    | inr (t, e) ↦ rw e (record {
      old = h.old;
      unsettled = unsettled_append t r (λ q. h.not_pending (rw q at e));
      not_pending = none-ne-some;
    })
  ]

  later : k < suc n
  later = omega (arith, h)

  IsLost-open : IsLost k (suc n) xs (some n)
  IsLost-open = record {
    old = later;
    unsettled = h.unsettled;
    not_pending = λ e. omega (arith, h, some_inj e);
  }

  IsLost-now : (r : CapabilityResult A) → IsLost k (suc n) (xs ++ (n, r) ∷ []) o
  IsLost-now r = record {
    old = later;
    unsettled = unsettled_append n r (λ e. omega (arith, h));
    not_pending = h.not_pending;
  }

  IsLost-skip : IsLost k (suc n) xs o
  IsLost-skip = record { old = later; unsettled = h.unsettled; not_pending = h.not_pending }

module _ {A : Type 0} where
  Change-Lost : (k : ℕ) (s t : Dialogs A) → Change s t → Lost k s → Lost k t
  Change-Lost k s t (Change.kept es en er) h = rw (es, en, er) h
  Change-Lost k s t (Change.lost es en er) h =
      rw (es, en, er) (IsLost-skip k s.next s.settled s.resolve h)
  Change-Lost k s t (Change.opened es en er) h =
      rw (es, en, er) (IsLost-open k s.next s.settled s.resolve h)
  Change-Lost k s t (Change.resolved_now r es en er) h =
      rw (es, en, er) (IsLost-now k s.next s.settled s.resolve h r)
  Change-Lost k s t (Change.resolved r es en er) h =
      rw (es, en, er) (IsLost-resolve k s.next s.settled s.resolve h r)

  -- Any events, one after the other.
  abbrev pub run_all : Text → List (Event A) → Dialogs A → Dialogs A
  run_all fallback [] s = s
  run_all fallback (e ∷ es) s = run_all fallback es (step fallback e s)

  run_all-Lost :
      (fallback : Text) (k : ℕ) (es : List (Event A)) (s : Dialogs A)
      → Lost k s
      → Lost k (run_all fallback es s)
  run_all-Lost fallback k [] s h = h
  run_all-Lost fallback k (e ∷ es) s h =
      run_all-Lost fallback k es (step fallback e s)
        (Change-Lost k s (step fallback e s) (step-Change fallback e s) h)

  run_threw-Lost :
      (fallback : Text) (s : Dialogs A) → Once s → Lost s.next (step fallback run_threw s)
  unfolding step
  run_threw-Lost fallback s h = record {
    old = omega arith;
    unsettled = λ q. omega (arith, h.below s.next q);
    not_pending = λ e. omega (arith, h.pending_below s.next e);
  }

  run_denied-Lost :
      (fallback : Text) (s : Dialogs A) (k : ℕ) (result : CapabilityResult A)
      (probe : PrivilegeInfo)
      → s.resolve ≡ some k
      → is_denied result ≡ true
      → Once s
      → Lost k (step fallback (ran result (some probe)) s)
  unfolding step run
  run_denied-Lost fallback s k result probe e d h = rw d (record {
    old = omega (arith, h.pending_below k e);
    unsettled = h.pending_new k e;
    not_pending = λ q. omega (arith, h.pending_below k e, some_inj q);
  })

  -- A run whose first attempt throws is never resolved: in no state that follows, whatever happens,
  -- has its promise a result.
  pub run_threw_unsettled :
      (fallback : Text) (s : Dialogs A) (es : List (Event A))
      → Reached fallback s
      → ¬ Settled s.next (run_all fallback es (step fallback run_threw s)).settled
  run_threw_unsettled fallback s es r =
      (run_all-Lost fallback s.next es (step fallback run_threw s)
        (run_threw-Lost fallback s (Reached-Once fallback s r))).unsettled

  -- If a run waits while another is denied, the probe of which succeeds, the promise of the first is
  -- never resolved.
  pub run_denied_unsettled :
      (fallback : Text) (s : Dialogs A) (k : ℕ) (result : CapabilityResult A)
      (probe : PrivilegeInfo) (es : List (Event A))
      → Reached fallback s
      → s.resolve ≡ some k
      → is_denied result ≡ true
      → ¬ Settled k (run_all fallback es (step fallback (ran result (some probe)) s)).settled
  run_denied_unsettled fallback s k result probe es r e d =
      (run_all-Lost fallback k es (step fallback (ran result (some probe)) s)
        (run_denied-Lost fallback s k result probe e d (Reached-Once fallback s r))).unsettled

  -- In any state in which a run waits and the result of an attempt is at hand: if the user cancels
  -- twice, the run's promise is resolved with that result, and no dialog is left.
  pub cancel_twice :
      (fallback : Text) (s : Dialogs A) (k : ℕ) (result : CapabilityResult A)
      → s.resolve ≡ some k
      → s.last ≡ some result
      → let t = step fallback cancelled (step fallback cancelled s) in
        (t.settled ≡ s.settled ++ (k, result) ∷ []) × (t.stage ≡ none)
  unfolding step cancel reset
  cancel_twice fallback s k result e l = elim (Bool-cases s.transitioning) [
    | inl b ↦ ground arith
    | inr b ↦ ground arith
  ]
