-- ===== src/Web/Elevation/Once.antt =====
-- packages/web/src/features/desktop/useElevation.tsx: no promise of `run` is resolved twice.
use desk_ssh.Base.{
  ℕ, suc, ◌<◌, List, [], ◌∷◌, ◌++◌, Option, none, some, ◌≡◌, inl, inr, arith, sym, some_inj,
  Option-cases, none-ne-some,
}
use mathlib.Core.Path.{subst}
use desk_ssh.Js.Text.{Text}
use desk_ssh.Core.Result.{CapabilityResult}
use desk_ssh.Web.Elevation.{Dialogs, initial, settle, step, Reached}
use desk_ssh.Web.Elevation.Settling.{
  Settled, Distinct, Settled-append, Distinct-append, Change, step-Change,
}

module _ {A : Type 0} (xs : List (ℕ × CapabilityResult A)) (n : ℕ) (o : Option ℕ) where
  -- Each run that was resolved or waits has its number below `n`, and none is resolved twice.
  pub record IsOnce : Type 0 where
    pub below : (k : ℕ) → Settled k xs → k < n
    pub pending_below : (k : ℕ) → o ≡ some k → k < n
    pub pending_new : (k : ℕ) → o ≡ some k → ¬ Settled k xs
    pub distinct : Distinct xs

module _ {A : Type 0} (xs : List (ℕ × CapabilityResult A)) (n : ℕ) (o : Option ℕ) where
  abbrev Below : Type 0
  Below = (k : ℕ) → Settled k xs → k < n

  below_suc : Below → (k : ℕ) → Settled k xs → k < suc n
  below_suc b k h = omega (arith, b k h)

  pending_suc : ((k : ℕ) → o ≡ some k → k < n) → (k : ℕ) → o ≡ some k → k < suc n
  pending_suc b k h = omega (arith, b k h)

  not_next : Below → ¬ Settled n xs
  not_next b h = omega (arith, b n h)

  append-below :
      (t m : ℕ) (r : CapabilityResult A)
      → ((k : ℕ) → Settled k xs → k < m)
      → t < m
      → (k : ℕ) → Settled k (xs ++ (t, r) ∷ [])
      → k < m
  append-below t m r b h k s = elim (Settled-append k t r xs s) [
    | inl q ↦ b k q
    | inr e ↦ subst (λ j. j < m) e h
  ]

  settle_all : (r : CapabilityResult A) → IsOnce xs n o → IsOnce (settle o r xs) n none
  settle_all r h = elim (Option-cases o) [
    | inl e ↦ rw e (record {
      below = h.below;
      pending_below = λ k q. absurd (none-ne-some q);
      pending_new = λ k q. absurd (none-ne-some q);
      distinct = h.distinct;
    })
    | inr (t, e) ↦ rw e (record {
      below = append-below t n r h.below (h.pending_below t e);
      pending_below = λ k q. absurd (none-ne-some q);
      pending_new = λ k q. absurd (none-ne-some q);
      distinct = Distinct-append t r xs h.distinct (h.pending_new t e);
    })
  ]

  settle_next : (r : CapabilityResult A) → IsOnce xs n o → IsOnce (xs ++ (n, r) ∷ []) (suc n) o
  settle_next r h = record {
    below = append-below n (suc n) r (below_suc h.below) (omega arith);
    pending_below = pending_suc h.pending_below;
    pending_new = λ k q s. elim (Settled-append k n r xs s) [
      | inl m ↦ h.pending_new k q m
      | inr e ↦ omega (arith, h.pending_below k q)
    ];
    distinct = Distinct-append n r xs h.distinct (not_next h.below);
  }

  skip_next : IsOnce xs n o → IsOnce xs (suc n) o
  skip_next h = record {
    below = below_suc h.below;
    pending_below = pending_suc h.pending_below;
    pending_new = h.pending_new;
    distinct = h.distinct;
  }

  open_next : IsOnce xs n o → IsOnce xs (suc n) (some n)
  open_next h = record {
    below = below_suc h.below;
    pending_below = λ k q. subst (λ j. j < suc n) (some_inj q) (omega arith);
    pending_new = λ k q. subst (λ j. ¬ Settled j xs) (some_inj q) (not_next h.below);
    distinct = h.distinct;
  }

abbrev pub Once : {A : Type 0} → Dialogs A → Type 0
Once s = IsOnce s.settled s.next s.resolve

module _ {A : Type 0} where
  pub Change-Once : (s t : Dialogs A) → Change s t → Once s → Once t
  Change-Once s t (Change.kept es en er) h = rw (es, en, er) h
  Change-Once s t (Change.lost es en er) h =
      rw (es, en, er) (skip_next s.settled s.next s.resolve h)
  Change-Once s t (Change.opened es en er) h =
      rw (es, en, er) (open_next s.settled s.next s.resolve h)
  Change-Once s t (Change.resolved_now r es en er) h =
      rw (es, en, er) (settle_next s.settled s.next s.resolve r h)
  Change-Once s t (Change.resolved r es en er) h =
      rw (es, en, er) (settle_all s.settled s.next s.resolve r h)

  initial-Once : Once {A = A} initial
  initial-Once = record {
    below = λ k h. absurd h;
    pending_below = λ k h. absurd (none-ne-some h);
    pending_new = λ k h q. q;
    distinct = tt;
  }

  pub Reached-Once : (fallback : Text) (s : Dialogs A) → Reached fallback s → Once s
  Reached-Once fallback s (Reached.start e) = subst Once (sym e) initial-Once
  Reached-Once fallback s (Reached.next_event {s = p} e r o q) =
      subst Once (sym q)
        (Change-Once p (step fallback e p) (step-Change fallback e p) (Reached-Once fallback p r))

  -- In every state that the hook reaches, no run was resolved twice, and the run that waits was not
  -- resolved.
  pub Reached-Distinct :
      (fallback : Text) (s : Dialogs A)
      → Reached fallback s
      → Distinct s.settled × ((k : ℕ) → s.resolve ≡ some k → ¬ Settled k s.settled)
  Reached-Distinct fallback s r = let h = Reached-Once fallback s r in (h.distinct, h.pending_new)
