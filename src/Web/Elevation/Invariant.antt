-- ===== src/Web/Elevation/Invariant.antt =====
-- packages/web/src/features/desktop/useElevation.tsx: what holds of the dialogs in every reachable
-- state.
use desk_ssh.Base.{[], Option, none, is_some, ◌≡◌, arith, sym}
use mathlib.Core.Path.{subst}
use desk_ssh.Js.Text.{Text}
use desk_ssh.Core.Result.{CapabilityResult, ok, degraded, failed, unsupported}
use desk_ssh.Core.Elevation.{PrivilegeInfo}
use desk_ssh.Web.Elevation.{
  Dialogs, Event, ran, run_threw, typed_user, typed_password, have_admin, cancelled, authorized,
  applied, apply_threw, initial, step, run, IsOffered, Reached,
}

-- No secret is kept while no dialog is shown, and a dialog is shown exactly while a run waits for it.
pub record IsWellFormed {A : Type 0} (s : Dialogs A) : Type 0 where
  pub no_password : s.stage ≡ none → s.password ≡ []
  pub no_user : s.stage ≡ none → s.user ≡ []
  pub waits : is_some s.resolve ≡ is_some s.stage
  pub has_action : s.action ≡ s.resolve
  pub has_last : is_some s.last ≡ is_some s.stage

module _ {A : Type 0} (fallback : Text) where
  run-IsWellFormed :
      (r : CapabilityResult A) (probe : Option PrivilegeInfo) (s : Dialogs A)
      → IsWellFormed s
      → IsWellFormed (run r probe s)
  unfolding run
  run-IsWellFormed (ok v raw) probe s h = ground arith
  run-IsWellFormed (degraded raw reason) probe s h = ground arith
  run-IsWellFormed (failed raw code reason) probe s h = ground arith
  run-IsWellFormed (unsupported reason) probe s h = ground arith

  pub step-IsWellFormed :
      (e : Event A) (s : Dialogs A)
      → IsOffered e s
      → IsWellFormed s
      → IsWellFormed (step fallback e s)
  unfolding step
  step-IsWellFormed (ran r probe) s o h = run-IsWellFormed r probe s h
  step-IsWellFormed run_threw s o h = ground arith
  step-IsWellFormed (typed_user text) s o h = ground arith
  step-IsWellFormed (typed_password text) s o h = ground arith
  step-IsWellFormed have_admin s o h = ground arith
  step-IsWellFormed cancelled s o h = ground arith
  step-IsWellFormed authorized s o h = ground arith
  step-IsWellFormed (applied r) s o h = ground arith
  step-IsWellFormed (apply_threw message) s o h = ground arith

  initial-IsWellFormed : IsWellFormed {A = A} initial
  initial-IsWellFormed = ground arith

  -- In every state that the hook reaches: while no dialog is shown, no password and no user name is
  -- kept; and a dialog is shown exactly while a run waits for an answer, with its action and its
  -- first result at hand.
  pub Reached-IsWellFormed : (s : Dialogs A) → Reached fallback s → IsWellFormed s
  Reached-IsWellFormed s (Reached.start e) = subst IsWellFormed (sym e) initial-IsWellFormed
  Reached-IsWellFormed s (Reached.next_event {s = p} e r o q) =
      subst IsWellFormed (sym q) (step-IsWellFormed e p o (Reached-IsWellFormed p r))
