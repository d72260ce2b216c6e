-- ===== src/Web/Elevation.antt =====
-- packages/web/src/features/desktop/useElevation.tsx: the dialogs that ask for a privilege. A promise
-- that `run` returned is numbered in the order in which the first attempts finished; `settled` records
-- what each was resolved with. An attempt of an action is outside: its result arrives as an event.
pub mod Invariant
pub mod Settling
pub mod Once
pub mod Endings
use desk_ssh.Base.{
  ℕ, suc, ◌+◌, List, [], ◌∷◌, ◌++◌, Bool, true, false, ◌&&◌, not, any, Option, none, some, or_else,
  if◌then◌else◌, ◌≡◌, ◌≢◌, ◌⊎◌,
}
use desk_ssh.Js.Text.{Text, codes, includes, fold_case}
use desk_ssh.Core.Elevation.{PrivilegeInfo}
use desk_ssh.Core.Result.{CapabilityResult, ok, degraded, failed, unsupported}

-- The alternatives of `PERMISSION_RE`.
abbrev pub permission_phrases : List Text
permission_phrases =
    codes "permission denied"
    ∷ codes "operation not permitted"
    ∷ codes "must be root"
    ∷ codes "authentication is required"
    ∷ codes "access denied"
    ∷ codes "not in the sudoers"
    ∷ codes "are not allowed to"
    ∷ codes "you must have"
    ∷ codes "insufficient privileg"
    ∷ codes "not permitted"
    ∷ []

unfoldable pub looks_like_permission_error : Text → Bool
unfolding includes fold_case
looks_like_permission_error text = any (includes (fold_case text)) permission_phrases

pub data Stage : Type 0 where
  modal1 notice_can notice_cannot modal2 : Stage

-- The state of the hook. `next` counts the runs whose first attempt has finished; `action` and
-- `resolve` name the run that `actionRef` and `resolveRef` belong to.
pub record Dialogs (A : Type 0) : Type 0 where
  pub stage : Option Stage
  pub user : Text
  pub password : Text
  pub busy : Bool
  pub err : Option Text
  pub action : Option ℕ
  pub resolve : Option ℕ
  pub last : Option (CapabilityResult A)
  pub transitioning : Bool
  pub next : ℕ
  pub settled : List (ℕ × CapabilityResult A)

-- What happens to the hook, with the result of an attempt.
pub data Event (A : Type 0) : Type 0 where
  -- The first attempt of a run gave a result; the probe is what `getPrivilege` gives, if it is asked.
  ran : (result : CapabilityResult A) (probe : Option PrivilegeInfo) → Event A
  -- The first attempt of a run threw.
  run_threw : Event A
  typed_user typed_password : Text → Event A
  have_admin cancelled authorized : Event A
  -- The elevated attempt gave a result, or threw.
  applied : (result : CapabilityResult A) → Event A
  apply_threw : (message : Text) → Event A

abbrev pub stage_for : PrivilegeInfo → Stage
stage_for p =
    if p.can_sudo && not p.is_root
    then modal1
    else if p.escalation_available
    then notice_can
    else notice_cannot

abbrev pub asks_password : Option Stage → Bool
asks_password (some modal1) = true
asks_password (some modal2) = true
asks_password other = false

module _ {A : Type 0} where
  abbrev pub initial : Dialogs A
  initial = record {
    stage = none;
    user = [];
    password = [];
    busy = false;
    err = none;
    action = none;
    resolve = none;
    last = none;
    transitioning = false;
    next = 0;
    settled = [];
  }

  -- `resolveRef.current?.(result)`.
  abbrev pub settle :
      Option ℕ → CapabilityResult A → List (ℕ × CapabilityResult A) → List (ℕ × CapabilityResult A)
  settle none result settled = settled
  settle (some ticket) result settled = settled ++ (ticket, result) ∷ []

  unfoldable pub reset : Dialogs A → Dialogs A
  reset s = record s {
    stage = none;
    user = [];
    password = [];
    err = none;
    busy = false;
    action = none;
    resolve = none;
    last = none;
  }

  abbrev pub cancelled_result : CapabilityResult A
  cancelled_result = failed [] (some 1) (codes "cancelled")

  unfoldable pub cancel : Dialogs A → Dialogs A
  unfolding reset
  cancel s =
      if s.transitioning
      then record s { transitioning = false }
      else reset
          (record s { settled = settle s.resolve (or_else s.last cancelled_result) s.settled })

  abbrev pub is_denied : CapabilityResult A → Bool
  is_denied (failed raw exit_code reason) = looks_like_permission_error reason
  is_denied other = false

  -- The promise of this run is resolved with the result of its first attempt.
  abbrev pub resolve_now : CapabilityResult A → Dialogs A → Dialogs A
  resolve_now result s = record s {
    next = suc s.next;
    settled = settle (some s.next) result s.settled;
  }

  abbrev pub ask : CapabilityResult A → PrivilegeInfo → Dialogs A → Dialogs A
  ask result p s = record s {
    action = some s.next;
    resolve = some s.next;
    last = some result;
    password = [];
    user = [];
    err = none;
    stage = some (stage_for p);
    next = suc s.next;
  }

  abbrev pub probed : CapabilityResult A → Option PrivilegeInfo → Dialogs A → Dialogs A
  probed result none s = resolve_now result s
  probed result (some p) s = ask result p s

  -- `run`, behind its first attempt.
  unfoldable pub run : CapabilityResult A → Option PrivilegeInfo → Dialogs A → Dialogs A
  unfolding looks_like_permission_error
  run result probe s = if is_denied result then probed result probe s else resolve_now result s

  -- `apply`, up to the elevated attempt, which it makes if there is an action.
  unfoldable pub apply_start : Dialogs A → Dialogs A
  apply_start s = elim s.action [ none ↦ s | some ticket ↦ record s { busy = true; err = none } ]

  abbrev pub show_error : Text → Dialogs A → Dialogs A
  show_error message s = record s { err = some message; busy = false }

  -- `apply`, behind the elevated attempt; `fallback` is the text of `elev.failed`.
  unfoldable pub apply_end : Text → CapabilityResult A → Dialogs A → Dialogs A
  unfolding reset
  apply_end fallback (ok value raw) s =
      reset (record s { settled = settle s.resolve (ok value raw) s.settled })
  apply_end fallback (degraded raw reason) s = show_error fallback s
  apply_end fallback (failed raw exit_code reason) s = show_error reason s
  apply_end fallback (unsupported reason) s = show_error fallback s

  unfoldable pub have_admin_clicked : Dialogs A → Dialogs A
  have_admin_clicked s = record s { transitioning = true; err = none; stage = some modal2 }

  unfoldable pub step : Text → Event A → Dialogs A → Dialogs A
  unfolding run cancel have_admin_clicked apply_start apply_end
  step fallback (ran result probe) s = run result probe s
  step fallback run_threw s = record s { next = suc s.next }
  step fallback (typed_user text) s = record s { user = text }
  step fallback (typed_password text) s = record s { password = text }
  step fallback have_admin s = have_admin_clicked s
  step fallback cancelled s = cancel s
  step fallback authorized s = apply_start s
  step fallback (applied result) s = apply_end fallback result s
  step fallback (apply_threw message) s = show_error message s

  -- The dialog of the stage has the control that the event needs; results arrive at any time.
  abbrev pub IsOffered : Event A → Dialogs A → Type 0
  IsOffered (typed_user text) s = s.stage ≡ some modal2
  IsOffered (typed_password text) s = asks_password s.stage ≡ true
  IsOffered have_admin s = s.stage ≡ some notice_can
  IsOffered cancelled s = s.stage ≢ none
  IsOffered authorized s = asks_password s.stage ≡ true
  IsOffered other s = Unit

  -- The states that the hook reaches.
  pub data Reached (fallback : Text) : Dialogs A → Type 0 where
    start : {s : Dialogs A} → s ≡ initial → Reached fallback s
    next_event :
        {s t : Dialogs A} (e : Event A)
        → Reached fallback s
        → IsOffered e s
        → t ≡ step fallback e s
        → Reached fallback t
