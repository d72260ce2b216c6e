-- ===== src/Core/Session/Lifecycle.antt =====
-- The life of a session: packages/core/src/session/ssh-session.ts.
use desk_ssh.Base.{List, [], ◌∷◌, ◌≡◌, ◌≢◌, ◌∙◌, sym, refl, arith}
use desk_ssh.Core.Session.{
  SessionState, idle, connected, Event, ready, close, close_call, Settled, pending, resolved,
  rejected, Session, opening, settle, handle, handle_all,
}

-- The first event that settles the promise of `open()`.
pub first_settlement : List Event → Settled
first_settlement [] = pending
first_settlement (ready ∷ es) = resolved
first_settlement (Event.error e ∷ es) = rejected e
first_settlement (close ∷ es) = first_settlement es
first_settlement (close_call ∷ es) = first_settlement es

settle-pending : (s : Settled) → settle s pending ≡ s
settle-pending pending = refl
settle-pending resolved = refl
settle-pending (rejected e) = refl

settle_assoc : (a b c : Settled) → settle (settle a b) c ≡ settle a (settle b c)
settle_assoc pending b c = refl
settle_assoc resolved b c = refl
settle_assoc (rejected e) b c = refl

handle_all-opened :
    (es : List Event) (s : Session)
    → (handle_all es s).opened ≡ settle s.opened (first_settlement es)
unfolding handle_all first_settlement
handle_all-opened [] s = sym (settle-pending s.opened)
handle_all-opened (ready ∷ es) s =
    handle_all-opened es (handle ready s) ∙ settle_assoc s.opened resolved (first_settlement es)
handle_all-opened (Event.error e ∷ es) s =
    handle_all-opened es (handle (Event.error e) s)
    ∙ settle_assoc s.opened (rejected e) (first_settlement es)
handle_all-opened (close ∷ es) s = handle_all-opened es (handle close s)
handle_all-opened (close_call ∷ es) s = handle_all-opened es (handle close_call s)

-- What the state says in the course of a session.
pub record IsConsistent (s : Session) : Type 0 where
  pub started : s.state ≢ idle
  pub connected_opened : s.state ≡ connected → s.opened ≢ pending
  pub error_opened : s.state ≡ SessionState.error → s.opened ≢ pending

handle-IsConsistent : (e : Event) (s : Session) → IsConsistent s → IsConsistent (handle e s)
unfolding handle
handle-IsConsistent ready s h = ground arith
handle-IsConsistent (Event.error e) s h = ground arith
handle-IsConsistent close s h = ground arith
handle-IsConsistent close_call s h = ground arith

handle_all-IsConsistent :
    (es : List Event) (s : Session) → IsConsistent s → IsConsistent (handle_all es s)
unfolding handle_all
handle_all-IsConsistent [] s h = h
handle_all-IsConsistent (e ∷ es) s h =
    handle_all-IsConsistent es (handle e s) (handle-IsConsistent e s h)

-- Whatever events come, in whatever order, the promise of `open()` is settled by the first ready or
-- error event and never again; the session is never idle again, and it is connected or in error only
-- if the promise is settled.
pub lifecycle :
    (es : List Event)
    → ((handle_all es opening).opened ≡ first_settlement es) × IsConsistent (handle_all es opening)
lifecycle es = (
  handle_all-opened es opening,
  handle_all-IsConsistent es opening
      (record { started = λ h. cc; connected_opened = λ h. cc; error_opened = λ h. cc }),
)
