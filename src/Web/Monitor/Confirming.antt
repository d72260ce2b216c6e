-- ===== src/Web/Monitor/Confirming.antt =====
-- packages/web/src/features/desktop/apps/MonitorApp.tsx: what starts an action.
use desk_ssh.Base.{
  ℕ, List, ◌∷◌, Option, none, some, ◌≡◌, refl, ◌∙◌, inl, inr, Option-cases, Bool-cases, ◌⊎◌,
}
use desk_ssh.Core.Exec.{Outcome, done, threw}
use desk_ssh.Core.Result.{CapabilityResult, ok, degraded, failed, unsupported}
use desk_ssh.Core.Types.{Process, SystemMetrics}
use desk_ssh.Web.Monitor.{Pending}
use desk_ssh.Web.Monitor.Live.{
  Monitor, Event, polled, refresh_clicked, unmounted, cancelled, confirmed, filter_typed,
  name_typed, action_clicked, signal_chosen, ended, reload, with_metrics, with_procs, is_run,
  poll_answered, confirm, action_ended, step,
}

reload-started : (s : Monitor) → (reload s).started ≡ s.started
unfolding reload
reload-started s = elim (Option-cases s.active) [ inl e ↦ rw e | inr (k, e) ↦ rw e ]

action_ended-started :
    (result : Outcome (CapabilityResult Unit)) (s : Monitor)
    → (action_ended result s).started ≡ s.started
unfolding action_ended
action_ended-started (done (ok value raw)) s = reload-started s
action_ended-started (done (degraded raw reason)) s = refl
action_ended-started (done (failed raw exit_code reason)) s = refl
action_ended-started (done (unsupported reason)) s = refl
action_ended-started (threw message) s = refl

with_metrics-started :
    (m : Option (CapabilityResult SystemMetrics)) (s : Monitor)
    → (with_metrics m s).started ≡ s.started
with_metrics-started none s = refl
with_metrics-started (some (ok m raw)) s = refl
with_metrics-started (some (degraded raw reason)) s = refl
with_metrics-started (some (failed raw exit_code reason)) s = refl
with_metrics-started (some (unsupported reason)) s = refl

with_procs-started :
    (p : Option (CapabilityResult (List Process))) (s : Monitor)
    → (with_procs p s).started ≡ s.started
with_procs-started none s = refl
with_procs-started (some (ok ps raw)) s = refl
with_procs-started (some (degraded raw reason)) s = refl
with_procs-started (some (failed raw exit_code reason)) s = refl
with_procs-started (some (unsupported reason)) s = refl

poll_answered-started :
    (run : ℕ) (m : Option (CapabilityResult SystemMetrics))
    (p : Option (CapabilityResult (List Process))) (s : Monitor)
    → (poll_answered run m p s).started ≡ s.started
unfolding poll_answered
poll_answered-started run m p s = elim (Bool-cases (is_run s.active run)) [
  | inl e ↦ rw e (with_procs-started p (with_metrics m s) ∙ with_metrics-started m s)
  | inr e ↦ rw e
]

-- What a step starts.
abbrev IsConfirmed : Event → Monitor → Monitor → Type 0
IsConfirmed e s u =
    (u.started ≡ s.started)
    ⊎ ((e ≡ confirmed)
        × ((p : Pending) × ((s.pending ≡ some p)
              × ((u.started ≡ p ∷ s.started) × (u.pending ≡ none)))))

confirm-IsConfirmed : (s : Monitor) → IsConfirmed confirmed s (confirm s)
unfolding confirm
confirm-IsConfirmed s = elim (Option-cases s.pending) [
  | inl e ↦ rw e (inl refl)
  | inr (p, e) ↦ rw e (inr (refl, (p, (refl, (refl, refl)))))
]

-- Only a confirmation starts an action: the one that is pending, which is then pending no more, so
-- that it is not started a second time.
step-IsConfirmed : (e : Event) (s : Monitor) → IsConfirmed e s (step e s)
unfolding step
step-IsConfirmed (polled run m p) s = inl (poll_answered-started run m p s)
step-IsConfirmed refresh_clicked s = inl (reload-started s)
step-IsConfirmed unmounted s = inl refl
step-IsConfirmed cancelled s = inl refl
step-IsConfirmed confirmed s = confirm-IsConfirmed s
step-IsConfirmed (filter_typed text) s = inl refl
step-IsConfirmed (name_typed text) s = inl refl
step-IsConfirmed (action_clicked action) s = inl refl
step-IsConfirmed (signal_chosen p sig) s = inl refl
step-IsConfirmed (ended result) s = inl (action_ended-started result s)
