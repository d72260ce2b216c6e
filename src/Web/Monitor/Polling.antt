-- ===== src/Web/Monitor/Polling.antt =====
-- packages/web/src/features/desktop/apps/MonitorApp.tsx: which polls still count.
use desk_ssh.Base.{
  ℕ, Bool, true, false, List, [], ◌∷◌, Option, none, some, ◌≡◌, refl, arith, ◌<◌, inl, inr,
  Option-cases, Bool-cases, ==_ne,
}
use desk_ssh.Core.Exec.{Outcome, done, threw}
use desk_ssh.Core.Result.{CapabilityResult, ok, degraded, failed, unsupported}
use desk_ssh.Core.Types.{Process, SystemMetrics}
use desk_ssh.Web.Monitor.Live.{
  Monitor, Event, polled, refresh_clicked, unmounted, cancelled, confirmed, filter_typed,
  name_typed, action_clicked, signal_chosen, ended, reload, with_metrics, with_procs, is_run,
  poll_answered, confirm, action_ended, step, act_all,
}

-- The run is over: it is not active, and no later run will have its number.
abbrev IsOver : ℕ → Monitor → Type 0
IsOver run s = (is_run s.active run ≡ false) × (run < s.runs)

reload-IsOver : (run : ℕ) (s : Monitor) → run < s.runs → IsOver run (reload s)
unfolding reload
reload-IsOver run s h = elim (Option-cases s.active) [
  | inl e ↦ ground (arith, e, h)
  | inr (k, e) ↦ rw e ((==_ne s.runs run (omega arith)), omega arith)
]

with_metrics-IsOver :
    (run : ℕ) (m : Option (CapabilityResult SystemMetrics)) (s : Monitor)
    → IsOver run s
    → IsOver run (with_metrics m s)
with_metrics-IsOver run none s h = h
with_metrics-IsOver run (some (ok m raw)) s h = h
with_metrics-IsOver run (some (degraded raw reason)) s h = h
with_metrics-IsOver run (some (failed raw exit_code reason)) s h = h
with_metrics-IsOver run (some (unsupported reason)) s h = h

with_procs-IsOver :
    (run : ℕ) (p : Option (CapabilityResult (List Process))) (s : Monitor)
    → IsOver run s
    → IsOver run (with_procs p s)
with_procs-IsOver run none s h = h
with_procs-IsOver run (some (ok ps raw)) s h = h
with_procs-IsOver run (some (degraded raw reason)) s h = h
with_procs-IsOver run (some (failed raw exit_code reason)) s h = h
with_procs-IsOver run (some (unsupported reason)) s h = h

action_ended-IsOver :
    (run : ℕ) (result : Outcome (CapabilityResult Unit)) (s : Monitor)
    → IsOver run s
    → IsOver run (action_ended result s)
unfolding action_ended
action_ended-IsOver run (done (ok value raw)) s h = reload-IsOver run s h.1
action_ended-IsOver run (done (degraded raw reason)) s h = h
action_ended-IsOver run (done (failed raw exit_code reason)) s h = h
action_ended-IsOver run (done (unsupported reason)) s h = h
action_ended-IsOver run (threw message) s h = h

confirm-IsOver : (run : ℕ) (s : Monitor) → IsOver run s → IsOver run (confirm s)
unfolding confirm
confirm-IsOver run s h = elim (Option-cases s.pending) [ inl e ↦ rw e h | inr (p, e) ↦ rw e h ]

poll_answered-IsOver :
    (run r : ℕ) (m : Option (CapabilityResult SystemMetrics))
    (p : Option (CapabilityResult (List Process))) (s : Monitor)
    → IsOver run s
    → IsOver run (poll_answered r m p s)
unfolding poll_answered
poll_answered-IsOver run r m p s h = elim (Bool-cases (is_run s.active r)) [
  | inl e ↦ rw e (with_procs-IsOver run p (with_metrics m s) (with_metrics-IsOver run m s h))
  | inr e ↦ rw e h
]

step-IsOver : (run : ℕ) (e : Event) (s : Monitor) → IsOver run s → IsOver run (step e s)
unfolding step
step-IsOver run (polled r m p) s h = poll_answered-IsOver run r m p s h
step-IsOver run refresh_clicked s h = reload-IsOver run s h.1
step-IsOver run unmounted s h = (refl, h.1)
step-IsOver run cancelled s h = h
step-IsOver run confirmed s h = confirm-IsOver run s h
step-IsOver run (filter_typed text) s h = h
step-IsOver run (name_typed text) s h = h
step-IsOver run (action_clicked action) s h = h
step-IsOver run (signal_chosen p sig) s h = h
step-IsOver run (ended result) s h = action_ended-IsOver run result s h

act_all-IsOver :
    (run : ℕ) (es : List Event) (s : Monitor) → IsOver run s → IsOver run (act_all es s)
act_all-IsOver run [] s h = h
act_all-IsOver run (e ∷ es) s h = act_all-IsOver run es (step e s) (step-IsOver run e s h)

-- The event ends the run of the effect that is active: the button, the end of an action that
-- succeeded, or the unmount.
unfoldable pub ends_run : Event → Bool
ends_run refresh_clicked = true
ends_run unmounted = true
ends_run (ended (done (ok value raw))) = true
ends_run other = false

step-ends_run :
    (run : ℕ) (e : Event) (s : Monitor) → ends_run e ≡ true → run < s.runs → IsOver run (step e s)
unfolding step ends_run action_ended
step-ends_run run refresh_clicked s t h = reload-IsOver run s h
step-ends_run run unmounted s t h = (refl, h)
step-ends_run run (ended (done (ok value raw))) s t h = reload-IsOver run s h
step-ends_run run e s t h = cc

polled-IsOver :
    (run : ℕ) (m : Option (CapabilityResult SystemMetrics))
    (p : Option (CapabilityResult (List Process))) (s : Monitor)
    → IsOver run s
    → step (polled run m p) s ≡ s
unfolding step poll_answered
polled-IsOver run m p s (h, k) = rw h

-- If an event ends the run of the effect, by the button, by an action that succeeded or by the
-- unmount, then whatever happens next, the answer to a poll that was sent before changes nothing.
pub act_all-polled_before :
    (run : ℕ) (e : Event) (es : List Event) (m : Option (CapabilityResult SystemMetrics))
    (p : Option (CapabilityResult (List Process))) (s : Monitor)
    → ends_run e ≡ true
    → run < s.runs
    → step (polled run m p) (act_all es (step e s)) ≡ act_all es (step e s)
act_all-polled_before run e es m p s t h =
    polled-IsOver run m p (act_all es (step e s))
      (act_all-IsOver run es (step e s) (step-ends_run run e s t h))
