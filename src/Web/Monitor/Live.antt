-- ===== src/Web/Monitor/Live.antt =====
-- packages/web/src/features/desktop/apps/MonitorApp.tsx: the state of the window, what a poll writes into
-- it, and the actions that wait for their confirmation. The interval sends polls at any time; a poll
-- is known by the run of the effect that sent it.
use desk_ssh.Base.{
  ℕ, suc, Bool, true, false, List, [], ◌∷◌, Option, none, some, if◌then◌else◌, ◌==◌,
}
use desk_ssh.Js.Text.{Text}
use desk_ssh.Core.Exec.{Outcome, done, threw}
use desk_ssh.Core.Result.{CapabilityResult, ok, degraded, failed, unsupported}
use desk_ssh.Core.Types.{Process, ProcessSignal, ServiceAction, SystemMetrics}
use desk_ssh.Web.Monitor.{Pending, ask_service, ask_signal}

pub record Monitor : Type 0 where
  pub metrics : Option SystemMetrics
  pub unavailable : Bool
  pub procs : Option (List Process)
  pub filter : Text
  pub service_name : Text
  pub pending : Option Pending
  pub action_msg : Option Text
  -- The run of the effect that is active, none behind the unmount, and the number of runs.
  pub active : Option ℕ
  pub runs : ℕ
  -- The actions that `runElevated` was given, the last first.
  pub started : List Pending

abbrev pub new_monitor : Monitor
new_monitor = record {
  metrics = none;
  unavailable = false;
  procs = none;
  filter = [];
  service_name = [];
  pending = none;
  action_msg = none;
  active = some 0;
  runs = 1;
  started = [];
}

-- What happens. A response that was thrown is none.
pub data Event : Type 0 where
  polled :
      (run : ℕ) (m : Option (CapabilityResult SystemMetrics))
      (p : Option (CapabilityResult (List Process)))
      → Event
  refresh_clicked unmounted cancelled confirmed : Event
  filter_typed name_typed : (text : Text) → Event
  action_clicked : (action : ServiceAction) → Event
  signal_chosen : (p : Process) (signal : ProcessSignal) → Event
  ended : (result : Outcome (CapabilityResult Unit)) → Event

-- `tick` changes: the effect's cleanup, and a new run of it.
unfoldable pub reload : Monitor → Monitor
reload s = elim s.active [
  | none ↦ s
  | some run ↦ record s { active = some s.runs; runs = suc s.runs }
]

abbrev pub with_metrics : Option (CapabilityResult SystemMetrics) → Monitor → Monitor
with_metrics (some (ok m raw)) s = record s { metrics = some m; unavailable = false }
with_metrics other s = record s { unavailable = true }

abbrev pub with_procs : Option (CapabilityResult (List Process)) → Monitor → Monitor
with_procs (some (ok ps raw)) s = record s { procs = some ps }
with_procs other s = s

abbrev pub is_run : Option ℕ → ℕ → Bool
is_run none run = false
is_run (some k) run = k == run

-- `poll`, behind both responses.
unfoldable pub poll_answered :
    ℕ
    → Option (CapabilityResult SystemMetrics)
    → Option (CapabilityResult (List Process))
    → Monitor
    → Monitor
poll_answered run m p s = if is_run s.active run then with_procs p (with_metrics m s) else s

-- `confirmPending` up to the action.
unfoldable pub confirm : Monitor → Monitor
confirm s = elim s.pending [
  | none ↦ s
  | some p ↦ record s { action_msg = none; pending = none; started = p ∷ s.started }
]

-- `confirmPending` behind the action; every result but `ok` has a reason.
unfoldable pub action_ended : Outcome (CapabilityResult Unit) → Monitor → Monitor
unfolding reload
action_ended (done (ok value raw)) s = reload s
action_ended (done (degraded raw reason)) s = record s { action_msg = some reason }
action_ended (done (failed raw exit_code reason)) s = record s { action_msg = some reason }
action_ended (done (unsupported reason)) s = record s { action_msg = some reason }
action_ended (threw message) s = record s { action_msg = some message }

unfoldable pub step : Event → Monitor → Monitor
unfolding reload poll_answered confirm action_ended ask_service ask_signal
step (polled run m p) s = poll_answered run m p s
step refresh_clicked s = reload s
step unmounted s = record s { active = none }
step cancelled s = record s { pending = none }
step confirmed s = confirm s
step (filter_typed text) s = record s { filter = text }
step (name_typed text) s = record s { service_name = text }
step (action_clicked action) s = record s { pending = ask_service s.service_name action s.pending }
step (signal_chosen p sig) s = record s { pending = some (ask_signal p sig) }
step (ended result) s = action_ended result s

abbrev pub act_all : List Event → Monitor → Monitor
act_all [] s = s
act_all (e ∷ es) s = act_all es (step e s)
