-- ===== src/Web/Monitor.antt =====
-- packages/web/src/features/desktop/apps/MonitorApp.tsx: the processes that are shown, and the actions
-- on them. The subtraction of two numbers is a parameter, `falls`, which tells whether `b.cpu - a.cpu`
-- is not positive.
pub mod Live
pub mod Polling
pub mod Confirming
use desk_ssh.Base.{
  ℕ, zero, suc, Bool, true, false, ◌||◌, List, [], keep, Option, none, some, or_else, if◌then◌else◌,
  ◌≡◌, ◌*◌, ◌/◌, ◌+◌, ◌≤◌, arith, refl,
}
use native.Mathlib.Nat.{div-lt_iff_lt-mul}
use mathlib.Core.List.{Perm}
use desk_ssh.Js.Text.{Text, text_eq, trim, to_lower_case, includes, non_empty}
use desk_ssh.Js.Number.{ℤ, Num, ratio, round, show_int}
use desk_ssh.Js.Sort.{sort, sort-perm, IsOrdered, sort-IsOrdered}
use desk_ssh.Core.Types.{Process, ProcessSignal, term, kill, hup, ServiceAction, Memory}
use desk_ssh.Server.Gateway.Body.{Elevate}
use desk_ssh.Web.Client.{ClientCall, signal_process, service_action}

-- What the filter asks of a process.
unfoldable pub matches : Text → Process → Bool
unfolding to_lower_case includes text_eq show_int
matches q p =
    includes (to_lower_case p.command) q
    || includes (to_lower_case p.user) q
    || text_eq (show_int p.pid) q

unfoldable pub query : Text → Text
unfolding to_lower_case trim
query filter = to_lower_case (trim filter)

abbrev pub filtered : Text → List Process → List Process
filtered filter procs =
    if non_empty (query filter) then keep (matches (query filter)) procs else procs

module _ (falls : Num → Num → Bool) where
  abbrev pub cpu_falls : Process → Process → Bool
  cpu_falls a b = falls a.cpu b.cpu

  -- `visible`; `none` while no list has arrived.
  unfoldable pub visible : Text → Option (List Process) → List Process
  unfolding sort matches query
  visible filter procs = sort cpu_falls (filtered filter (or_else procs []))

  module _ (trans : (a b c : Num) → falls a b ≡ true → falls b c ≡ true → falls a c ≡ true)
      (total : (a b : Num) → falls a b ≡ false → falls b a ≡ true) where
    -- If the comparison of loads is transitive and total: the processes shown are those of the list
    -- that pass the filter, or all if the filter is blank, each as often as in the list, and their
    -- loads fall.
    pub visible_lem :
        (filter : Text) (procs : List Process)
        → Perm (visible filter (some procs)) (filtered filter procs)
          × IsOrdered cpu_falls (visible filter (some procs))
    unfolding visible
    visible_lem filter procs = (
      sort-perm cpu_falls (filtered filter procs),
      sort-IsOrdered cpu_falls (λ a b c h k. trans a.cpu b.cpu c.cpu h k)
          (λ a b h. total a.cpu b.cpu h) (filtered filter procs),
    )

-- `usedPct`.
abbrev percentage : ℕ → ℕ → Num
percentage used zero = ratio false 0 1
percentage used (suc t) = round (ratio false (used * 100) (suc t))

unfoldable pub used_pct : Memory → Num
unfolding round
used_pct m = percentage m.used_bytes m.total_bytes

-- An action that waits for its confirmation.
pub data Pending : Type 0 where
  signal : (pid : ℤ) (command : Text) (signal : ProcessSignal) (destructive : Bool) → Pending
  service : (name : Text) (action : ServiceAction) → Pending

-- The buttons of the form: a name of spaces only asks for nothing.
unfoldable pub ask_service : Text → ServiceAction → Option Pending → Option Pending
unfolding trim
ask_service name action pending =
    if non_empty (trim name) then some (service (trim name) action) else pending

-- The menu of a process.
unfoldable pub ask_signal : Process → ProcessSignal → Pending
ask_signal p term = signal p.pid p.command term false
ask_signal p hup = signal p.pid p.command hup false
ask_signal p kill = signal p.pid p.command kill true

abbrev pub pending_call : Pending → Option Elevate → ClientCall
pending_call (signal pid command s destructive) e = signal_process pid s e
pending_call (service name action) e = service_action name action e

abbrev confirmed : Option Pending → Option (Option Elevate → ClientCall)
confirmed none = none
confirmed (some p) = some (pending_call p)

-- `confirmPending`: the action that `runElevated` is given, and what is pending behind it.
unfoldable pub confirm_pending :
    Option Pending → Option (Option Elevate → ClientCall) × Option Pending
confirm_pending pending = (confirmed pending, none)

abbrev IsPercentage : Num → Type 0
IsPercentage x = (n : ℕ) × ((x ≡ ratio false n 1) × (n ≤ 100))

percentage_bounded : (used total : ℕ) → used ≤ total → IsPercentage (percentage used total)
unfolding round
percentage_bounded used zero h = (0, (refl, omega arith))
percentage_bounded used (suc t) h = (
  (2 * (used * 100) + suc t) / (2 * suc t),
  (
    refl,
    omega (
      arith,
      (div-lt_iff_lt-mul {k = 2 * suc t} {x = 2 * (used * 100) + suc t} {y = 101} (omega arith)).1
          (omega arith),
    ),
  ),
)

-- The share of the memory that is used is a whole percentage of at most 100, also where the host
-- reports no memory, if not more is used than there is.
pub used_pct_bounded : (m : Memory) → m.used_bytes ≤ m.total_bytes → IsPercentage (used_pct m)
unfolding used_pct
used_pct_bounded m h = percentage_bounded m.used_bytes m.total_bytes h
