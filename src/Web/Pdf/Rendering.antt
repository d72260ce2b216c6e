-- ===== src/Web/Pdf/Rendering.antt =====
-- packages/web/src/features/desktop/apps/PdfViewerApp.tsx: the rendering of a page on the canvas. The
-- effect runs when the status, the page or the scale changes; a render task has the number of the run
-- that started it.
use desk_ssh.Base.{
  ℕ, suc, Bool, true, false, not, ◌&&◌, List, [], ◌∷◌, Option, none, some, if◌then◌else◌, ◌==◌,
  keep, ◌≡◌, inl, inr, refl, arith, Bool-cases, is_some, ==_refl,
}
use desk_ssh.Web.Pdf.{
  Viewer, Status, idle, loading, ready, error, new_viewer, Event, opened, arrived, document,
  unreadable, prev_clicked, next_clicked, out_clicked, in_clicked, closed, step, is_active,
  is_ready,
}

pub record Canvas : Type 0 where
  -- The run whose page still counts, and the number of runs.
  pub waiting : Option ℕ
  pub next : ℕ
  -- `renderTaskRef`, and the tasks that were started and neither ended nor cancelled.
  pub task : Option ℕ
  pub live : List ℕ

abbrev pub new_canvas : Canvas
new_canvas = record { waiting = none; next = 0; task = none; live = [] }

abbrev is_other : ℕ → ℕ → Bool
is_other k t = not (t == k)

-- `renderTaskRef.current?.cancel()`.
abbrev cancelled : Option ℕ → List ℕ → List ℕ
cancelled none ts = ts
cancelled (some k) ts = keep (is_other k) ts

-- The cleanup of a run.
abbrev cleaned : Canvas → Canvas
cleaned c = record c { waiting = none; live = cancelled c.task c.live }

abbrev begun : Canvas → Canvas
begun c = record c { waiting = some c.next; next = suc c.next; live = cancelled c.task c.live }

-- The effect, behind the cleanup of its last run.
unfoldable pub render : Viewer → Canvas → Canvas
render s c = if is_ready s.status && is_some s.doc then begun (cleaned c) else cleaned c

-- `getPage` has answered; a run that was cancelled starts no task.
unfoldable pub got_page : ℕ → Canvas → Canvas
got_page run c =
    if is_active c.waiting run
    then record c { waiting = none; task = some run; live = run ∷ c.live }
    else c

unfoldable pub task_ended : ℕ → Canvas → Canvas
task_ended t c = record c { live = keep (is_other t) c.live }

abbrev status_eq : Status → Status → Bool
status_eq idle idle = true
status_eq loading loading = true
status_eq ready ready = true
status_eq error error = true
status_eq a b = false

abbrev is_same : Viewer → Viewer → Bool
is_same s t = status_eq s.status t.status && ((s.page == t.page) && (s.scale == t.scale))

pub data Act : Type 0 where
  user : Event → Act
  page_arrived task_done : ℕ → Act

pub record View : Type 0 where
  pub viewer : Viewer
  pub canvas : Canvas

abbrev after : Event → Viewer → Viewer → Canvas → Canvas
after closed s t c = cleaned c
after e s t c = if is_same s t then c else render t c

-- One step of the viewer and of its canvas.
unfoldable pub act : Act → View → View
unfolding step render got_page task_ended
act (user e) v = record {
  viewer = step e v.viewer;
  canvas = after e v.viewer (step e v.viewer) v.canvas;
}
act (page_arrived run) v = record v { canvas = got_page run v.canvas }
act (task_done t) v = record v { canvas = task_ended t v.canvas }

abbrev pub act_all : List Act → View → View
act_all [] v = v
act_all (a ∷ rest) v = act_all rest (act a v)

-- No task is live, or the one of `renderTaskRef` is; none is while a run waits for its page.
pub data IsSingle (c : Canvas) : Type 0 where
  idle_canvas : c.live ≡ [] → IsSingle c
  one_task : (t : ℕ) → c.live ≡ t ∷ [] → c.task ≡ some t → c.waiting ≡ none → IsSingle c

cancelled_nil : (c : Canvas) → IsSingle c → cancelled c.task c.live ≡ []
cancelled_nil c (idle_canvas e) = ground arith
cancelled_nil c (one_task t e f w) = ground (arith, ==_refl t)

cleaned-IsSingle : (c : Canvas) → IsSingle c → IsSingle (cleaned c)
cleaned-IsSingle c h = idle_canvas (cancelled_nil c h)

render-IsSingle : (s : Viewer) (c : Canvas) → IsSingle c → IsSingle (render s c)
unfolding render
render-IsSingle s c h = elim (Bool-cases (is_ready s.status && is_some s.doc)) [
  | inl e ↦ rw e (idle_canvas (cancelled_nil (cleaned c) (cleaned-IsSingle c h)))
  | inr e ↦ rw e (cleaned-IsSingle c h)
]

task_ended-IsSingle : (t : ℕ) (c : Canvas) → IsSingle c → IsSingle (task_ended t c)
unfolding task_ended
task_ended-IsSingle t c (idle_canvas e) = idle_canvas (ground arith)
task_ended-IsSingle t c (one_task u e f w) = elim (Bool-cases (u == t)) [
  | inl q ↦ idle_canvas (ground arith)
  | inr q ↦ one_task u (ground arith) f w
]

not_waiting :
    (run : ℕ) (c : Canvas) → IsSingle c → is_active c.waiting run ≡ true → run ∷ c.live ≡ run ∷ []
not_waiting run c (idle_canvas f) e = rw f
not_waiting run c (one_task t f g w) e = ground arith

got_page-IsSingle : (run : ℕ) (c : Canvas) → IsSingle c → IsSingle (got_page run c)
unfolding got_page
got_page-IsSingle run c h = elim (Bool-cases (is_active c.waiting run)) [
  | inl e ↦ rw e (one_task run (not_waiting run c h e) refl refl)
  | inr e ↦ rw e h
]

rendered-IsSingle :
    (s t : Viewer) (c : Canvas) → IsSingle c → IsSingle (if is_same s t then c else render t c)
rendered-IsSingle s t c h = elim (Bool-cases (is_same s t)) [
  | inl e ↦ rw e h
  | inr e ↦ rw e (render-IsSingle t c h)
]

after-IsSingle : (e : Event) (s t : Viewer) (c : Canvas) → IsSingle c → IsSingle (after e s t c)
after-IsSingle closed s t c h = cleaned-IsSingle c h
after-IsSingle (opened target) s t c h = rendered-IsSingle s t c h
after-IsSingle (arrived run ok) s t c h = rendered-IsSingle s t c h
after-IsSingle (document run pages) s t c h = rendered-IsSingle s t c h
after-IsSingle (unreadable run) s t c h = rendered-IsSingle s t c h
after-IsSingle prev_clicked s t c h = rendered-IsSingle s t c h
after-IsSingle next_clicked s t c h = rendered-IsSingle s t c h
after-IsSingle out_clicked s t c h = rendered-IsSingle s t c h
after-IsSingle in_clicked s t c h = rendered-IsSingle s t c h

act-IsSingle : (a : Act) (v : View) → IsSingle v.canvas → IsSingle (act a v).canvas
unfolding act
act-IsSingle (user e) v h = after-IsSingle e v.viewer (step e v.viewer) v.canvas h
act-IsSingle (page_arrived run) v h = got_page-IsSingle run v.canvas h
act-IsSingle (task_done t) v h = task_ended-IsSingle t v.canvas h

act_all_from-IsSingle :
    (acts : List Act) (v : View) → IsSingle v.canvas → IsSingle (act_all acts v).canvas
act_all_from-IsSingle [] v h = h
act_all_from-IsSingle (a ∷ rest) v h = act_all_from-IsSingle rest (act a v) (act-IsSingle a v h)

abbrev pub new_view : View
new_view = record { viewer = new_viewer; canvas = new_canvas }

-- Whatever happens from the start, pages that arrive in any order included: at most one render task
-- is live on the canvas, and then it is the one that `renderTaskRef` holds, and no run waits for its
-- page; and closing the window leaves no task live.
pub act_all-IsSingle :
    (acts : List Act)
    → IsSingle (act_all acts new_view).canvas
      × ((act (user closed) (act_all acts new_view)).canvas.live ≡ [])
unfolding act
act_all-IsSingle acts =
    let h = act_all_from-IsSingle acts new_view (idle_canvas refl) in
    (h, cancelled_nil (act_all acts new_view).canvas h)
