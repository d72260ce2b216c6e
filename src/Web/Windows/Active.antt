-- ===== src/Web/Windows/Active.antt =====
-- packages/web/src/features/desktop/useWindows.ts: which window a launch and a focus leave active.
use desk_ssh.Base.{
  ◌+◌, [], ◌∷◌, ◌++◌, none, some, keep, find, ◌≡◌, refl, inl, inr, arith, All-imp, All-append,
  Option-cases,
}
use desk_ssh.Js.Text.{Text}
use desk_ssh.Web.Windows.{
  AppDefinition, WindowState, Desktop, raise, focus, new_window, open_app, active, has_app,
  active_of, is_visible,
}
use desk_ssh.Web.Windows.Stacking.{
  Occurs-append, active_of_topmost, has_id, raise-Occurs, raise-IsBelow, find_id,
}
use desk_ssh.Web.Windows.Invariant.{IsDesktop}

-- After a focus on the id of a window of a desktop that keeps the invariant, that window is the
-- active one, raised above the counter and no longer minimized.
pub active-focus :
    (id : Text) (s : Desktop) (w : WindowState)
    → IsDesktop s
    → find (has_id id) s.windows ≡ some w
    → active (focus id s) ≡ some (raise (s.top_z + 1) w)
unfolding active focus
active-focus id s w h e =
    active_of_topmost (raise (s.top_z + 1) w) _ refl (raise-Occurs id s.top_z w s.windows e)
      (raise-IsBelow id s.top_z w s.windows h.ids h.below e)

-- What a launch leaves active: the raised window of the app if there is one, or a new one.
abbrev pub launched : AppDefinition → Desktop → WindowState
launched app s = elim (find (has_app app.id) s.windows) [
  | some w ↦ raise (s.top_z + 1) w
  | none ↦ new_window app s.seq (s.top_z + 1)
]

open_app_new :
    (app : AppDefinition) (s : Desktop)
    → find (has_app app.id) s.windows ≡ none
    → open_app app s ≡ record {
      windows = s.windows ++ new_window app s.seq (s.top_z + 1) ∷ [];
      top_z = s.top_z + 1;
      seq = s.seq + 1;
    }
unfolding open_app
open_app_new app s e = rw (e, open_app)

open_app_old :
    (app : AppDefinition) (s : Desktop) (w : WindowState)
    → find (has_app app.id) s.windows ≡ some w
    → open_app app s ≡ focus w.id s
unfolding open_app focus
open_app_old app s w e = rw (e, open_app)

active-new :
    (app : AppDefinition) (s : Desktop)
    → IsDesktop s
    → active_of (keep is_visible (s.windows ++ new_window app s.seq (s.top_z + 1) ∷ []))
      ≡ some (new_window app s.seq (s.top_z + 1))
unfolding new_window
active-new app s h = active_of_topmost _ _ refl (Occurs-append _ s.windows) (
    All-append _ s.windows _ (All-imp _ _ (λ w l. inl (omega arith)) s.windows h.below)
      (inr refl, tt))

-- After a launch on a desktop that keeps the invariant, the window of the app is the active one:
-- the one that was open, raised above the counter and no longer minimized, or a new one.
pub active-open_app :
    (app : AppDefinition) (s : Desktop)
    → IsDesktop s
    → active (open_app app s) ≡ some (launched app s)
unfolding active
active-open_app app s h = elim (Option-cases (find (has_app app.id) s.windows)) [
  | inl e ↦ rw (open_app_new app s e, launched, e) (active-new app s h)
  | inr (w, e) ↦
      rw (open_app_old app s w e, launched, e)
        (active-focus w.id s w h (find_id (has_app app.id) w s.windows h.ids e))
]
