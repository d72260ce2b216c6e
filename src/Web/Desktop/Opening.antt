-- ===== src/Web/Desktop/Opening.antt =====
-- packages/web/src/features/desktop/Desktop.tsx: what an opener leaves on the desktop.
use desk_ssh.Base.{
  false, List, [], ◌∷◌, some, find, ◌≡◌, refl, ap, ◌∙◌, sym, Option-cases, inl, inr, find-test,
}
use mathlib.Core.Path.{subst}
use desk_ssh.Js.Text.{Text, text_eq}
use desk_ssh.Js.Text.Equality.{text_eq→eq}
use desk_ssh.Web.Windows
use desk_ssh.Web.Windows.{AppDefinition, WindowState, open_app, active, has_app, new_window}
use desk_ssh.Web.Windows.Invariant.{
  IsDesktop, perform-IsDesktop, Gesture, perform, perform_all, reached-IsDesktop,
}
use desk_ssh.Web.Windows.Invariant
use desk_ssh.Web.Windows.Active.{active-open_app, launched}
use desk_ssh.Web.Desktop.{
  DesktopState, new_desktop, get_apps, launch, Opener, editor, image, pdf, doc, terminal, id_of,
  targeted, open_with, target_of,
}

launched-app_id : (app : AppDefinition) (s : Windows.Desktop) → (launched app s).app_id ≡ app.id
unfolding new_window
launched-app_id app s = elim (Option-cases (find (has_app app.id) s.windows)) [
  | inl e ↦ rw (launched, e)
  | inr (w, e) ↦
      rw (launched, e) (text_eq→eq w.app_id app.id (find-test (has_app app.id) s.windows w e))
]

launched-minimized :
    (app : AppDefinition) (s : Windows.Desktop) → (launched app s).minimized ≡ false
unfolding new_window
launched-minimized app s = elim (Option-cases (find (has_app app.id) s.windows)) [
  | inl e ↦ rw (launched, e)
  | inr (w, e) ↦ rw (launched, e)
]

-- The window that the user sees in front belongs to the app.
abbrev pub IsInFront : Text → Windows.Desktop → Type 0
IsInFront id wm = (w : WindowState) × (active wm ≡ some w) × (w.app_id ≡ id) × (w.minimized ≡ false)

open_app-IsInFront :
    (app : AppDefinition) (s : Windows.Desktop) → IsDesktop s → IsInFront app.id (open_app app s)
open_app-IsInFront app s h =
    (launched app s, active-open_app app s h, launched-app_id app s, launched-minimized app s)

-- Each of the five apps is in the launcher.
launch-opens :
    (t : Text → Text) (o : Opener) (wm : Windows.Desktop)
    → (app : AppDefinition) × (app.id ≡ id_of o) × (launch t (id_of o) wm ≡ open_app app wm)
unfolding launch get_apps text_eq
launch-opens t editor wm = (_, refl, refl)
launch-opens t image wm = (_, refl, refl)
launch-opens t pdf wm = (_, refl, refl)
launch-opens t doc wm = (_, refl, refl)
launch-opens t terminal wm = (_, refl, refl)

-- What the user and the apps do to the desktop.
pub data Act : Type 0 where
  gesture : Gesture → Act
  opens : Opener → (path : Text) → Act

module _ (t : Text → Text) where
  unfoldable pub act : Act → DesktopState → DesktopState
  unfolding perform open_with
  act (gesture g) s = record s { wm = perform g s.wm }
  act (opens o path) s = open_with t o path s

  abbrev pub act_all : List Act → DesktopState → DesktopState
  act_all [] s = s
  act_all (a ∷ rest) s = act_all rest (act a s)

  targeted-wm : (o : Opener) (path : Text) (s : DesktopState) → (targeted o path s).wm ≡ s.wm
  unfolding targeted
  targeted-wm editor path s = refl
  targeted-wm image path s = refl
  targeted-wm pdf path s = refl
  targeted-wm doc path s = refl
  targeted-wm terminal path s = refl

  opened_wm :
      (o : Opener) (path : Text) (s : DesktopState)
      → (app : AppDefinition) × (app.id ≡ id_of o) × ((open_with t o path s).wm ≡ open_app app s.wm)
  unfolding open_with
  opened_wm o path s =
      let (app, i, e) = launch-opens t o (targeted o path s).wm in
      (app, i, e ∙ ap (open_app app) (targeted-wm o path s))

  act-IsDesktop : (a : Act) (s : DesktopState) → IsDesktop s.wm → IsDesktop (act a s).wm
  unfolding act
  act-IsDesktop (gesture g) s h = perform-IsDesktop g s.wm h
  act-IsDesktop (opens o path) s h =
      let (app, i, e) = opened_wm o path s in
      subst IsDesktop (sym e) (unfold perform in perform-IsDesktop (Invariant.launch app) s.wm h)

  act_all-IsDesktop :
      (acts : List Act) (s : DesktopState) → IsDesktop s.wm → IsDesktop (act_all acts s).wm
  act_all-IsDesktop [] s h = h
  act_all-IsDesktop (a ∷ rest) s h = act_all-IsDesktop rest (act a s) (act-IsDesktop a s h)

  target-open_with :
      (o : Opener) (path : Text) (s : DesktopState) → target_of o (open_with t o path s) ≡ some path
  unfolding open_with targeted
  target-open_with editor path s = refl
  target-open_with image path s = refl
  target-open_with pdf path s = refl
  target-open_with doc path s = refl
  target-open_with terminal path s = refl

  -- Whatever has happened on an empty desktop: behind the opening of a path with one of the five
  -- openers, the app of this opener is given the path, and the active window is a window of this app
  -- that is not minimized.
  pub open_with-IsInFront :
      (acts : List Act) (o : Opener) (path : Text)
      → let s = open_with t o path (act_all acts new_desktop) in
        (target_of o s ≡ some path) × IsInFront (id_of o) s.wm
  open_with-IsInFront acts o path =
      let s = act_all acts new_desktop in
      let (app, i, e) = opened_wm o path s in
      let h = act_all-IsDesktop acts new_desktop (unfold perform_all in reached-IsDesktop []) in
      (
        target-open_with o path s,
        subst (λ wm. IsInFront (id_of o) wm) (sym e)
            (subst (λ id. IsInFront id (open_app app s.wm)) i (open_app-IsInFront app s.wm h)),
      )
