-- ===== src/Web/Desktop.antt =====
-- packages/web/src/features/desktop/Desktop.tsx and apps/index.tsx: the apps of the launcher, and opening
-- files in them. What an app renders is left out.
pub mod Opening
use desk_ssh.Base.{
  ℕ, suc, Bool, true, false, List, [], ◌∷◌, Option, none, some, find, if◌then◌else◌,
}
use desk_ssh.Js.Text.{Text, codes, text_eq}
use desk_ssh.Js.Number.{ℤ, pos}
use desk_ssh.Web.Windows
use desk_ssh.Web.Windows.{AppDefinition, open_app, empty}

abbrev app_of : (Text → Text) → Text → Text → ℕ → ℕ → AppDefinition
app_of t id title w h = record { id = id; title = t title; default_size = some (pos w, pos h) }

-- `getApps`.
unfoldable pub get_apps : (Text → Text) → List AppDefinition
get_apps t =
    app_of t (codes "files") (codes "apps.files") 520 460
    ∷ app_of t (codes "editor") (codes "apps.editor") 600 480
    ∷ app_of t (codes "docs") (codes "apps.docs") 640 520
    ∷ app_of t (codes "monitor") (codes "apps.monitor") 460 360
    ∷ app_of t (codes "system") (codes "apps.system") 520 380
    ∷ app_of t (codes "history") (codes "apps.history") 600 440
    ∷ app_of t (codes "terminal") (codes "apps.terminal") 640 420
    ∷ app_of t (codes "viewer") (codes "apps.viewer") 600 480
    ∷ app_of t (codes "pdf") (codes "apps.pdf") 640 560
    ∷ app_of t (codes "credits") (codes "apps.credits") 480 520
    ∷ []

pub record DesktopState : Type 0 where
  pub wm : Windows.Desktop
  pub editor_target : Option Text
  pub image_target : Option Text
  pub pdf_target : Option Text
  pub doc_target : Option Text
  pub terminal_cwd : Option Text
  pub terminal_req : ℕ

abbrev pub new_desktop : DesktopState
new_desktop = record {
  wm = empty;
  editor_target = none;
  image_target = none;
  pdf_target = none;
  doc_target = none;
  terminal_cwd = none;
  terminal_req = 0;
}

abbrev pub is_app : Text → AppDefinition → Bool
is_app id a = text_eq a.id id

abbrev pub launch_found : Option AppDefinition → Windows.Desktop → Windows.Desktop
launch_found none wm = wm
launch_found (some app) wm = open_app app wm

-- Launch the app of an id, if there is one.
unfoldable pub launch : (Text → Text) → Text → Windows.Desktop → Windows.Desktop
unfolding get_apps text_eq open_app
launch t id wm = launch_found (find (is_app id) (get_apps t)) wm

-- The five openers that every app is handed.
pub data Opener : Type 0 where
  editor image pdf doc terminal : Opener

abbrev pub id_of : Opener → Text
id_of editor = codes "editor"
id_of image = codes "viewer"
id_of pdf = codes "pdf"
id_of doc = codes "docs"
id_of terminal = codes "terminal"

-- The state that an opener sets, before it launches its app.
unfoldable pub targeted : Opener → Text → DesktopState → DesktopState
targeted editor path s = record s { editor_target = some path }
targeted image path s = record s { image_target = some path }
targeted pdf path s = record s { pdf_target = some path }
targeted doc path s = record s { doc_target = some path }
targeted terminal path s = record s { terminal_cwd = some path; terminal_req = suc s.terminal_req }

unfoldable pub open_with : (Text → Text) → Opener → Text → DesktopState → DesktopState
unfolding targeted launch
open_with t o path s = let u = targeted o path s in record u { wm = launch t (id_of o) u.wm }

-- The context's field that an opener's app reads.
abbrev pub target_of : Opener → DesktopState → Option Text
target_of editor s = s.editor_target
target_of image s = s.image_target
target_of pdf s = s.pdf_target
target_of doc s = s.doc_target
target_of terminal s = s.terminal_cwd
