-- ===== src/Web/Viewer.antt =====
-- packages/web/src/features/desktop/apps/ImageViewerApp.tsx: the loading of an image. The effect runs
-- when the target or the path changes; `active` is the request, if any, whose response still counts,
-- and `next` the number of requests.
pub mod Loading
pub mod Showing
use desk_ssh.Base.{
  ℕ, suc, Bool, true, false, not, List, [], ◌∷◌, Option, none, some, if◌then◌else◌, ◌==◌, ◌||◌,
}
use desk_ssh.Js.Text.{Text, text_eq, non_empty}
use desk_ssh.Web.Mime.{Property, image_mime_for}

pub data Status : Type 0 where
  idle loading ready error : Status

pub record Viewer : Type 0 where
  pub target : Option Text
  pub path : Option Text
  -- The kind and the contents of the data URL that is shown.
  pub src : Option (Property × Text)
  pub status : Status
  pub actual_size : Bool
  pub active : Option ℕ
  pub next : ℕ
  -- What each request asked for, and what the contents that are shown were asked as.
  pub requests : List (ℕ × Text)
  pub origin : Option Text

abbrev pub new_viewer : Viewer
new_viewer = record {
  target = none;
  path = none;
  src = none;
  status = idle;
  actual_size = false;
  active = none;
  next = 0;
  requests = [];
  origin = none;
}

abbrev pub is_at : Option Text → Text → Bool
is_at none path = false
is_at (some p) path = text_eq path p

abbrev pub failed : Viewer → Viewer
failed s = record s { path = s.target; src = none; status = error; active = none }

abbrev pub begun : Text → Option Property → Viewer → Viewer
begun target none s = failed s
begun target (some mime) s = record s {
  status = loading;
  active = some s.next;
  next = suc s.next;
  requests = (s.next, target) ∷ s.requests;
}

-- The effect for a target; the request of an earlier run no longer counts.
unfoldable pub effect : Text → Viewer → Viewer
unfolding image_mime_for text_eq
effect target s =
    if not (non_empty target) || is_at s.path target
    then record s { active = none }
    else begun target (image_mime_for target) s

-- `openImage`: setting the target that is there runs no effect.
unfoldable pub open_image : Text → Viewer → Viewer
unfolding effect text_eq
open_image target s =
    if is_at s.target target then s else effect target (record s { target = some target })

abbrev pub is_active : Option ℕ → ℕ → Bool
is_active none run = false
is_active (some k) run = k == run

abbrev pub shown : Text → Option Property → Option Text → Viewer → Viewer
shown path (some mime) (some base64) s = record s {
  path = s.target;
  src = some (mime, base64);
  actual_size = false;
  status = ready;
  active = none;
  origin = some path;
}
shown path mime contents s = failed s

abbrev pub mime_of : Option Text → Option Property
mime_of none = none
mime_of (some target) = image_mime_for target

-- The response to a request for a path: the contents, or `none` if the file could not be read.
unfoldable pub answered : ℕ → Text → Option Text → Viewer → Viewer
unfolding image_mime_for
answered run path contents s =
    if is_active s.active run then shown path (mime_of s.target) contents s else s

unfoldable pub toggle_size : Viewer → Viewer
toggle_size s = record s { actual_size = not s.actual_size }
