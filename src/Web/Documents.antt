-- ===== src/Web/Documents.antt =====
-- packages/web/src/features/desktop/apps/DocumentsApp.tsx: the editor of rich text. The editor itself is
-- a library: `html_of` is the HTML that it holds once its content is set to a text, and an update comes
-- with the HTML that it then holds. The rest is as in Web/Stallman, but that a reference, `loaded`, tells
-- whether updates count.
pub mod Updates
use desk_ssh.Base.{
  ℕ, suc, Bool, true, false, not, ◌&&◌, ◌||◌, List, [], ◌∷◌, ◌++◌, Option, none, some,
  if◌then◌else◌, get_elem?, without, is_some,
}
use desk_ssh.Js.Text.{Text, codes, text_eq, non_empty}
use desk_ssh.Web.Bytes.{Codec, looks_like_text, base64_to_text, text_to_base64}
use desk_ssh.Web.Stallman.{
  Status, idle, loading, saving, saved, error, is_at, is_active, is_saving, idle_if_saved,
}

-- A call of `writeFile`, with the file that the HTML was loaded from.
pub record Write : Type 0 where
  pub path : Text
  pub base64 : Text
  pub origin : Option Text

pub record Editor : Type 0 where
  pub target : Option Text
  pub path : Option Text
  pub html : Text
  pub loaded : Bool
  pub dirty : Bool
  pub status : Status
  pub message : Option Text
  pub active : Option ℕ
  pub next : ℕ
  pub waiting : List Write
  pub writes : List Write
  -- The file that the HTML was loaded from.
  pub origin : Option Text

abbrev pub new_editor : Text → Editor
new_editor blank = record {
  target = none;
  path = none;
  html = blank;
  loaded = false;
  dirty = false;
  status = idle;
  message = none;
  active = none;
  next = 0;
  waiting = [];
  writes = [];
  origin = none;
}

unfoldable pub effect : Text → Editor → Editor
unfolding text_eq
effect target s =
    if not (non_empty target) || is_at s.path target then record s { active = none } else record s {
      status = loading;
      message = none;
      loaded = false;
      active = some s.next;
      next = suc s.next;
    }

-- `openDoc`: setting the target that is there runs no effect.
unfoldable pub open_doc : Text → Editor → Editor
unfolding effect text_eq
open_doc target s =
    if is_at s.target target then s else effect target (record s { target = some target })

abbrev pub failed : Text → Editor → Editor
failed key s = record s { status = error; message = some key }

-- Setting the content emits no update.
abbrev pub shown : Text → Text → Editor → Editor
shown path html s = record s {
  path = some path;
  html = html;
  dirty = false;
  status = idle;
  loaded = true;
  active = none;
  origin = some path;
}

-- `onUpdate`.
unfoldable pub updated : Text → Editor → Editor
updated html s =
    if s.loaded
    then record s { html = html; dirty = true; status = idle_if_saved s.status }
    else record s { html = html }

module _ (c : Codec) (html_of : Text → Text) where
  unfoldable pub onto : Text → Option Text → Editor → Editor
  onto path none s = failed (codes "docs.loadError") s
  onto path (some text) s = shown path (html_of text) s

  unfoldable pub checked : Text → Option Bool → Option Text → Editor → Editor
  unfolding onto
  checked path none text s = failed (codes "docs.loadError") s
  checked path (some false) text s = failed (codes "docs.binary") s
  checked path (some true) text s = onto path text s

  -- The contents in base64, or `none` if the request failed.
  unfoldable pub received : Text → Option Text → Editor → Editor
  unfolding checked looks_like_text base64_to_text
  received path none s = failed (codes "docs.loadError") s
  received path (some base64) s =
      checked path (looks_like_text c base64) (base64_to_text c base64) s

  unfoldable pub arrived : ℕ → Text → Option Text → Editor → Editor
  unfolding received
  arrived run path contents s = if is_active s.active run then received path contents s else s

module _ (c : Codec) where
  unfoldable pub write_of : Text → Editor → Write
  unfolding text_to_base64
  write_of path s = record { path = path; base64 = text_to_base64 c s.html; origin = s.origin }

  unfoldable pub save_to : Option Text → Editor → Editor
  unfolding write_of
  save_to none s = s
  save_to (some path) s = record s {
    status = saving;
    waiting = s.waiting ++ write_of path s ∷ [];
    writes = write_of path s ∷ s.writes;
  }

  -- The button, where it is enabled, and `save`.
  unfoldable pub save : Editor → Editor
  unfolding save_to
  save s = if is_some s.path && s.dirty && not (is_saving s.status) then save_to s.path s else s

-- The response to a write.
unfoldable pub written : Write → Bool → Editor → Editor
written w true s = record s { dirty = false; status = saved; message = none }
written w false s = failed (codes "docs.saveError") s

abbrev pub answered : ℕ → Option Write → Bool → Editor → Editor
answered i none ok s = s
answered i (some w) ok s = written w ok (record s { waiting = without i s.waiting })

pub data Event : Type 0 where
  opened : Text → Event
  response : (run : ℕ) (path : Text) → Option Text → Event
  typed : Text → Event
  clicked : Event
  write_answered : (i : ℕ) (ok : Bool) → Event

unfoldable pub step : Codec → (html_of : Text → Text) → Event → Editor → Editor
unfolding open_doc arrived updated save written
step c html_of (opened target) s = open_doc target s
step c html_of (response run path contents) s = arrived c html_of run path contents s
step c html_of (typed html) s = updated html s
step c html_of clicked s = save c s
step c html_of (write_answered i ok) s = answered i (get_elem? s.waiting i) ok s
