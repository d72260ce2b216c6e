-- ===== src/Web/Stallman.antt =====
-- packages/web/src/features/desktop/apps/StallmanApp.tsx: the code editor, which opens a file, takes edits
-- and saves. The responses arrive as events; `waiting` holds the writes that are not answered yet.
pub mod Writes
pub mod Tracking
pub mod Reading
use desk_ssh.Base.{
  ℕ, suc, Bool, true, false, not, ◌&&◌, ◌||◌, List, [], ◌∷◌, ◌++◌, Option, none, some,
  if◌then◌else◌, ◌==◌, get_elem?, without, is_some,
}
use desk_ssh.Js.Text.{Text, codes, text_eq, non_empty}
use desk_ssh.Web.Bytes.{Codec, looks_like_text, base64_to_text, text_to_base64}

pub data Status : Type 0 where
  idle loading saving saved error : Status

-- A call of `writeFile`, with the text that its contents encode and the file which that text was
-- loaded from.
pub record Write : Type 0 where
  pub path : Text
  pub base64 : Text
  pub text : Text
  pub origin : Option Text

pub record Editor : Type 0 where
  pub target : Option Text
  pub path : Option Text
  pub text : Text
  pub dirty : Bool
  pub status : Status
  -- A key of the catalogue.
  pub message : Option Text
  pub active : Option ℕ
  pub next : ℕ
  pub requests : List (ℕ × Text)
  pub waiting : List Write
  pub writes : List Write
  -- The file that the text was loaded from, and its text on the host as far as responses tell.
  pub origin : Option Text
  pub stored : Option Text

abbrev pub new_editor : Editor
new_editor = record {
  target = none;
  path = none;
  text = [];
  dirty = false;
  status = idle;
  message = none;
  active = none;
  next = 0;
  requests = [];
  waiting = [];
  writes = [];
  origin = none;
  stored = none;
}

abbrev pub is_at : Option Text → Text → Bool
is_at none path = false
is_at (some p) path = text_eq path p

abbrev pub is_active : Option ℕ → ℕ → Bool
is_active none run = false
is_active (some k) run = k == run

unfoldable pub effect : Text → Editor → Editor
unfolding text_eq
effect target s =
    if not (non_empty target) || is_at s.path target then record s { active = none } else record s {
      status = loading;
      message = none;
      active = some s.next;
      next = suc s.next;
      requests = (s.next, target) ∷ s.requests;
    }

-- `openEditor`: setting the target that is there runs no effect.
unfoldable pub open_editor : Text → Editor → Editor
unfolding effect text_eq
open_editor target s =
    if is_at s.target target then s else effect target (record s { target = some target })

abbrev failed : Text → Editor → Editor
failed key s = record s { status = error; message = some key }

-- The path changes, so the effect runs again and returns at once.
abbrev pub shown : Text → Text → Editor → Editor
shown path text s = record s {
  path = some path;
  text = text;
  dirty = false;
  status = idle;
  active = none;
  origin = some path;
  stored = some text;
}

unfoldable pub onto : Text → Option Text → Editor → Editor
onto path none s = failed (codes "editor.loadError") s
onto path (some text) s = shown path text s

-- A text that `atob` refuses throws, which is caught as a failed request is.
unfoldable pub checked : Text → Option Bool → Option Text → Editor → Editor
unfolding onto
checked path none text s = failed (codes "editor.loadError") s
checked path (some false) text s = failed (codes "editor.binary") s
checked path (some true) text s = onto path text s

abbrev pub is_saving : Status → Bool
is_saving saving = true
is_saving _ = false

module _ (c : Codec) where
  -- The contents in base64, or `none` if the request failed.
  unfoldable pub loaded : Text → Option Text → Editor → Editor
  unfolding checked looks_like_text base64_to_text
  loaded path none s = failed (codes "editor.loadError") s
  loaded path (some base64) s = checked path (looks_like_text c base64) (base64_to_text c base64) s

  unfoldable pub arrived : ℕ → Text → Option Text → Editor → Editor
  unfolding loaded
  arrived run path contents s = if is_active s.active run then loaded path contents s else s

  -- The call of `writeFile` that a save makes.
  unfoldable pub write_of : Text → Editor → Write
  unfolding text_to_base64
  write_of path s = record {
    path = path;
    base64 = text_to_base64 c s.text;
    text = s.text;
    origin = s.origin;
  }

  unfoldable pub save_to : Option Text → Editor → Editor
  unfolding write_of
  save_to none s = s
  save_to (some path) s = record s {
    status = saving;
    waiting = s.waiting ++ write_of path s ∷ [];
    writes = write_of path s ∷ s.writes;
  }

  unfoldable pub save : Editor → Editor
  unfolding save_to
  save s = save_to s.path s

  -- The button, where it is enabled.
  unfoldable pub save_clicked : Editor → Editor
  unfolding save
  save_clicked s = if is_some s.path && s.dirty && not (is_saving s.status) then save s else s

abbrev pub idle_if_saved : Status → Status
idle_if_saved saved = idle
idle_if_saved status = status

-- `onChange`; there is an editor once a file is open.
unfoldable pub edited : Text → Editor → Editor
edited v s =
    if is_some s.path
    then record s { text = v; dirty = true; status = idle_if_saved s.status }
    else s

-- The response to a write.
unfoldable pub written : Write → Bool → Editor → Editor
written w true s = record s {
  dirty = false;
  status = saved;
  message = none;
  stored = if is_at s.path w.path then some w.text else s.stored;
}
written w false s = failed (codes "editor.saveError") s

abbrev pub answered : ℕ → Option Write → Bool → Editor → Editor
answered i none ok s = s
answered i (some w) ok s = written w ok (record s { waiting = without i s.waiting })

-- What happens to the editor; the writes are answered in any order.
pub data Event : Type 0 where
  opened : Text → Event
  response : (run : ℕ) (path : Text) → Option Text → Event
  typed : Text → Event
  clicked ctrl_s : Event
  write_answered : (i : ℕ) (ok : Bool) → Event

unfoldable pub step : Codec → Event → Editor → Editor
unfolding open_editor arrived edited save_clicked save written
step c (opened target) s = open_editor target s
step c (response run path contents) s = arrived c run path contents s
step c (typed v) s = edited v s
step c clicked s = save_clicked c s
step c ctrl_s s = save c s
step c (write_answered i ok) s = answered i (get_elem? s.waiting i) ok s
