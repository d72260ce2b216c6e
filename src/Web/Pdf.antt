-- ===== src/Web/Pdf.antt =====
-- packages/web/src/features/desktop/apps/PdfViewerApp.tsx: the loading of a document, its pages and the
-- zoom. pdf.js is outside: a document that it has opened is a number, in the order of opening, and
-- `destroyed` records those whose loading task was destroyed. The scale is in hundredths.
pub mod Documents
pub mod Pages
pub mod Rendering
use desk_ssh.Base.{
  ℕ, suc, ◌+◌, ◌-◌, Bool, true, false, not, ◌&&◌, ◌||◌, List, [], ◌∷◌, Option, none, some,
  if◌then◌else◌, ◌==◌, ltb, leb, ◌≡◌, ◌≤◌,
}
use desk_ssh.Js.Text.{Text, text_eq, non_empty}

pub data Status : Type 0 where
  idle loading ready error : Status

pub record Viewer : Type 0 where
  pub target : Option Text
  pub path : Option Text
  pub status : Status
  pub page_count : ℕ
  pub page : ℕ
  pub scale : ℕ
  -- `docRef`, and the load whose results still count.
  pub doc : Option ℕ
  pub active : Option ℕ
  pub next : ℕ
  -- How many documents were opened, and which were destroyed.
  pub made : ℕ
  pub destroyed : List ℕ
  pub mounted : Bool

abbrev pub new_viewer : Viewer
new_viewer = record {
  target = none;
  path = none;
  status = idle;
  page_count = 0;
  page = 1;
  scale = 120;
  doc = none;
  active = none;
  next = 0;
  made = 0;
  destroyed = [];
  mounted = true;
}

abbrev min_scale : ℕ
min_scale = 50

abbrev max_scale : ℕ
max_scale = 300

abbrev scale_step : ℕ
scale_step = 25

abbrev pub is_at : Option Text → Text → Bool
is_at none path = false
is_at (some p) path = text_eq path p

abbrev pub is_active : Option ℕ → ℕ → Bool
is_active none run = false
is_active (some k) run = k == run

-- The effect for a target; an earlier load no longer counts.
unfoldable pub effect : Text → Viewer → Viewer
unfolding text_eq
effect target s =
    if not (non_empty target) || is_at s.path target
    then record s { active = none }
    else record s { status = loading; active = some s.next; next = suc s.next }

-- `openPdf`: setting the target that is there runs no effect.
unfoldable pub open_pdf : Text → Viewer → Viewer
unfolding effect text_eq
open_pdf target s =
    if is_at s.target target then s else effect target (record s { target = some target })

-- The path is set, so the effect runs again and returns at once.
unfoldable pub failed : Viewer → Viewer
failed s = record s { path = s.target; status = error; active = none }

-- The response to `readFile`; its bytes go to pdf.js, which answers later.
unfoldable pub read_answered : ℕ → (ok : Bool) → Viewer → Viewer
unfolding failed
read_answered run ok s = if is_active s.active run && not ok then failed s else s

-- `docRef.current?.loadingTask.destroy()`.
abbrev pub destroy : Option ℕ → List ℕ → List ℕ
destroy none ks = ks
destroy (some k) ks = k ∷ ks

-- pdf.js has opened a document of so many pages.
unfoldable pub parsed : ℕ → ℕ → Viewer → Viewer
parsed run pages s =
    if is_active s.active run
    then record s {
      destroyed = destroy s.doc s.destroyed;
      doc = some s.made;
      made = suc s.made;
      path = s.target;
      page_count = pages;
      page = 1;
      status = ready;
      active = none;
    }
    else record s { destroyed = s.made ∷ s.destroyed; made = suc s.made }

-- pdf.js has refused the bytes.
unfoldable pub refused : ℕ → Viewer → Viewer
unfolding failed
refused run s = if is_active s.active run then failed s else s

abbrev pub is_ready : Status → Bool
is_ready ready = true
is_ready _ = false

-- The four buttons, where they are enabled.
unfoldable pub prev_page : Viewer → Viewer
prev_page s =
    if is_ready s.status && ltb 1 s.page
    then record s { page = if ltb (s.page - 1) 1 then 1 else s.page - 1 }
    else s

unfoldable pub next_page : Viewer → Viewer
next_page s =
    if is_ready s.status && ltb s.page s.page_count
    then record s { page = if ltb s.page_count (s.page + 1) then s.page_count else s.page + 1 }
    else s

unfoldable pub zoom_out : Viewer → Viewer
zoom_out s =
    if is_ready s.status && not (leb s.scale min_scale)
    then record s {
      scale = if ltb (s.scale - scale_step) min_scale then min_scale else s.scale - scale_step;
    }
    else s

unfoldable pub zoom_in : Viewer → Viewer
zoom_in s =
    if is_ready s.status && not (leb max_scale s.scale)
    then record s {
      scale = if ltb max_scale (s.scale + scale_step) then max_scale else s.scale + scale_step;
    }
    else s

-- The window is closed: the load no longer counts and the document is destroyed.
unfoldable pub unmount : Viewer → Viewer
unmount s = record s { active = none; destroyed = destroy s.doc s.destroyed; mounted = false }

-- What happens to the viewer.
pub data Event : Type 0 where
  opened : Text → Event
  arrived : (run : ℕ) (ok : Bool) → Event
  document : (run pages : ℕ) → Event
  unreadable : (run : ℕ) → Event
  prev_clicked next_clicked out_clicked in_clicked closed : Event

unfoldable pub step : Event → Viewer → Viewer
unfolding open_pdf read_answered parsed refused prev_page next_page zoom_out zoom_in unmount
step (opened target) s = open_pdf target s
step (arrived run ok) s = read_answered run ok s
step (document run pages) s = parsed run pages s
step (unreadable run) s = refused run s
step prev_clicked s = prev_page s
step next_clicked s = next_page s
step out_clicked s = zoom_out s
step in_clicked s = zoom_in s
step closed s = unmount s

-- A document has a page, and nothing is clicked or opened once the window is closed.
abbrev pub IsOffered : Event → Viewer → Type 0
IsOffered (opened target) s = s.mounted ≡ true
IsOffered (arrived run ok) s = Unit
IsOffered (document run pages) s = 1 ≤ pages
IsOffered (unreadable run) s = Unit
IsOffered prev_clicked s = s.mounted ≡ true
IsOffered next_clicked s = s.mounted ≡ true
IsOffered out_clicked s = s.mounted ≡ true
IsOffered in_clicked s = s.mounted ≡ true
IsOffered closed s = s.mounted ≡ true

pub data Reached : Viewer → Type 0 where
  start : {s : Viewer} → s ≡ new_viewer → Reached s
  next_event : {s t : Viewer} (e : Event) → Reached s → IsOffered e s → t ≡ step e s → Reached t
