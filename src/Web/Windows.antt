-- ===== src/Web/Windows.antt =====
-- packages/web/src/features/desktop/useWindows.ts and Desktop.tsx: the window manager. Each operation
-- runs on the state that the last one left; `seq` is the module's counter `windowSeq`.
pub mod Stacking
pub mod Invariant
pub mod Active
pub mod Pointer
use desk_ssh.Base.{
  ℕ, suc, ◌+◌, ◌*◌, ◌%◌, List, [], ◌∷◌, ◌++◌, map, Bool, true, false, not, Option, none, some, keep,
  find, leb, if◌then◌else◌,
}
use desk_ssh.Js.Text.{Text, codes, text_eq}
use desk_ssh.Js.Number.{ℤ, pos, show}

pub record AppDefinition : Type 0 where
  pub id : Text
  pub title : Text
  pub default_size : Option (ℤ × ℤ)

pub record WindowState : Type 0 where
  pub id : Text
  pub app_id : Text
  pub title : Text
  pub x : ℤ
  pub y : ℤ
  pub w : ℤ
  pub h : ℤ
  pub z : ℕ
  pub minimized : Bool
  pub maximized : Bool

pub record Desktop : Type 0 where
  pub windows : List WindowState
  pub top_z : ℕ
  pub seq : ℕ

abbrev pub empty : Desktop
empty = record { windows = []; top_z = 1; seq = 0 }

-- `ws.map((w) => (w.id === id ? f(w) : w))`.
unfoldable pub update : Text → (WindowState → WindowState) → List WindowState → List WindowState
update id f [] = []
update id f (w ∷ ws) = (if text_eq w.id id then f w else w) ∷ update id f ws

abbrev pub raise : ℕ → WindowState → WindowState
raise z w = record w { z = z; minimized = false }

unfoldable pub focus : Text → Desktop → Desktop
focus id s =
    let next = s.top_z + 1 in record s { windows = update id (raise next) s.windows; top_z = next }

abbrev pub has_app : Text → WindowState → Bool
has_app app w = text_eq w.app_id app

abbrev pub width_of : Option (ℤ × ℤ) → ℤ
width_of none = pos 560
width_of (some (w, h)) = w

abbrev pub height_of : Option (ℤ × ℤ) → ℤ
height_of none = pos 420
height_of (some (w, h)) = h

-- The id of the n-th window.
abbrev pub window_id : ℕ → Text
window_id n = codes "win-" ++ show n

-- The window that a launch opens.
unfoldable pub new_window : AppDefinition → ℕ → ℕ → WindowState
new_window app seq z =
    let offset = seq % 6 * 28 in
    record {
      id = window_id (seq + 1);
      app_id = app.id;
      title = app.title;
      x = pos (80 + offset);
      y = pos (64 + offset);
      w = width_of app.default_size;
      h = height_of app.default_size;
      z = z;
      minimized = false;
      maximized = false;
    }

unfoldable pub open_app : AppDefinition → Desktop → Desktop
open_app app s =
    let next = s.top_z + 1 in
    elim (find (has_app app.id) s.windows) [
      | some existing ↦ record s {
        windows = update existing.id (raise next) s.windows;
        top_z = next;
      }
      | none ↦ record {
        windows = s.windows ++ new_window app s.seq next ∷ [];
        top_z = next;
        seq = s.seq + 1;
      }
    ]

abbrev pub is_other : Text → WindowState → Bool
is_other id w = not (text_eq w.id id)

unfoldable pub close : Text → Desktop → Desktop
close id s = record s { windows = keep (is_other id) s.windows }

unfoldable pub minimize : Text → Desktop → Desktop
minimize id s = record s {
  windows = update id (λ (w : WindowState). record w { minimized = true }) s.windows;
}

unfoldable pub toggle_maximize : Text → Desktop → Desktop
toggle_maximize id s = record s {
  windows = update id (λ (w : WindowState). record w { maximized = not w.maximized }) s.windows;
}

unfoldable pub move : Text → ℤ → ℤ → Desktop → Desktop
move id x y s = record s {
  windows = update id (λ (w : WindowState). record w { x = x; y = y }) s.windows;
}

unfoldable pub resize : Text → ℤ → ℤ → Desktop → Desktop
resize id w h s = record s {
  windows = update id (λ (v : WindowState). record v { w = w; h = h }) s.windows;
}

-- `visible.reduce((a, b) => (a.z >= b.z ? a : b))` from a first window.
unfoldable pub topmost : WindowState → List WindowState → WindowState
topmost a [] = a
topmost a (b ∷ ws) = topmost (if leb b.z a.z then a else b) ws

abbrev pub is_visible : WindowState → Bool
is_visible w = not w.minimized

unfoldable pub active_of : List WindowState → Option WindowState
active_of [] = none
active_of (w ∷ ws) = some (topmost w ws)

-- The active window of the desktop.
unfoldable pub active : Desktop → Option WindowState
active s = active_of (keep is_visible s.windows)
