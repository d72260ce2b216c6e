-- ===== src/Web/Windows/Pointer.antt =====
-- packages/web/src/features/desktop/Window.tsx: dragging and resizing a window, and the bounds that
-- this keeps.
use desk_ssh.Base.{
  ℕ, ◌≤◌, List, [], ◌∷◌, Option, none, some, find, if◌then◌else◌, arith, All, All-append, All-keep,
  Bool-cases, Option-cases, inl, inr,
}
use desk_ssh.Js.Text.{Text}
use desk_ssh.Js.Number.{ℤ, pos, negsuc, plus, minus, at_least}
use desk_ssh.Web.Windows.{
  AppDefinition, WindowState, Desktop, empty, focus, new_window, open_app, close, minimize,
  toggle_maximize, move, resize, has_app, is_other, width_of, height_of,
}
use desk_ssh.Web.Windows.Invariant.{All-update}

abbrev min_w : ℕ
min_w = 320

abbrev min_h : ℕ
min_h = 200

-- Where the pointer went down, and the position or the size that the window had then.
pub record Grip : Type 0 where
  pub px : ℤ
  pub py : ℤ
  pub first : ℤ
  pub second : ℤ

-- `startDrag` at the pointer's place: a maximized window is not dragged.
unfoldable pub start_drag : ℤ → ℤ → WindowState → Desktop → Option Grip × Desktop
unfolding focus
start_drag x y win s =
    if win.maximized
    then (none, s)
    else (some (record { px = x; py = y; first = win.x; second = win.y }), focus win.id s)

unfoldable pub start_resize : ℤ → ℤ → WindowState → Desktop → Option Grip × Desktop
unfolding focus
start_resize x y win s =
    (some (record { px = x; py = y; first = win.w; second = win.h }), focus win.id s)

-- Where a pull from the grip to a place takes a value, but not below a bound.
abbrev pulled : ℕ → ℤ → ℤ → ℤ → ℤ
pulled low start from to = at_least low (plus start (minus to from))

unfoldable pub on_drag_move : Text → Option Grip → ℤ → ℤ → Desktop → Desktop
unfolding at_least plus minus move
on_drag_move id none x y s = s
on_drag_move id (some g) x y s = move id (pulled 0 g.first g.px x) (pulled 0 g.second g.py y) s

unfoldable pub on_resize_move : Text → Option Grip → ℤ → ℤ → Desktop → Desktop
unfolding at_least plus minus resize
on_resize_move id none x y s = s
on_resize_move id (some g) x y s =
    resize id (pulled min_w g.first g.px x) (pulled min_h g.second g.py y) s

-- What the user does to the desktop and its windows.
pub data Action : Type 0 where
  launched : AppDefinition → Action
  pressed closed hidden zoomed : (id : Text) → Action
  grabbed stretched : (x y : ℤ) → WindowState → Action
  dragged resized : (id : Text) → Option Grip → (x y : ℤ) → Action

unfoldable pub act : Action → Desktop → Desktop
unfolding open_app focus close minimize toggle_maximize start_drag start_resize on_drag_move
    on_resize_move
act (launched app) s = open_app app s
act (pressed id) s = focus id s
act (closed id) s = close id s
act (hidden id) s = minimize id s
act (zoomed id) s = toggle_maximize id s
act (grabbed x y win) s = (start_drag x y win s).1
act (stretched x y win) s = (start_resize x y win s).1
act (dragged id g x y) s = on_drag_move id g x y s
act (resized id g x y) s = on_resize_move id g x y s

abbrev pub act_all : List Action → Desktop → Desktop
act_all [] s = s
act_all (a ∷ rest) s = act_all rest (act a s)

abbrev pub AtLeast : ℕ → ℤ → Type 0
AtLeast low (pos n) = low ≤ n
AtLeast low (negsuc n) = ⊥

-- The title bar is on the desktop, and the window is not smaller than the least size.
pub record IsPlaced (w : WindowState) : Type 0 where
  pub left : AtLeast 0 w.x
  pub top : AtLeast 0 w.y
  pub wide : AtLeast min_w w.w
  pub high : AtLeast min_h w.h

-- An app asks for a size that is not too small, if it asks for one.
abbrev pub IsRoomy : Action → Type 0
IsRoomy (launched app) =
    AtLeast min_w (width_of app.default_size) × AtLeast min_h (height_of app.default_size)
IsRoomy other = Unit

at_least-AtLeast : (low : ℕ) (a : ℤ) → AtLeast low (at_least low a)
unfolding at_least
at_least-AtLeast low (pos n) = ground arith
at_least-AtLeast low (negsuc n) = omega arith

abbrev AllPlaced : Desktop → Type 0
AllPlaced s = All IsPlaced s.windows

focus-AllPlaced : (id : Text) (s : Desktop) → AllPlaced s → AllPlaced (focus id s)
unfolding focus
focus-AllPlaced id s h =
    All-update IsPlaced id _ s.windows
      (λ w p. record { left = p.left; top = p.top; wide = p.wide; high = p.high }) h

open_app-AllPlaced :
    (app : AppDefinition) (s : Desktop)
    → IsRoomy (launched app)
    → AllPlaced s
    → AllPlaced (open_app app s)
unfolding open_app new_window
open_app-AllPlaced app s (w, k) h = elim (Option-cases (find (has_app app.id) s.windows)) [
  | inl e ↦
      rw (e, open_app)
        (All-append IsPlaced s.windows _ h
          (record { left = omega arith; top = omega arith; wide = w; high = k }, tt))
  | inr (v, e) ↦
      rw (e, open_app)
        (All-update IsPlaced v.id _ s.windows
          (λ u p. record { left = p.left; top = p.top; wide = p.wide; high = p.high }) h)
]

act-AllPlaced : (a : Action) (s : Desktop) → IsRoomy a → AllPlaced s → AllPlaced (act a s)
unfolding act start_drag start_resize on_drag_move on_resize_move close minimize toggle_maximize
    move resize
act-AllPlaced (launched app) s r h = open_app-AllPlaced app s r h
act-AllPlaced (pressed id) s r h = focus-AllPlaced id s h
act-AllPlaced (closed id) s r h = All-keep IsPlaced (is_other id) s.windows h
act-AllPlaced (hidden id) s r h =
    All-update IsPlaced id _ s.windows
      (λ w p. record { left = p.left; top = p.top; wide = p.wide; high = p.high }) h
act-AllPlaced (zoomed id) s r h =
    All-update IsPlaced id _ s.windows
      (λ w p. record { left = p.left; top = p.top; wide = p.wide; high = p.high }) h
act-AllPlaced (grabbed x y win) s r h = elim (Bool-cases win.maximized) [
  | inl e ↦ rw e h
  | inr e ↦ rw e (focus-AllPlaced win.id s h)
]
act-AllPlaced (stretched x y win) s r h = focus-AllPlaced win.id s h
act-AllPlaced (dragged id none x y) s r h = h
act-AllPlaced (dragged id (some g) x y) s r h =
    All-update IsPlaced id _ s.windows
      (λ w p. record {
        left = at_least-AtLeast 0 _;
        top = at_least-AtLeast 0 _;
        wide = p.wide;
        high = p.high;
      })
      h
act-AllPlaced (resized id none x y) s r h = h
act-AllPlaced (resized id (some g) x y) s r h =
    All-update IsPlaced id _ s.windows
      (λ w p. record {
        left = p.left;
        top = p.top;
        wide = at_least-AtLeast min_w _;
        high = at_least-AtLeast min_h _;
      })
      h

act_all-AllPlaced :
    (actions : List Action) (s : Desktop)
    → All IsRoomy actions
    → AllPlaced s
    → AllPlaced (act_all actions s)
act_all-AllPlaced [] s r h = h
act_all-AllPlaced (a ∷ rest) s (r, rs) h =
    act_all-AllPlaced rest (act a s) rs (act-AllPlaced a s r h)

-- Whatever the user does to an empty desktop and its windows, to drag and to resize with any grip to
-- any place included: no window gets a negative position, and none becomes smaller than 320 by 200,
-- if no app asks for less.
pub act_all-IsPlaced :
    (actions : List Action) → All IsRoomy actions → All IsPlaced (act_all actions empty).windows
act_all-IsPlaced actions r = act_all-AllPlaced actions empty r tt
