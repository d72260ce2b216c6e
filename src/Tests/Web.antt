-- ===== src/Tests/Web.antt =====
-- Concrete inputs for packages/web.
use desk_ssh.Base.{List, [], ◌∷◌, none, some, ◌≡◌, refl, find}
use desk_ssh.Js.Text.{codes, text_eq, last_index_of, join}
use desk_ssh.Js.Number.{show, to_radix, digits}
use desk_ssh.Js.Regex.{strip_slashes}
use desk_ssh.Web.Windows.{
  AppDefinition, WindowState, Desktop, empty, open_app, window_id, new_window, update, minimize,
}
use desk_ssh.Web.Windows.Stacking.{has_id}
use desk_ssh.Web.Windows.Invariant.{
  Gesture, launch, hide, perform, perform_all, IsDesktop, reached-IsDesktop,
}
use desk_ssh.Web.Windows.Active.{launched}
use desk_ssh.Web.Paths.{join_path, parent_path}
use desk_ssh.Web.Format.{uptime_parts, pick_unit, to_fixed_1, format_bytes, format_uptime}

abbrev files : AppDefinition
files = record { id = codes "files"; title = codes "Files"; default_size = none }

abbrev monitor : AppDefinition
monitor = record { id = codes "monitor"; title = codes "Monitor"; default_size = none }

-- Two windows, the second of which is minimized.
abbrev gestures : List Gesture
gestures = launch files ∷ launch monitor ∷ hide (window_id 2) ∷ []

abbrev two_windows : Desktop
two_windows = perform_all gestures empty

reached-IsDesktop_example : IsDesktop two_windows
reached-IsDesktop_example = reached-IsDesktop gestures

abbrev first_window : WindowState
first_window = launched files empty

find_first : find (has_id (window_id 1)) two_windows.windows ≡ some first_window
unfolding perform_all perform open_app new_window update minimize text_eq show to_radix digits
find_first = refl

parent_of_joined : parent_path (join_path (codes "/srv//") (codes "a.txt")) ≡ codes "/srv"
unfolding parent_path join_path text_eq strip_slashes last_index_of
parent_of_joined = refl

format_uptime_run : format_uptime 93784 ≡ codes "1d 2h 3m"
unfolding format_uptime uptime_parts join show to_radix digits
format_uptime_run = refl

-- The size is rounded after its unit is chosen.
format_bytes_run : format_bytes 1048575 ≡ codes "1024.0 KB"
unfolding format_bytes pick_unit to_fixed_1 show to_radix digits
format_bytes_run = refl
