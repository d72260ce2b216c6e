-- ===== src/Tests/Viewer.antt =====
-- Concrete inputs for the image viewer of packages/web.
use desk_ssh.Base.{some, inl, ◌≡◌, refl}
use desk_ssh.Js.Map
use desk_ssh.Js.Text.{codes, text_eq, last_index_of, to_lower_case, lower_unit, fold_unit}
use desk_ssh.Web.Mime.{image_mime_for, property}
use desk_ssh.Web.Viewer.{Viewer, new_viewer, ready, open_image, effect, answered}
use desk_ssh.Web.Viewer.Showing.{step, opened, arrived, Reached, Reached-IsShown}

abbrev waiting : Viewer
waiting = step (opened (codes "/b.png")) (step (opened (codes "/a.png")) new_viewer)

abbrev filled : Viewer
filled = step (arrived 1 (codes "/b.png") (some (codes "AA=="))) waiting

waiting-Reached : Reached waiting
waiting-Reached =
    Reached.next_event (opened (codes "/b.png"))
      (Reached.next_event (opened (codes "/a.png")) (Reached.start refl) (λ e. cc) refl) (λ e. cc)
      refl

filled-Reached : Reached filled
unfolding step open_image effect image_mime_for property Map.get text_eq last_index_of to_lower_case
    lower_unit fold_unit
filled-Reached =
    Reached.next_event (arrived 1 (codes "/b.png") (some (codes "AA=="))) waiting-Reached
      (inl (refl, refl)) refl

filled_ready : filled.status ≡ ready
unfolding step open_image effect answered image_mime_for property Map.get text_eq last_index_of
    to_lower_case lower_unit fold_unit
filled_ready = refl

Reached-IsShown_example : (filled.path ≡ filled.target) × (filled.origin ≡ filled.target)
Reached-IsShown_example = Reached-IsShown filled filled-Reached filled_ready
