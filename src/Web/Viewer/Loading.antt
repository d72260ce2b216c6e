-- ===== src/Web/Viewer/Loading.antt =====
-- packages/web/src/features/desktop/apps/ImageViewerApp.tsx: when an image is shown, and when none is.
use desk_ssh.Base.{ℕ, List, [], ◌∷◌, Option, none, some, ◌≡◌, ◌≢◌, refl, sym, arith, ap, ◌∙◌}
use mathlib.Core.Path.{subst}
use desk_ssh.Js.Text.{Text}
use desk_ssh.Js.Text.Equality.{text_eq_refl, text_eq_ne}
use desk_ssh.Web.Mime.{Property, image_mime_for}
use desk_ssh.Web.Viewer.{Viewer, loading, effect, open_image, answered}

-- Responses, one after the other, in any order.
abbrev pub answered_all : List (ℕ × (Text × Option Text)) → Viewer → Viewer
answered_all [] s = s
answered_all ((run, (path, contents)) ∷ rest) s = answered_all rest (answered run path contents s)

-- A response to a viewer that waits for none changes nothing.
answered_idle :
    (run : ℕ) (path : Text) (contents : Option Text) (s : Viewer)
    → s.active ≡ none
    → answered run path contents s ≡ s
unfolding answered
answered_idle run path contents s h = ground arith

answered_all_idle :
    (answers : List (ℕ × (Text × Option Text))) (s : Viewer)
    → s.active ≡ none
    → answered_all answers s ≡ s
answered_all_idle [] s h = refl
answered_all_idle ((run, (path, contents)) ∷ rest) s h =
    subst (λ t. answered_all rest t ≡ s) (sym (answered_idle run path contents s h))
      (answered_all_idle rest s h)

module _ (s : Viewer) (first second : Text) (mime : Property) (p : s.path ≡ some first)
    (t : s.target ≡ some first) (n : first ≢ second) (b : second ≢ [])
    (m : image_mime_for second ≡ some mime) where
  reopened_status : (open_image first (open_image second s)).status ≡ loading
  unfolding open_image effect
  reopened_status = ground (
    arith,
    text_eq_ne first second n,
    text_eq_ne second first (λ e. n (sym e)),
    text_eq_refl first,
    m,
  )

  reopened_active : (open_image first (open_image second s)).active ≡ none
  unfolding open_image effect
  reopened_active = ground (
    arith,
    text_eq_ne first second n,
    text_eq_ne second first (λ e. n (sym e)),
    text_eq_refl first,
    m,
  )

  -- If an image is shown and the user opens another and then the first again, before the other has
  -- arrived, then the viewer says that it is loading, whatever arrives then.
  pub reopened_loading :
      (answers : List (ℕ × (Text × Option Text)))
      → (answered_all answers (open_image first (open_image second s))).status ≡ loading
  reopened_loading answers =
      ap (λ (v : Viewer). v.status)
        (answered_all_idle answers (open_image first (open_image second s)) reopened_active)
      ∙ reopened_status
