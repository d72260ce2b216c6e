-- ===== src/Web/Viewer/Showing.antt =====
-- packages/web/src/features/desktop/apps/ImageViewerApp.tsx: the image that is shown is the one that
-- was asked for last.
use desk_ssh.Base.{
  ℕ, true, List, [], ◌∷◌, Option, none, some, ◌≡◌, ◌≢◌, refl, sym, arith, Bool-cases, inl, inr, All,
  All-imp, ap, ◌∙◌, ◌<◌, ◌⊎◌, some_inj, none-ne-some, ==_iff,
}
use mathlib.Core.Path.{subst}
use desk_ssh.Js.Text.{Text}
use desk_ssh.Js.Text.Equality.{text_eq→eq}
use desk_ssh.Web.Mime.{Property, image_mime_for}
use desk_ssh.Web.Viewer.{
  Viewer, ready, new_viewer, effect, open_image, answered, toggle_size, shown, begun, is_at,
  mime_of, is_active, failed,
}

-- What happens to the viewer.
pub data Event : Type 0 where
  opened : Text → Event
  arrived : (run : ℕ) (path : Text) → Option Text → Event
  toggled : Event

unfoldable pub step : Event → Viewer → Viewer
unfolding open_image answered toggle_size
step (opened target) s = open_image target s
step (arrived run path contents) s = answered run path contents s
step toggled s = toggle_size s

-- The request asked for the path.
abbrev pub Asked : ℕ → Text → List (ℕ × Text) → Type 0
Asked run path [] = ⊥
Asked run path ((k, p) ∷ rest) = ((run ≡ k) × (path ≡ p)) ⊎ Asked run path rest

-- No empty path is opened, and a response answers a request.
abbrev pub IsOffered : Event → Viewer → Type 0
IsOffered (opened target) s = target ≢ []
IsOffered (arrived run path contents) s = Asked run path s.requests
IsOffered toggled s = Unit

pub data Reached : Viewer → Type 0 where
  start : {s : Viewer} → s ≡ new_viewer → Reached s
  next_event : {s t : Viewer} (e : Event) → Reached s → IsOffered e s → t ≡ step e s → Reached t

abbrev IsOld : ℕ → ℕ × Text → Type 0
IsOld n (k, p) = k < n

-- If this is the request, then it asked for the target.
abbrev IsFor : Option Text → ℕ → ℕ × Text → Type 0
IsFor target run (k, p) = k ≡ run → target ≡ some p

pub record IsShown (s : Viewer) : Type 0 where
  pub old : All (IsOld s.next) s.requests
  pub current : (k : ℕ) → s.active ≡ some k → All (IsFor s.target k) s.requests
  pub at_target : s.status ≡ ready → s.path ≡ s.target
  pub contents : s.status ≡ ready → s.origin ≡ s.path

failed-IsShown : (s : Viewer) → All (IsOld s.next) s.requests → IsShown (failed s)
failed-IsShown s h = record {
  old = h;
  current = λ k e. absurd (none-ne-some e);
  at_target = λ e. refl;
  contents = λ e. cc;
}

begun-IsShown :
    (target : Text) (mime : Option Property) (s : Viewer)
    → All (IsOld s.next) s.requests
    → IsShown (begun target mime (record s { target = some target }))
begun-IsShown target none s h = failed-IsShown (record s { target = some target }) h
begun-IsShown target (some mime) s h = record {
  old = (omega arith, All-imp _ _ (λ (k, p) l. omega arith) s.requests h);
  current = λ k e.
      (λ q. refl, All-imp _ _ (λ (j, p) l q. absurd (omega (arith, some_inj e))) s.requests h);
  at_target = λ e. cc;
  contents = λ e. cc;
}

shown-IsShown :
    (path : Text) (mime : Option Property) (contents : Option Text) (s : Viewer)
    → s.target ≡ some path
    → All (IsOld s.next) s.requests
    → IsShown (shown path mime contents s)
shown-IsShown path none contents s e h = failed-IsShown s h
shown-IsShown path (some mime) none s e h = failed-IsShown s h
shown-IsShown path (some mime) (some base64) s e h = record {
  old = h;
  current = λ k q. absurd (none-ne-some q);
  at_target = λ q. refl;
  contents = λ q. sym e;
}

effect-IsShown :
    (target : Text) (s : Viewer)
    → target ≢ []
    → IsShown s
    → IsShown (effect target (record s { target = some target }))
unfolding effect
effect-IsShown [] s n h = absurd (n refl)
effect-IsShown (c ∷ t) s n h = elim (Bool-cases (is_at s.path (c ∷ t))) [
  | inl e ↦ rw e (record {
    old = h.old;
    current = λ k q. absurd (none-ne-some q);
    at_target = λ r. at_path s.path e;
    contents = h.contents;
  })
  | inr e ↦ rw e (begun-IsShown (c ∷ t) (image_mime_for (c ∷ t)) s h.old)
]
  where
    at_path : (o : Option Text) → is_at o (c ∷ t) ≡ true → o ≡ some (c ∷ t)
    at_path none e = cc
    at_path (some p) e = ap some (sym (text_eq→eq (c ∷ t) p e))

Asked-IsFor :
    (target : Option Text) (run : ℕ) (path : Text) (requests : List (ℕ × Text))
    → All (IsFor target run) requests
    → Asked run path requests
    → target ≡ some path
Asked-IsFor target run path [] h a = absurd a
Asked-IsFor target run path ((k, p) ∷ rest) (f, h) (inl (e, q)) = f (sym e) ∙ ap some (sym q)
Asked-IsFor target run path ((k, p) ∷ rest) (f, h) (inr a) = Asked-IsFor target run path rest h a

active_is : (o : Option ℕ) (run : ℕ) → is_active o run ≡ true → o ≡ some run
active_is none run h = cc
active_is (some k) run h = ap some ((==_iff k run).0 h)

step-IsShown : (e : Event) (s : Viewer) → IsOffered e s → IsShown s → IsShown (step e s)
unfolding step open_image answered toggle_size
step-IsShown (opened target) s n h = elim (Bool-cases (is_at s.target target)) [
  | inl e ↦ rw e h
  | inr e ↦ rw e (effect-IsShown target s n h)
]
step-IsShown (arrived run path contents) s a h = elim (Bool-cases (is_active s.active run)) [
  | inl e ↦ rw e (
      shown-IsShown path (mime_of s.target) contents s
        (Asked-IsFor s.target run path s.requests (h.current run (active_is s.active run e)) a)
        h.old)
  | inr e ↦ rw e h
]
step-IsShown toggled s n h = record {
  old = h.old;
  current = h.current;
  at_target = h.at_target;
  contents = h.contents;
}

reached : (s : Viewer) → Reached s → IsShown s
reached s (Reached.start e) =
    subst IsShown (sym e)
      (record { old = tt; current = λ k q. tt; at_target = λ e. cc; contents = λ e. cc })
reached s (Reached.next_event {s = p} e r o q) =
    subst IsShown (sym q) (step-IsShown e p o (reached p r))

-- In every state that is reached, responses in any order included: when the viewer is ready, it is at
-- the path that was opened last, and the contents that it shows are the response to a request for
-- this path. No empty path is opened.
pub Reached-IsShown :
    (s : Viewer) → Reached s → s.status ≡ ready → (s.path ≡ s.target) × (s.origin ≡ s.target)
Reached-IsShown s r e = let h = reached s r in (h.at_target e, h.contents e ∙ h.at_target e)
