-- ===== src/Web/Files/Loading.antt =====
-- packages/web/src/features/desktop/apps/FilesApp.tsx: the listing of the current directory. The effect
-- runs again when the path or the counter of reloads changes; each run is numbered, and `requests`
-- records what each asked for. `origin` is the directory that the entries were listed for.
use desk_ssh.Base.{
  ℕ, suc, ◌≤◌, Bool, true, false, List, [], ◌∷◌, Option, none, some, if◌then◌else◌, ◌==◌, ◌≡◌, ◌≢◌,
  ◌⊎◌, inl, inr, refl, sym, ap, ◌∙◌, arith, All, All-imp, Bool-cases, ==_iff, true-ne-false,
  ==_refl,
}
use mathlib.Core.Path.{subst}
use desk_ssh.Js.Text.{Text, text_eq}
use desk_ssh.Js.Text.Equality.{text_eq_ne}
use desk_ssh.Core.Types.{FileEntry}

pub record Loader : Type 0 where
  pub path : Text
  pub effect : ℕ
  pub requests : List (ℕ × Text)
  pub entries : List FileEntry
  pub origin : Option Text
  -- The last run of the effect brought entries.
  pub loaded : Bool
  pub error : Option Text

-- The first run asks for the home directory.
unfoldable pub new_loader : Text → Loader
new_loader home = record {
  path = home;
  effect = 0;
  requests = (0, home) ∷ [];
  entries = [];
  origin = none;
  loaded = false;
  error = none;
}

abbrev rerun : Text → Loader → Loader
rerun path s = record s {
  path = path;
  effect = suc s.effect;
  requests = (suc s.effect, path) ∷ s.requests;
  loaded = false;
  error = none;
}

-- What `listDir` gives: entries, or the text of the error that is shown.
pub data Answer : Type 0 where
  listed : List FileEntry → Answer
  unlisted : (message : Text) → Answer

pub data Event : Type 0 where
  went_to : (path : Text) → Event
  reloaded : Event
  -- The response to a run of the effect, with the path that it asked for.
  answered : (run : ℕ) (path : Text) → Answer → Event

abbrev answer : Text → Answer → Loader → Loader
answer path (listed entries) s = record s { entries = entries; origin = some path; loaded = true }
answer path (unlisted message) s = record s { error = some message }

-- Setting the path to what it is runs no effect; a response to an earlier run is dropped.
unfoldable pub step : Event → Loader → Loader
unfolding text_eq
step (went_to path) s = if text_eq path s.path then s else rerun path s
step reloaded s = rerun s.path s
step (answered run path result) s = if run == s.effect then answer path result s else s

abbrev pub Asked : ℕ → Text → List (ℕ × Text) → Type 0
Asked run path [] = ⊥
Asked run path ((k, p) ∷ rest) = ((run ≡ k) × (path ≡ p)) ⊎ Asked run path rest

abbrev pub IsOffered : Event → Loader → Type 0
IsOffered (answered run path result) s = Asked run path s.requests
IsOffered other s = Unit

pub data Reached (home : Text) : Loader → Type 0 where
  start : {s : Loader} → s ≡ new_loader home → Reached home s
  next_event :
      {s t : Loader} (e : Event) → Reached home s → IsOffered e s → t ≡ step e s → Reached home t

-- The last run asked for the path that is shown.
abbrev IsCurrent : ℕ → Text → ℕ × Text → Type 0
IsCurrent effect path (k, p) = (k ≤ effect) × (k ≡ effect → p ≡ path)

pub record IsConsistent (s : Loader) : Type 0 where
  pub current : All (IsCurrent s.effect s.path) s.requests
  pub matching : s.loaded ≡ true → s.origin ≡ some s.path

Asked-IsCurrent :
    (effect : ℕ) (path p : Text) (requests : List (ℕ × Text))
    → All (IsCurrent effect path) requests
    → Asked effect p requests
    → p ≡ path
Asked-IsCurrent effect path p [] h a = absurd a
Asked-IsCurrent effect path p ((k, q) ∷ rest) ((l, c), h) (inl (e, f)) = f ∙ c (sym e)
Asked-IsCurrent effect path p ((k, q) ∷ rest) (c, h) (inr a) =
    Asked-IsCurrent effect path p rest h a

rerun-IsConsistent : (path : Text) (s : Loader) → IsConsistent s → IsConsistent (rerun path s)
rerun-IsConsistent path s h = record {
  current = (
    (omega arith, λ e. refl),
    All-imp _ _ (λ (k, p) (l, c). (omega arith, λ e. absurd (omega arith))) s.requests h.current,
  );
  matching = λ e. absurd (true-ne-false (sym e));
}

answer-IsConsistent :
    (path : Text) (result : Answer) (s : Loader)
    → path ≡ s.path
    → IsConsistent s
    → IsConsistent (answer path result s)
answer-IsConsistent path (listed entries) s e h = record {
  current = h.current;
  matching = λ l. ap some e;
}
answer-IsConsistent path (unlisted message) s e h = record {
  current = h.current;
  matching = h.matching;
}

step-IsConsistent :
    (e : Event) (s : Loader) → IsOffered e s → IsConsistent s → IsConsistent (step e s)
unfolding step
step-IsConsistent (went_to path) s o h = elim (Bool-cases (text_eq path s.path)) [
  | inl e ↦ rw e h
  | inr e ↦ rw e (rerun-IsConsistent path s h)
]
step-IsConsistent reloaded s o h = rerun-IsConsistent s.path s h
step-IsConsistent (answered run path result) s o h = elim (Bool-cases (run == s.effect)) [
  | inl e ↦ rw e (
      answer-IsConsistent path result s
        (Asked-IsCurrent s.effect s.path path s.requests h.current
          (subst (λ k. Asked k path s.requests) ((==_iff run s.effect).0 e) o))
        h)
  | inr e ↦ rw e h
]

new_loader-IsConsistent : (home : Text) → IsConsistent (new_loader home)
unfolding new_loader
new_loader-IsConsistent home = record {
  current = ((omega arith, λ e. refl), tt);
  matching = λ e. absurd (true-ne-false (sym e));
}

Reached-IsConsistent : (home : Text) (s : Loader) → Reached home s → IsConsistent s
Reached-IsConsistent home s (Reached.start e) =
    subst IsConsistent (sym e) (new_loader-IsConsistent home)
Reached-IsConsistent home s (Reached.next_event {s = p} e r o q) =
    subst IsConsistent (sym q) (step-IsConsistent e p o (Reached-IsConsistent home p r))

-- In every state that is reached, responses in any order included: once the last listing has brought
-- entries, the entries shown are those of the directory that is shown.
pub Reached-origin :
    (home : Text) (s : Loader) → Reached home s → s.loaded ≡ true → s.origin ≡ some s.path
Reached-origin home s r l = (Reached-IsConsistent home s r).matching l

-- If the user goes to another directory and it cannot be listed, the entries that were shown stay,
-- under the new path.
pub unlisted_keeps :
    (s : Loader) (path message : Text)
    → path ≢ s.path
    → let t = step (answered (suc s.effect) path (unlisted message)) (step (went_to path) s) in
      (t.path ≡ path)
      × ((t.entries ≡ s.entries) × ((t.origin ≡ s.origin) × (t.error ≡ some message)))
unfolding step
unlisted_keeps s path message n =
    rw (text_eq_ne path s.path n, ==_refl (suc s.effect)) (refl, (refl, (refl, refl)))
