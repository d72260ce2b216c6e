-- ===== src/Web/Stallman/Tracking.antt =====
-- packages/web/src/features/desktop/apps/StallmanApp.tsx: whether the mark of unsaved changes tells the
-- truth, and what is lost without it.
use desk_ssh.Base.{
  ℕ, Bool, true, false, [], Option, none, some, ◌≡◌, refl, sym, arith, Bool-cases, inl, inr, All,
  get_elem?, is_some, ◌&&◌, not, All-append, All-get_elem?, All-without, Option-cases,
  true-ne-false,
}
use mathlib.Core.Path.{subst}
use desk_ssh.Js.Text.{Text}
use desk_ssh.Js.Text.Equality.{text_eq_refl}
use desk_ssh.Web.Bytes.{Codec, looks_like_text, base64_to_text}
use desk_ssh.Web.Stallman.{
  Editor, Write, new_editor, Event, opened, response, typed, clicked, ctrl_s, write_answered, step,
  open_editor, effect, loaded, arrived, save, save_to, save_clicked, edited, written, checked, onto,
  write_of, answered, is_active, is_saving, saved,
}

-- Nothing but the response comes while a write waits for its response.
abbrev pub IsQuiet : Event → Editor → Type 0
IsQuiet (write_answered i ok) s = Unit
IsQuiet other s = s.waiting ≡ []

module _ (c : Codec) where
  pub data Quiet : Editor → Type 0 where
    start : {s : Editor} → s ≡ new_editor → Quiet s
    next_event : {s t : Editor} (e : Event) → Quiet s → IsQuiet e s → t ≡ step c e s → Quiet t

  abbrev IsCurrent : Editor → Write → Type 0
  IsCurrent s w = (w.text ≡ s.text) × (s.path ≡ some w.path)

  record IsTracked (s : Editor) : Type 0 where
    clean : s.dirty ≡ false → is_some s.path ≡ true → s.stored ≡ some s.text
    current : All (IsCurrent s) s.waiting

  loaded-IsTracked :
      (path : Text) (contents : Option Text) (s : Editor)
      → s.waiting ≡ []
      → IsTracked s
      → IsTracked (loaded c path contents s)
  unfolding loaded checked onto
  loaded-IsTracked path none s w h = record { clean = h.clean; current = ground arith }
  loaded-IsTracked path (some base64) s w h =
      go (looks_like_text c base64) (base64_to_text c base64)
    where
      go : (o : Option Bool) (text : Option Text) → IsTracked (checked path o text s)
      go none text = record { clean = h.clean; current = ground arith }
      go (some false) text = record { clean = h.clean; current = ground arith }
      go (some true) none = record { clean = h.clean; current = ground arith }
      go (some true) (some text) = record { clean = λ d p. refl; current = ground arith }

  save_to-IsTracked :
      (path : Option Text) (s : Editor) → s.path ≡ path → IsTracked s → IsTracked (save_to c path s)
  unfolding save_to write_of
  save_to-IsTracked none s e h = h
  save_to-IsTracked (some path) s e h = record {
    clean = h.clean;
    current = All-append _ s.waiting _ h.current ((refl, e), tt);
  }

  written-IsTracked :
      (i : ℕ) (w : Write) (ok : Bool) (s : Editor)
      → get_elem? s.waiting i ≡ some w
      → IsTracked s
      → IsTracked (answered i (some w) ok s)
  unfolding written
  written-IsTracked i w true s e h =
      let cur = All-get_elem? (IsCurrent s) s.waiting i w h.current e in
      record {
        clean = λ d p. ground (arith, cur.0, cur.1, text_eq_refl w.path);
        current = All-without _ i s.waiting h.current;
      }
  written-IsTracked i w false s e h = record {
    clean = h.clean;
    current = All-without _ i s.waiting h.current;
  }

  opened-IsTracked :
      (target : Text) (s : Editor) → s.waiting ≡ [] → IsTracked s → IsTracked (open_editor target s)
  unfolding open_editor effect
  opened-IsTracked target s w h = record { clean = ground (arith, h.clean); current = ground arith }

  step-IsTracked : (e : Event) (s : Editor) → IsQuiet e s → IsTracked s → IsTracked (step c e s)
  unfolding step arrived save save_clicked edited
  step-IsTracked (opened target) s w h = opened-IsTracked target s w h
  step-IsTracked (response run path contents) s w h = elim (Bool-cases (is_active s.active run)) [
    | inl e ↦ rw e (loaded-IsTracked path contents s w h)
    | inr e ↦ rw e h
  ]
  step-IsTracked (typed v) s w h = elim (Bool-cases (is_some s.path)) [
    | inl e ↦ rw e (record { clean = λ d p. absurd (true-ne-false d); current = ground arith })
    | inr e ↦ rw e h
  ]
  step-IsTracked clicked s w h =
      elim (Bool-cases (is_some s.path && s.dirty && not (is_saving s.status))) [
        | inl e ↦ rw e (save_to-IsTracked s.path s refl h)
        | inr e ↦ rw e h
      ]
  step-IsTracked ctrl_s s w h = save_to-IsTracked s.path s refl h
  step-IsTracked (write_answered i ok) s w h = elim (Option-cases (get_elem? s.waiting i)) [
    | inl e ↦ rw e h
    | inr (v, e) ↦ rw e (written-IsTracked i v ok s e h)
  ]

  tracked : (s : Editor) → Quiet s → IsTracked s
  tracked s (Quiet.start e) = subst IsTracked (sym e) (record { clean = λ d p. cc; current = tt })
  tracked s (Quiet.next_event {s = p} e r w q) =
      subst IsTracked (sym q) (step-IsTracked e p w (tracked p r))

  -- If nothing happens while a write waits for its response: whenever a file is open and no unsaved
  -- change is marked, the text in the editor is the one that the host was last known to hold for this
  -- file, from the response to its loading or to a write.
  pub Quiet-stored :
      (s : Editor) → Quiet s → s.dirty ≡ false → is_some s.path ≡ true → s.stored ≡ some s.text
  Quiet-stored s r d p = (tracked s r).clean d p

  -- If a file is open and no write waits, and the user saves, types before the response and the write
  -- then succeeds, the editor says that all is
  -- saved and offers no saving, although the host holds the text from before.
  edited_while_saving :
      (s : Editor) (path v : Text)
      → s.path ≡ some path
      → s.waiting ≡ []
      → let u = step c (write_answered 0 true) (step c (typed v) (step c ctrl_s s)) in
        (u.text ≡ v)
        × (u.stored ≡ some s.text)
        × (u.dirty ≡ false)
        × (u.status ≡ saved)
        × (step c clicked u ≡ u)
  unfolding step save save_to edited written save_clicked write_of
  edited_while_saving s path v p w = ground (arith, text_eq_refl path)
