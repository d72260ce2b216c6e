-- ===== src/Web/Stallman/Writes.antt =====
-- packages/web/src/features/desktop/apps/StallmanApp.tsx: where the editor writes, and what.
use desk_ssh.Base.{
  ℕ, Bool, true, false, Option, none, some, ◌≡◌, refl, sym, ◌∙◌, arith, Bool-cases, inl, inr, All,
  get_elem?, is_some, ◌&&◌, not,
}
use mathlib.Core.Path.{subst}
use desk_ssh.Js.Text.{Text}
use desk_ssh.Web.Bytes.{Codec, text_to_base64, looks_like_text, base64_to_text}
use desk_ssh.Web.Stallman.{
  Editor, Write, new_editor, Event, opened, response, typed, clicked, ctrl_s, write_answered, step,
  open_editor, effect, loaded, arrived, save, save_to, save_clicked, edited, written, checked, onto,
  write_of, answered, is_active, is_saving,
}

module _ (c : Codec) where
  pub data Reached : Editor → Type 0 where
    start : {s : Editor} → s ≡ new_editor → Reached s
    next_event : {s t : Editor} (e : Event) → Reached s → t ≡ step c e s → Reached t

  -- A write puts the text in base64 into the file that this text was loaded from.
  pub record IsAttributed (w : Write) : Type 0 where
    pub own : w.origin ≡ some w.path
    pub contents : w.base64 ≡ text_to_base64 c w.text

  record IsHonest (s : Editor) : Type 0 where
    home : s.origin ≡ s.path
    attributed : All IsAttributed s.writes

  onto-IsHonest :
      (path : Text) (text : Option Text) (s : Editor) → IsHonest s → IsHonest (onto path text s)
  unfolding onto
  onto-IsHonest path none s h = record { home = h.home; attributed = h.attributed }
  onto-IsHonest path (some text) s h = record { home = refl; attributed = h.attributed }

  loaded-IsHonest :
      (path : Text) (contents : Option Text) (s : Editor)
      → IsHonest s
      → IsHonest (loaded c path contents s)
  unfolding loaded checked
  loaded-IsHonest path none s h = record { home = h.home; attributed = h.attributed }
  loaded-IsHonest path (some base64) s h = go (looks_like_text c base64)
    where
      go : (o : Option _) → IsHonest (checked path o (base64_to_text c base64) s)
      go none = record { home = h.home; attributed = h.attributed }
      go (some false) = record { home = h.home; attributed = h.attributed }
      go (some true) = onto-IsHonest path (base64_to_text c base64) s h

  save_to-IsHonest :
      (path : Option Text) (s : Editor) → s.path ≡ path → IsHonest s → IsHonest (save_to c path s)
  unfolding save_to write_of
  save_to-IsHonest none s e h = h
  save_to-IsHonest (some path) s e h = record {
    home = h.home;
    attributed = (record { own = h.home ∙ e; contents = refl }, h.attributed);
  }

  answered-IsHonest :
      (i : ℕ) (o : Option Write) (ok : Bool) (s : Editor)
      → IsHonest s
      → IsHonest (answered i o ok s)
  unfolding written
  answered-IsHonest i none ok s h = h
  answered-IsHonest i (some w) true s h = record { home = h.home; attributed = h.attributed }
  answered-IsHonest i (some w) false s h = record { home = h.home; attributed = h.attributed }

  step-IsHonest : (e : Event) (s : Editor) → IsHonest s → IsHonest (step c e s)
  unfolding step open_editor effect arrived save save_clicked edited written
  step-IsHonest (opened target) s h = record {
    home = ground (arith, h.home);
    attributed = ground (arith, h.attributed);
  }
  step-IsHonest (response run path contents) s h = elim (Bool-cases (is_active s.active run)) [
    | inl e ↦ rw e (loaded-IsHonest path contents s h)
    | inr e ↦ rw e h
  ]
  step-IsHonest (typed v) s h = record {
    home = ground (arith, h.home);
    attributed = ground (arith, h.attributed);
  }
  step-IsHonest clicked s h =
      elim (Bool-cases (is_some s.path && s.dirty && not (is_saving s.status))) [
        | inl e ↦ rw e (save_to-IsHonest s.path s refl h)
        | inr e ↦ rw e h
      ]
  step-IsHonest ctrl_s s h = save_to-IsHonest s.path s refl h
  step-IsHonest (write_answered i ok) s h = answered-IsHonest i (get_elem? s.waiting i) ok s h

  reached : (s : Editor) → Reached s → IsHonest s
  reached s (Reached.start e) = subst IsHonest (sym e) (record { home = refl; attributed = tt })
  reached s (Reached.next_event {s = p} e r q) =
      subst IsHonest (sym q) (step-IsHonest e p (reached p r))

  -- In every state that is reached, with responses in any order: each write that was made put the
  -- text that the editor held, in base64, into the file that this text had been loaded from.
  pub Reached-IsAttributed : (s : Editor) → Reached s → All IsAttributed s.writes
  Reached-IsAttributed s r = (reached s r).attributed
