-- ===== src/Web/Documents/Updates.antt =====
-- packages/web/src/features/desktop/apps/DocumentsApp.tsx: where documents are written, and updates that
-- do not count.
use desk_ssh.Base.{
  ℕ, Bool, true, false, List, [], ◌∷◌, Option, none, some, ◌≡◌, ◌≢◌, refl, sym, ◌∙◌, arith,
  Bool-cases, inl, inr, All, get_elem?, is_some, ◌&&◌, not, ==_refl,
}
use mathlib.Core.Path.{subst}
use desk_ssh.Js.Text.{Text}
use desk_ssh.Js.Text.Equality.{text_eq_ne}
use desk_ssh.Web.Bytes.{Codec, looks_like_text, base64_to_text}
use desk_ssh.Web.Stallman.{is_active, is_saving}
use desk_ssh.Web.Documents.{
  Editor, Write, new_editor, Event, opened, response, typed, clicked, write_answered, step,
  open_doc, effect, received, arrived, save, save_to, updated, written, checked, onto, write_of,
  answered,
}

module _ (c : Codec) (html_of : Text → Text) where
  module _ (blank : Text) where
    pub data Reached : Editor → Type 0 where
      start : {s : Editor} → s ≡ new_editor blank → Reached s
      next_event : {s t : Editor} (e : Event) → Reached s → t ≡ step c html_of e s → Reached t

  -- A write goes to the file that the document was loaded from.
  abbrev pub IsHome : Write → Type 0
  IsHome w = w.origin ≡ some w.path

  record IsHonest (s : Editor) : Type 0 where
    home : s.origin ≡ s.path
    writes : All IsHome s.writes

  received-IsHonest :
      (path : Text) (contents : Option Text) (s : Editor)
      → IsHonest s
      → IsHonest (received c html_of path contents s)
  unfolding received checked onto
  received-IsHonest path none s h = record { home = h.home; writes = h.writes }
  received-IsHonest path (some base64) s h = go (looks_like_text c base64) (base64_to_text c base64)
    where
      go : (o : Option Bool) (text : Option Text) → IsHonest (checked c html_of path o text s)
      go none text = record { home = h.home; writes = h.writes }
      go (some false) text = record { home = h.home; writes = h.writes }
      go (some true) none = record { home = h.home; writes = h.writes }
      go (some true) (some text) = record { home = refl; writes = h.writes }

  save_to-IsHonest :
      (path : Option Text) (s : Editor) → s.path ≡ path → IsHonest s → IsHonest (save_to c path s)
  unfolding save_to write_of
  save_to-IsHonest none s e h = h
  save_to-IsHonest (some path) s e h = record { home = h.home; writes = (h.home ∙ e, h.writes) }

  answered-IsHonest :
      (i : ℕ) (o : Option Write) (ok : Bool) (s : Editor)
      → IsHonest s
      → IsHonest (answered i o ok s)
  unfolding written
  answered-IsHonest i none ok s h = h
  answered-IsHonest i (some w) true s h = record { home = h.home; writes = h.writes }
  answered-IsHonest i (some w) false s h = record { home = h.home; writes = h.writes }

  step-IsHonest : (e : Event) (s : Editor) → IsHonest s → IsHonest (step c html_of e s)
  unfolding step open_doc effect arrived updated save
  step-IsHonest (opened target) s h = record {
    home = ground (arith, h.home);
    writes = ground (arith, h.writes);
  }
  step-IsHonest (response run path contents) s h = elim (Bool-cases (is_active s.active run)) [
    | inl e ↦ rw e (received-IsHonest path contents s h)
    | inr e ↦ rw e h
  ]
  step-IsHonest (typed html) s h = record {
    home = ground (arith, h.home);
    writes = ground (arith, h.writes);
  }
  step-IsHonest clicked s h =
      elim (Bool-cases (is_some s.path && s.dirty && not (is_saving s.status))) [
        | inl e ↦ rw e (save_to-IsHonest s.path s refl h)
        | inr e ↦ rw e h
      ]
  step-IsHonest (write_answered i ok) s h = answered-IsHonest i (get_elem? s.waiting i) ok s h

  reached : (blank : Text) (s : Editor) → Reached blank s → IsHonest s
  reached blank s (Reached.start e) = subst IsHonest (sym e) (record { home = refl; writes = tt })
  reached blank s (Reached.next_event {s = p} e r q) =
      subst IsHonest (sym q) (step-IsHonest e p (reached blank p r))

  -- In every state that is reached, with responses in any order: each write goes to the file that the
  -- document in the editor was loaded from.
  pub Reached-IsHome : (blank : Text) (s : Editor) → Reached blank s → All IsHome s.writes
  Reached-IsHome blank s r = (reached blank s r).writes

  -- Updates, one after the other.
  abbrev pub typed_all : List Text → Editor → Editor
  typed_all [] s = s
  typed_all (html ∷ rest) s = typed_all rest (step c html_of (typed html) s)

  abbrev pub last_of : Text → List Text → Text
  last_of html [] = html
  last_of html (v ∷ vs) = last_of v vs

  typed_all_uncounted :
      (vs : List Text) (s : Editor)
      → s.loaded ≡ false
      → typed_all vs s ≡ record s { html = last_of s.html vs }
  unfolding step updated
  typed_all_uncounted [] s e = refl
  typed_all_uncounted (v ∷ vs) s e =
      let f : step c html_of (typed v) s ≡ record s { html = v } = rw e in
      subst (λ t. typed_all vs t ≡ record s { html = last_of v vs }) (sym f)
        (typed_all_uncounted vs (record s { html = v }) e)

  module _ (s : Editor) (first second : Text) (p : s.path ≡ some first) (t : s.target ≡ some first)
      (n : first ≢ second) (b : second ≢ []) where
    refused : Editor
    refused = step c html_of (response s.next second none) (step c html_of (opened second) s)

    refused_lem :
        (refused.loaded ≡ false)
        × (refused.html ≡ s.html)
        × (refused.path ≡ some first)
        × (refused.dirty ≡ s.dirty)
    unfolding refused step open_doc effect arrived received
    refused_lem =
        ground (
          arith,
          text_eq_ne first second n,
          text_eq_ne second first (λ e. n (sym e)),
          ==_refl s.next,
        )

    -- If a document without unsaved changes is open and another, whose path is not empty, fails to
    -- load: the first stays open, but however the user then changes it, the changes are not marked
    -- and the button saves nothing.
    pub failed_load_uncounted :
        (vs : List Text)
        → s.dirty ≡ false
        → let u =
            typed_all vs
              (step c html_of (response s.next second none) (step c html_of (opened second) s)) in
          (u.html ≡ last_of s.html vs)
          × (u.path ≡ some first)
          × (u.dirty ≡ false)
          × (step c html_of clicked u ≡ u)
    unfolding step save refused
    failed_load_uncounted vs d =
        let (l, h, q, e) = refused_lem in
        rw (typed_all_uncounted vs refused l) (ground (arith, h, q, e, d))
