-- ===== src/Web/Pdf/Documents.antt =====
-- packages/web/src/features/desktop/apps/PdfViewerApp.tsx: what becomes of the documents that pdf.js has
-- opened.
use desk_ssh.Base.{
  ℕ, ◌+◌, false, Option, none, some, ◌≡◌, refl, sym, arith, count, ltb, ◌==◌, if◌then◌else◌,
}
use mathlib.Core.Path.{subst}
use desk_ssh.Web.Pdf.{
  Viewer, Event, opened, arrived, document, unreadable, prev_clicked, next_clicked, out_clicked,
  in_clicked, closed, step, open_pdf, effect, failed, read_answered, parsed, refused, prev_page,
  next_page, zoom_out, zoom_in, unmount, IsOffered, Reached,
}

abbrev is_doc : ℕ → Option ℕ → ℕ
is_doc k none = 0
is_doc k (some j) = if j == k then 1 else 0

-- How often the viewer holds a document.
abbrev pub held : ℕ → Viewer → ℕ
held k s = if s.mounted then is_doc k s.doc else 0

-- Each document that was opened is held or was destroyed once, and no other was destroyed.
record IsOwned (s : Viewer) : Type 0 where
  once : (k : ℕ) → count k s.destroyed + held k s ≡ (if ltb k s.made then 1 else 0)
  gone : s.mounted ≡ false → s.active ≡ none

module _ (s : Viewer) (h : IsOwned s) where
  step_once :
      (e : Event) (k : ℕ)
      → IsOffered e s
      → count k (step e s).destroyed + held k (step e s) ≡ (if ltb k (step e s).made then 1 else 0)
  unfolding step open_pdf effect read_answered parsed refused failed prev_page next_page zoom_out
      zoom_in unmount
  step_once (opened target) k o = ground (arith, h.once k, h.gone)
  step_once (arrived run ok) k o = ground (arith, h.once k, h.gone)
  step_once (document run pages) k o = ground (arith, h.once k, h.gone)
  step_once (unreadable run) k o = ground (arith, h.once k, h.gone)
  step_once prev_clicked k o = ground (arith, h.once k, h.gone)
  step_once next_clicked k o = ground (arith, h.once k, h.gone)
  step_once out_clicked k o = ground (arith, h.once k, h.gone)
  step_once in_clicked k o = ground (arith, h.once k, h.gone)
  step_once closed k o = ground (arith, h.once k, h.gone)

  step_gone : (e : Event) → IsOffered e s → (step e s).mounted ≡ false → (step e s).active ≡ none
  unfolding step open_pdf effect read_answered parsed refused failed prev_page next_page zoom_out
      zoom_in unmount
  step_gone (opened target) o q = ground (arith, h.gone)
  step_gone (arrived run ok) o q = ground (arith, h.gone)
  step_gone (document run pages) o q = ground (arith, h.gone)
  step_gone (unreadable run) o q = ground (arith, h.gone)
  step_gone prev_clicked o q = ground (arith, h.gone)
  step_gone next_clicked o q = ground (arith, h.gone)
  step_gone out_clicked o q = ground (arith, h.gone)
  step_gone in_clicked o q = ground (arith, h.gone)
  step_gone closed o q = ground (arith, h.gone)

  step-IsOwned : (e : Event) → IsOffered e s → IsOwned (step e s)
  step-IsOwned e o = record { once = λ k. step_once e k o; gone = step_gone e o }

reached : (s : Viewer) → Reached s → IsOwned s
reached s (Reached.start e) =
    subst IsOwned (sym e) (record { once = λ k. ground arith; gone = λ q. refl })
reached s (Reached.next_event {s = p} e r o q) =
    subst IsOwned (sym q) (step-IsOwned p (reached p r) e o)

-- In every state that is reached, with answers in any order: each document that pdf.js has opened is
-- held by the viewer and not destroyed, or was destroyed exactly once and is not held; a document
-- that was not opened was not destroyed. A closed viewer holds none.
pub Reached-released :
    (s : Viewer) (k : ℕ)
    → Reached s
    → count k s.destroyed + held k s ≡ (if ltb k s.made then 1 else 0)
Reached-released s k r = (reached s r).once k
