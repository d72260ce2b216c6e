-- ===== src/Web/Pdf/Pages.antt =====
-- packages/web/src/features/desktop/apps/PdfViewerApp.tsx: the bounds of the page and of the zoom.
use desk_ssh.Base.{◌≡◌, ◌≤◌, sym, arith}
use mathlib.Core.Path.{subst}
use desk_ssh.Web.Pdf.{
  Viewer, ready, Event, opened, arrived, document, unreadable, prev_clicked, next_clicked,
  out_clicked, in_clicked, closed, step, open_pdf, effect, failed, read_answered, parsed, refused,
  prev_page, next_page, zoom_out, zoom_in, unmount, IsOffered, Reached,
}

-- The document is ready at one of its pages, and the scale stays in its range.
pub record IsInRange (s : Viewer) : Type 0 where
  pub first : 1 ≤ s.page
  pub last : s.status ≡ ready → s.page ≤ s.page_count
  pub small : 50 ≤ s.scale
  pub large : s.scale ≤ 300

step-IsInRange : (e : Event) (s : Viewer) → IsOffered e s → IsInRange s → IsInRange (step e s)
unfolding step open_pdf effect read_answered parsed refused failed prev_page next_page zoom_out
    zoom_in unmount
step-IsInRange (opened target) s o h = ground (arith, h.last)
step-IsInRange (arrived run ok) s o h = ground (arith, h.last)
step-IsInRange (document run pages) s o h = ground (arith, h.last)
step-IsInRange (unreadable run) s o h = ground (arith, h.last)
step-IsInRange prev_clicked s o h = ground (arith, h.last)
step-IsInRange next_clicked s o h = ground (arith, h.last)
step-IsInRange out_clicked s o h = ground (arith, h.last)
step-IsInRange in_clicked s o h = ground (arith, h.last)
step-IsInRange closed s o h = ground (arith, h.last)

-- In every state that is reached, with answers in any order: the page is at least 1 and, when the
-- viewer is ready, at most the number of pages, and the scale lies between 50 and 300 hundredths. Each
-- document is taken to have a page.
pub Reached-IsInRange : (s : Viewer) → Reached s → IsInRange s
Reached-IsInRange s (Reached.start e) =
    subst IsInRange (sym e)
      (record { first = omega arith; last = λ q. cc; small = omega arith; large = omega arith })
Reached-IsInRange s (Reached.next_event {s = p} e r o q) =
    subst IsInRange (sym q) (step-IsInRange e p o (Reached-IsInRange p r))
