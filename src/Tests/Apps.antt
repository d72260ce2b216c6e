-- ===== src/Tests/Apps.antt =====
-- Concrete inputs for the editors, the PDF viewer, the terminal and the desktop of packages/web, and for
-- the static files of packages/server.
use desk_ssh.Base.{
  false, ◌+◌, List, [], ◌∷◌, some, ◌≡◌, refl, arith, count, ltb, All, if◌then◌else◌, take, is_some,
  ap,
}
use desk_ssh.Js.Text.{codes, text_eq, starts_with, includes}
use desk_ssh.Web.Bytes.{Codec, looks_like_text, base64_to_text, base64_to_bytes}
use desk_ssh.Web.Pdf
use desk_ssh.Web.Pdf.{Viewer, ready}
use desk_ssh.Web.Pdf.Documents.{Reached-released, held}
use desk_ssh.Web.Pdf.Pages.{Reached-IsInRange, IsInRange}
use desk_ssh.Web.Pdf.Rendering
use desk_ssh.Web.Pdf.Rendering.{act_all-IsSingle, IsSingle}
use desk_ssh.Web.Stallman
use desk_ssh.Web.Stallman.{Write}
use desk_ssh.Web.Stallman.Writes
use desk_ssh.Web.Stallman.Writes.{Reached-IsAttributed, IsAttributed}
use desk_ssh.Web.Stallman.Tracking
use desk_ssh.Web.Stallman.Tracking.{Quiet-stored}
use desk_ssh.Web.Stallman.Reading.{response-save}

-- Bytes that stand for themselves.
abbrev plain : Codec
plain = record { atob = λ s. some s; btoa = λ s. s; decode = λ s. s; encode = λ s. s }

abbrev two_documents : Viewer
two_documents = Pdf.step (Pdf.document 1 3) (
    Pdf.step (Pdf.document 0 7) (
      Pdf.step (Pdf.opened (codes "/b.pdf"))
        (Pdf.step (Pdf.opened (codes "/a.pdf")) Pdf.new_viewer)))

two_documents-Reached : Pdf.Reached two_documents
unfolding Pdf.step Pdf.open_pdf Pdf.effect text_eq
two_documents-Reached =
    Pdf.Reached.next_event (Pdf.document 1 3)
      (Pdf.Reached.next_event (Pdf.document 0 7)
        (Pdf.Reached.next_event (Pdf.opened (codes "/b.pdf"))
          (Pdf.Reached.next_event (Pdf.opened (codes "/a.pdf")) (Pdf.Reached.start refl) refl refl)
          refl refl)
        (omega arith) refl)
      (omega arith) refl

Reached-released_example :
    count 0 two_documents.destroyed + held 0 two_documents
    ≡ (if ltb 0 two_documents.made then 1 else 0)
Reached-released_example = Reached-released two_documents 0 two_documents-Reached

Reached-IsInRange_example : IsInRange two_documents
Reached-IsInRange_example = Reached-IsInRange two_documents two_documents-Reached

abbrev acts : List Rendering.Act
acts =
    Rendering.user (Pdf.opened (codes "/a.pdf"))
    ∷ Rendering.user (Pdf.document 0 7)
    ∷ Rendering.page_arrived 0
    ∷ []

act_all-IsSingle_example :
    IsSingle (Rendering.act_all acts Rendering.new_view).canvas
    × ((Rendering.act
          (Rendering.user Pdf.closed)
          (Rendering.act_all acts Rendering.new_view)).canvas.live
        ≡ [])
act_all-IsSingle_example = act_all-IsSingle acts

abbrev waiting_editor : Stallman.Editor
waiting_editor = Stallman.step plain (Stallman.opened (codes "/a.txt")) Stallman.new_editor

abbrev open_file : Stallman.Editor
open_file =
    Stallman.step plain (Stallman.response 0 (codes "/a.txt") (some (codes "old"))) waiting_editor

abbrev saving_editor : Stallman.Editor
saving_editor =
    Stallman.step plain Stallman.clicked
      (Stallman.step plain (Stallman.typed (codes "new")) open_file)

saving_editor-Reached : Writes.Reached plain saving_editor
saving_editor-Reached =
    Writes.Reached.next_event Stallman.clicked
      (Writes.Reached.next_event (Stallman.typed (codes "new"))
        (Writes.Reached.next_event (Stallman.response 0 (codes "/a.txt") (some (codes "old")))
          (Writes.Reached.next_event (Stallman.opened (codes "/a.txt")) (Writes.Reached.start refl)
            refl)
          refl)
        refl)
      refl

Reached-IsAttributed_example : All (IsAttributed plain) saving_editor.writes
Reached-IsAttributed_example = Reached-IsAttributed plain saving_editor saving_editor-Reached

open_file-Quiet : Tracking.Quiet plain open_file
unfolding Stallman.step Stallman.open_editor Stallman.effect text_eq
open_file-Quiet =
    Tracking.Quiet.next_event (Stallman.response 0 (codes "/a.txt") (some (codes "old")))
      (Tracking.Quiet.next_event (Stallman.opened (codes "/a.txt")) (Tracking.Quiet.start refl) refl
        refl)
      refl refl

-- The file is shown as it was loaded, and nothing waits.
open_file_lem : open_file ≡ Stallman.shown (codes "/a.txt") (codes "old") waiting_editor
unfolding Stallman.step Stallman.open_editor Stallman.effect Stallman.arrived Stallman.loaded
    Stallman.checked Stallman.onto looks_like_text base64_to_text base64_to_bytes includes
    starts_with text_eq
open_file_lem = refl

Quiet-stored_example : open_file.stored ≡ some open_file.text
Quiet-stored_example =
    Quiet-stored plain open_file open_file-Quiet
      (ap (λ (e : Stallman.Editor). e.dirty) open_file_lem)
      (ap (λ (e : Stallman.Editor). is_some e.path) open_file_lem)

abbrev first_write : Write
first_write = Stallman.write_of plain (codes "/a.txt") open_file

open_file_no_nul : includes (take 4096 open_file.text) (0 ∷ []) ≡ false
unfolding includes starts_with
open_file_no_nul = rw open_file_lem

open_file_write :
    (Stallman.step plain Stallman.ctrl_s open_file).writes ≡ first_write ∷ open_file.writes
unfolding Stallman.step Stallman.save Stallman.save_to
open_file_write = refl

waiting_editor_active : waiting_editor.active ≡ some 0
unfolding Stallman.step Stallman.open_editor Stallman.effect text_eq
waiting_editor_active = refl

response-save_example :
    Stallman.step plain
      (Stallman.response 0 (codes "/a.txt") (some first_write.base64))
      waiting_editor
    ≡ Stallman.shown (codes "/a.txt") open_file.text waiting_editor
unfolding Stallman.write_of
response-save_example =
    response-save plain open_file waiting_editor first_write 0 refl refl open_file_no_nul
      (ap (λ (e : Stallman.Editor). e.path) open_file_lem) open_file_write waiting_editor_active
