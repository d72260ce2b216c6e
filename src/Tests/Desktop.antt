-- ===== src/Tests/Desktop.antt =====
-- Concrete inputs for the monitor, the terminal and the desktop of packages/web, and for the static
-- files of packages/server.
use desk_ssh.Base.{
  ℕ, List, [], ◌∷◌, ◌++◌, none, some, Option, ◌≡◌, ◌≢◌, refl, arith, inl, inr, Bool-cases, ◌==◌,
  ==_iff, if◌then◌else◌,
}
use desk_ssh.Js.Text.{Text, codes, text_eq, split, split_parts, starts_with}
use desk_ssh.Js.Map
use desk_ssh.Js.Json.{string}
use desk_ssh.Core.Shell.Lexer.{word, operator, tokens}
use desk_ssh.Core.Exec.{done}
use desk_ssh.Web.Monitor.Live
use desk_ssh.Web.Monitor.Polling.{act_all-polled_before, ends_run}
use desk_ssh.Core.Result.{CapabilityResult, ok}
use desk_ssh.Core.Types.{Process}
use desk_ssh.Web.Terminal
use desk_ssh.Web.Terminal.Bridged.{requested-bridged}
use desk_ssh.Server.Terminal as Bridging
use desk_ssh.Web.Desktop
use desk_ssh.Web.Desktop.Opening
use desk_ssh.Web.Desktop.Opening.{open_with-IsInFront, IsInFront}
use desk_ssh.Server.Static
use desk_ssh.Js.Text.Equality.{text_eq→eq}
use mathlib.Core.Path.{subst}
use desk_ssh.Server.Static.Upward.{HasNoUp, IsNormal, slash-HasNoUp}
use desk_ssh.Server.Static.Inside.{serve_static-IsBelow, IsBelow, IsIn}

abbrev one_process : Option (CapabilityResult (List Process))
one_process = some (ok [] [])

-- The button is clicked while a poll is under way, and the filter is typed before the poll is answered.
act_all-polled_before_example :
    let s =
      Live.step
        (Live.filter_typed (codes "ssh"))
        (Live.step Live.refresh_clicked Live.new_monitor) in
    Live.step (Live.polled 0 none one_process) s ≡ s
unfolding ends_run
act_all-polled_before_example =
    act_all-polled_before 0 Live.refresh_clicked (Live.filter_typed (codes "ssh") ∷ []) none
      one_process Live.new_monitor refl (omega arith)

abbrev acts : List Opening.Act
acts = Opening.opens Desktop.doc (codes "/a.html") ∷ []

open_with-IsInFront_example :
    let s =
      Desktop.open_with
        (λ k. k)
        Desktop.pdf
        (codes "/b.pdf")
        (Opening.act_all (λ k. k) acts Desktop.new_desktop) in
    (Desktop.target_of Desktop.pdf s ≡ some (codes "/b.pdf"))
    × IsInFront (Desktop.id_of Desktop.pdf) s.wm
open_with-IsInFront_example = open_with-IsInFront (λ k. k) acts Desktop.pdf (codes "/b.pdf")

-- A file system of files, with the directory of the site. `..` leads out of this.
abbrev site : Static.Node
site = record {
  decode = λ s. some s;
  normalize = λ s. s;
  join = λ dir rel.
      if text_eq rel (codes "..")
      then codes "/"
      else dir ++ (if starts_with rel (codes "/") then rel else b'/' ∷ rel);
  extname = λ s. codes ".js";
  entry_at = λ s. if text_eq s (codes "/srv") then Static.folder else Static.file;
}

joined-IsBelow :
    (rel : Text)
    → HasNoUp rel
    → IsBelow
        (codes "/srv")
        (codes "/srv" ++ (if starts_with rel (codes "/") then rel else b'/' ∷ rel))
unfolding starts_with split split_parts
joined-IsBelow [] h = ([], refl, ((λ e. cc), ((λ e. cc), tt)))
joined-IsBelow (c ∷ rel) h = elim (Bool-cases (c == 47)) [
  | inl e ↦ absolute c rel ((==_iff c 47).0 e) h
  | inr e ↦ rw e (c ∷ rel, refl, slash-HasNoUp (c ∷ rel) h)
]
  where
    absolute :
        (c : ℕ) (rel : Text)
        → c ≡ 47
        → HasNoUp (c ∷ rel)
        → IsBelow (codes "/srv") (
            codes "/srv" ++ (if starts_with (c ∷ rel) (codes "/") then c ∷ rel else b'/' ∷ c ∷ rel))
    absolute c rel e h = rw e (rel, refl, rw e at h)

site-IsIn : (rel : Text) → HasNoUp rel → IsIn (codes "/srv") (site.join (codes "/srv") rel)
unfolding split split_parts
site-IsIn rel h = elim (Bool-cases (text_eq rel (codes ".."))) [
  | inl e ↦ absurd ((subst HasNoUp (text_eq→eq rel (codes "..") e) h).0 refl)
  | inr e ↦ rw e (inr (joined-IsBelow rel h))
]

abbrev script : Static.Served
script = record {
  file_path = codes "/srv/app.js";
  content_type = codes "text/javascript; charset=utf-8";
}

served : Static.serve_static site (codes "/srv") (codes "../../app.js") ≡ done (some script)
unfolding Static.serve_static Static.serve_path Static.strip_up Static.sent starts_with Map.get
    text_eq
served = refl

climbing-IsNormal : IsNormal (codes "../../app.js")
unfolding split split_parts
climbing-IsNormal = inr (refl, inr (refl, inl ((λ e. cc), tt)))

-- The way up in front of the path is taken off.
serve_static-IsBelow_example :
    IsBelow (codes "/srv") script.file_path × (site.entry_at script.file_path ≢ Static.absent)
unfolding text_eq starts_with
serve_static-IsBelow_example =
    serve_static-IsBelow site (codes "/srv") (codes "../../app.js") (codes "../../app.js") script
      refl climbing-IsNormal site-IsIn (omega arith) refl refl served

-- Where only `..` is left, nothing is sent.
parent_run : Static.serve_static site (codes "/srv") (codes "../..") ≡ done none
unfolding Static.serve_static Static.serve_path Static.strip_up starts_with text_eq
parent_run = refl

abbrev bridge : Bridging.Bridge
bridge = record Bridging.new_bridge { shell = Bridging.running }

is_connected :
    (Terminal.run (Terminal.socket_opened ∷ []) (Terminal.mounted none 0 80 24)).socket
    ≡ Terminal.is_open
unfolding Terminal.step Terminal.mounted Terminal.opened Terminal.send
is_connected = refl

requested-bridged_example :
    let s = Terminal.run (Terminal.socket_opened ∷ []) (Terminal.mounted none 0 80 24) in
    (line : Text) × ((Terminal.step (Terminal.requested (codes "/tmp")) s).sent
      ≡ s.sent ++ Terminal.input line ∷ [])
    × ((Bridging.step
          (Bridging.message (some (Terminal.message_of (Terminal.input line))))
          bridge).written
        ≡ bridge.written ++ some (string line) ∷ [])
    × (tokens line ≡ some (word (codes "cd") ∷ word (codes "/tmp") ∷ operator 10 ∷ []))
requested-bridged_example =
    requested-bridged none 0 80 24 (Terminal.socket_opened ∷ []) (codes "/tmp") bridge refl
      is_connected (λ e. cc)
