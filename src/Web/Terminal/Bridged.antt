-- ===== src/Web/Terminal/Bridged.antt =====
-- packages/web/src/features/desktop/apps/TerminalApp.tsx against packages/server/src/terminal.ts: what the
-- shell gets of what the terminal sends.
use desk_ssh.Base.{
  ℕ, ◌≤◌, List, [], ◌∷◌, ◌++◌, Option, none, some, ◌≡◌, ◌≢◌, refl, ap, ◌∙◌, arith, append_assoc,
  append-nil,
}
use desk_ssh.Js.Text.{Text, codes, text_eq}
use desk_ssh.Js.Number.{show}
use desk_ssh.Js.Json.{Json, string, number}
use desk_ssh.Core.Shell.{quote, shell_quote}
use desk_ssh.Core.Shell.Lexer.{word, operator, emit, lex, tokens, class_of}
use desk_ssh.Core.Shell.Safety.{lex-quote}
use desk_ssh.Server.Terminal
use desk_ssh.Server.Terminal.{
  Bridge, opening, running, new_bridge, message, shell_opened, read_message,
}
use desk_ssh.Server.Gateway.Body.{field_of}
use desk_ssh.Web.Terminal.{
  TerminalApp, Sent, input, opened, socket_closed, window_closed, typed, resized, received,
  output_of, shown_text, resize, message_of, is_open, mounted, cd_line, cd_to, send, Event,
  requested, step, run, socket_opened,
}
use desk_ssh.Web.Terminal.{message as received_message}

abbrev pub events_of : List Sent → List Terminal.Event
events_of [] = []
events_of (m ∷ ms) = message (some (message_of m)) ∷ events_of ms

-- The texts of the input, and the sizes.
abbrev pub inputs : List Sent → List (Option Json)
inputs [] = []
inputs (input text ∷ ms) = some (string text) ∷ inputs ms
inputs (resize cols rows ∷ ms) = inputs ms

abbrev pub sizes_of : List Sent → List (Option Json × Option Json)
sizes_of [] = []
sizes_of (input text ∷ ms) = sizes_of ms
sizes_of (resize cols rows ∷ ms) =
    (some (number (show cols)), some (number (show rows))) ∷ sizes_of ms

step_message :
    (m : Sent) (b : Bridge)
    → b.shell ≡ running
    → Terminal.step (message (some (message_of m))) b
      ≡ record b { written = b.written ++ inputs (m ∷ []); sizes = b.sizes ++ sizes_of (m ∷ []) }
unfolding Terminal.step read_message message_of field_of text_eq
step_message (input text) b h = simp (h, append-nil)
step_message (resize cols rows) b h = simp (h, append-nil)

inputs-cons : (m : Sent) (ms : List Sent) → inputs (m ∷ ms) ≡ inputs (m ∷ []) ++ inputs ms
inputs-cons (input text) ms = refl
inputs-cons (resize cols rows) ms = refl

sizes_of-cons : (m : Sent) (ms : List Sent) → sizes_of (m ∷ ms) ≡ sizes_of (m ∷ []) ++ sizes_of ms
sizes_of-cons (input text) ms = refl
sizes_of-cons (resize cols rows) ms = refl

-- A running bridge passes every message of the terminal on, in order: the texts of its input to the
-- shell, its sizes as sizes of the shell; nothing else changes.
pub run-events_of :
    (ms : List Sent) (b : Bridge)
    → b.shell ≡ running
    → Terminal.run (events_of ms) b
      ≡ record b { written = b.written ++ inputs ms; sizes = b.sizes ++ sizes_of ms }
run-events_of [] b h = rw (append-nil b.written, append-nil b.sizes)
run-events_of (m ∷ ms) b h =
    ap (Terminal.run (events_of ms)) (step_message m b h)
    ∙ run-events_of ms _ h
    ∙ simp (inputs-cons m ms, sizes_of-cons m ms, append_assoc)

-- A line that the terminal sends to change the directory is, to a shell, the command `cd` with one
-- word, the directory, and the end of the line.
tokens-cd_line :
    (dir : Text) → tokens (cd_line dir) ≡ some (word (codes "cd") ∷ word dir ∷ operator 10 ∷ [])
unfolding tokens cd_line shell_quote quote lex class_of
tokens-cd_line dir = ap (emit (word (codes "cd"))) (lex-quote dir (10 ∷ []))

shown_text_keeps :
    (o : Option Text) (s : TerminalApp)
    → s.mount_req ≤ s.req
    → (shown_text o s).mount_req ≤ (shown_text o s).req
shown_text_keeps none s h = h
shown_text_keeps (some text) s h = h

-- `req` counts up from the request that the window was opened with.
step-req :
    (e : Event) (s : TerminalApp) → s.mount_req ≤ s.req → (step e s).mount_req ≤ (step e s).req
unfolding step opened send cd_to received
step-req socket_opened s h = ground arith
step-req socket_closed s h = h
step-req window_closed s h = h
step-req (typed text) s h = ground arith
step-req (resized cols rows) s h = ground arith
step-req (requested dir) s h = ground arith
step-req (received_message fields) s h = shown_text_keeps (output_of fields) s h

run-req :
    (es : List Event) (s : TerminalApp)
    → s.mount_req ≤ s.req
    → (run es s).mount_req ≤ (run es s).req
run-req [] s h = h
run-req (e ∷ es) s h = run-req es (step e s) (step-req e s h)

asked :
    (s : TerminalApp) (dir : Text)
    → s.socket ≡ is_open
    → dir ≢ []
    → s.mount_req ≤ s.req
    → (step (requested dir) s).sent ≡ s.sent ++ input (cd_line dir) ∷ []
unfolding step cd_to send
asked s [] o n h = absurd (n refl)
asked s (c ∷ dir) o n h = ground arith

dropped : (ms : List Sent) (b : Bridge) → b.shell ≡ opening → Terminal.run (events_of ms) b ≡ b
unfolding Terminal.step
dropped [] b h = refl
dropped (m ∷ ms) b h =
    let quiet : Terminal.step (message (some (message_of m))) b ≡ b = ground arith in
    ap (Terminal.run (events_of ms)) quiet ∙ dropped ms b h

-- Whatever has happened since the window was opened: if the socket is open and the desktop asks for a
-- directory, whose path is not empty, then the terminal sends one more message, and with it a running
-- bridge writes one line to its shell: the command `cd` with one word, the directory.
pub requested-bridged :
    (cwd : Option Text) (req cols rows : ℕ) (es : List Event) (dir : Text) (b : Bridge)
    → b.shell ≡ running
    → (run es (mounted cwd req cols rows)).socket ≡ is_open
    → dir ≢ []
    → let s = run es (mounted cwd req cols rows) in
      (line : Text) × ((step (requested dir) s).sent ≡ s.sent ++ input line ∷ [])
      × ((Terminal.step (message (some (message_of (input line)))) b).written
          ≡ b.written ++ some (string line) ∷ [])
      × (tokens line ≡ some (word (codes "cd") ∷ word dir ∷ operator 10 ∷ []))
unfolding mounted
requested-bridged cwd req cols rows es dir b h o n = (
  cd_line dir,
  asked (run es (mounted cwd req cols rows)) dir o n (run-req es _ (omega arith)),
  ap (λ (t : Bridge). t.written) (step_message (input (cd_line dir)) b h),
  tokens-cd_line dir,
)

-- What the terminal sends before the shell has opened is lost, the size that it sends as the socket
-- opens included: whatever happened to the terminal until then, the new shell has got no input and
-- no size.
pub sent_early :
    (ms : List Sent)
    → Terminal.step shell_opened (Terminal.run (events_of ms) new_bridge)
      ≡ record new_bridge { shell = running }
unfolding Terminal.step
sent_early ms = ap (Terminal.step shell_opened) (dropped ms new_bridge refl)
