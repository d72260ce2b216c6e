-- ===== src/Web/Terminal.antt =====
-- packages/web/src/features/desktop/apps/TerminalApp.tsx: the terminal's end of the socket. xterm and the
-- browser's WebSocket are outside: what they do arrives as events, and the messages that are sent and the
-- text that is shown are recorded.
pub mod Bridged
use desk_ssh.Base.{
  ℕ, suc, ◌+◌, Bool, true, false, ◌&&◌, List, [], ◌∷◌, ◌++◌, Option, none, some, if◌then◌else◌,
  ◌==◌, map,
}
use desk_ssh.Js.Text.{Text, codes, non_empty, text_eq}
use desk_ssh.Js.Number.{show}
use desk_ssh.Js.Json.{Json, string, number, object, Fields, no_fields, field}
use desk_ssh.Core.Shell.{shell_quote}
use desk_ssh.Server.Gateway.Body.{field_of, text_of}

-- What the terminal sends.
pub data Sent : Type 0 where
  input : Text → Sent
  resize : (cols rows : ℕ) → Sent

unfoldable pub message_of : Sent → Json
message_of (input text) =
    object
      (field (codes "type") (string (codes "input")) (field (codes "data") (string text) no_fields))
message_of (resize cols rows) = object (
    field (codes "type") (string (codes "resize")) (
      field (codes "cols") (number (show cols))
        (field (codes "rows") (number (show rows)) no_fields)))

pub data Socket : Type 0 where
  connecting is_open closed : Socket

pub record TerminalApp : Type 0 where
  pub socket : Socket
  -- The directory that was put into the address of the socket.
  pub start_cwd : Option Text
  -- `cwdRef` and `terminalReq`, and the request that the window was opened with.
  pub cwd : Option Text
  pub req : ℕ
  pub mount_req : ℕ
  pub cols : ℕ
  pub rows : ℕ
  pub sent : List Sent
  pub shown : List Text

-- `params.set('cwd', ...)`, if the directory is not empty.
unfoldable pub cwd_param : Option Text → Option Text
cwd_param none = none
cwd_param (some dir) = if non_empty dir then some dir else none

-- The terminal as its window opens.
unfoldable pub mounted : (cwd : Option Text) (req cols rows : ℕ) → TerminalApp
unfolding cwd_param
mounted cwd req cols rows = record {
  socket = connecting;
  start_cwd = cwd_param cwd;
  cwd = cwd;
  req = req;
  mount_req = req;
  cols = cols;
  rows = rows;
  sent = [];
  shown = [];
}

abbrev pub is_ready : Socket → Bool
is_ready is_open = true
is_ready _ = false

unfoldable pub send : Sent → TerminalApp → TerminalApp
send m s = if is_ready s.socket then record s { sent = s.sent ++ m ∷ [] } else s

-- The line that takes an open shell into a directory.
unfoldable pub cd_line : Text → Text
unfolding shell_quote
cd_line dir = codes "cd " ++ (shell_quote dir ++ codes "\n")

unfoldable pub cd_to : Option Text → TerminalApp → TerminalApp
unfolding send cd_line
cd_to none s = s
cd_to (some dir) s = if non_empty dir then send (input (cd_line dir)) s else s

-- `ws.onmessage`: what is shown of a message.
abbrev pub output_of : Fields → Option Text
output_of fields = elim (text_of (field_of (codes "type") fields)) [
  | none ↦ none
  | some word ↦
      if text_eq word (codes "output") then text_of (field_of (codes "data") fields) else none
]

abbrev pub shown_text : Option Text → TerminalApp → TerminalApp
shown_text none s = s
shown_text (some text) s = record s { shown = s.shown ++ text ∷ [] }

unfoldable pub received : Fields → TerminalApp → TerminalApp
unfolding field_of text_eq
received fields s = shown_text (output_of fields) s

pub data Event : Type 0 where
  socket_opened socket_closed window_closed : Event
  typed : Text → Event
  resized : (cols rows : ℕ) → Event
  -- A request of the desktop, counted by `terminalReq`.
  requested : (dir : Text) → Event
  message : Fields → Event

abbrev pub disconnected : Text
disconnected = 13 ∷ 10 ∷ 27 ∷ codes "[2m[disconnected]" ++ (27 ∷ codes "[0m" ++ (13 ∷ 10 ∷ []))

unfoldable pub opened : Socket → TerminalApp → TerminalApp
unfolding send
opened connecting s = send (resize s.cols s.rows) (record s { socket = is_open })
opened _ s = s

unfoldable pub step : Event → TerminalApp → TerminalApp
unfolding opened send cd_to received
step socket_opened s = opened s.socket s
step socket_closed s = record s { socket = closed; shown = s.shown ++ disconnected ∷ [] }
step window_closed s = record s { socket = closed }
step (typed text) s = send (input text) s
step (resized cols rows) s = send (resize cols rows) (record s { cols = cols; rows = rows })
step (requested dir) s =
    let t = record s { cwd = some dir; req = suc s.req } in
    if t.req == t.mount_req then t else cd_to (some dir) t
step (message fields) s = received fields s

abbrev pub run : List Event → TerminalApp → TerminalApp
run [] s = s
run (e ∷ es) s = run es (step e s)
