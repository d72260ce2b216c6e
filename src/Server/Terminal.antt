-- ===== src/Server/Terminal.antt =====
-- packages/server/src/terminal.ts: the bridge between a WebSocket and a shell. What the socket and the
-- shell do arrives as events; what the bridge does to them is recorded.
pub mod Closing
use desk_ssh.Base.{
  ℕ, Bool, true, false, List, [], ◌∷◌, ◌++◌, Option, none, some, or_else, if◌then◌else◌, ◌≡◌,
}
use desk_ssh.Js.Text.{Text, codes, text_eq}
use desk_ssh.Js.Json.{Json, null, object, Fields}
use desk_ssh.Server.Manager.{SessionEntry, Manager, get}
use desk_ssh.Server.Gateway.Body.{field_of, text_of}

-- What becomes of a request for an upgrade.
pub data Upgrade (S : Type 0) : Type 0 where
  left_alone destroyed : Upgrade S
  bridged : SessionEntry S → (cwd : Option Text) → Upgrade S

module _ {S : Type 0} (has_pty : S → Bool) where
  abbrev pub bridge_to : Option (SessionEntry S) → Option Text → Upgrade S
  bridge_to none cwd = destroyed
  bridge_to (some entry) cwd =
      if has_pty entry.entry.connection then bridged entry cwd else destroyed

  unfoldable pub upgrade : Manager S → (pathname : Text) (session_id cwd : Option Text) → Upgrade S
  unfolding get text_eq
  upgrade manager pathname session_id cwd =
      if text_eq pathname (codes "/api/terminal")
      then bridge_to (get (or_else session_id []) manager) cwd
      else left_alone

-- What the listener of `message` does: `thrown` is a `TypeError` that nothing catches.
pub data Message : Type 0 where
  ignored thrown : Message
  input : (text : Option Json) → Message
  resize : (cols rows : Option Json) → Message

abbrev has_type : Text → Fields → Bool
has_type word fields = elim (text_of (field_of (codes "type") fields)) [
  | some s ↦ text_eq s word
  | none ↦ false
]

-- Given what `JSON.parse` returned, `none` if it threw.
unfoldable pub read_message : Option Json → Message
unfolding field_of text_eq
read_message none = ignored
read_message (some null) = thrown
read_message (some (object fields)) =
    if has_type (codes "input") fields
    then input (field_of (codes "data") fields)
    else if has_type (codes "resize") fields
    then resize (field_of (codes "cols") fields) (field_of (codes "rows") fields)
    else ignored
read_message (some other) = ignored

pub data Shell : Type 0 where
  opening running failed : Shell

pub record Bridge : Type 0 where
  pub shell : Shell
  pub socket_open : Bool
  -- `ws.close()` and `pty.close()` were called.
  pub close_asked : Bool
  pub shell_closed : Bool
  pub crashed : Bool
  pub sent : List Text
  pub written : List (Option Json)
  pub sizes : List (Option Json × Option Json)

abbrev pub new_bridge : Bridge
new_bridge = record {
  shell = opening;
  socket_open = true;
  close_asked = false;
  shell_closed = false;
  crashed = false;
  sent = [];
  written = [];
  sizes = [];
}

pub data Event : Type 0 where
  shell_opened shell_failed shell_ended socket_closed : Event
  output : Text → Event
  message : Option Json → Event

abbrev pub handled : Message → Bridge → Bridge
handled ignored s = s
handled thrown s = record s { crashed = true }
handled (input text) s = record s { written = s.written ++ text ∷ [] }
handled (resize cols rows) s = record s { sizes = s.sizes ++ (cols, rows) ∷ [] }

abbrev pub is_running : Shell → Bool
is_running running = true
is_running _ = false

abbrev when_opening : Shell → Bridge → Bridge → Bridge
when_opening opening s t = t
when_opening _ s t = s

-- The listeners are there once the shell is open.
unfoldable pub step : Event → Bridge → Bridge
unfolding read_message
step shell_opened s = when_opening s.shell s (record s { shell = running })
step shell_failed s = when_opening s.shell s (record s { shell = failed; close_asked = true })
step (output chunk) s =
    if is_running s.shell
    then (if s.socket_open then record s { sent = s.sent ++ chunk ∷ [] } else s)
    else s
step shell_ended s = if is_running s.shell then record s { close_asked = true } else s
step (message value) s = if is_running s.shell then handled (read_message value) s else s
step socket_closed s =
    if is_running s.shell
    then record s { socket_open = false; shell_closed = true }
    else record s { socket_open = false }

abbrev pub run : List Event → Bridge → Bridge
run [] s = s
run (e ∷ es) s = run es (step e s)

-- A socket closes once.
abbrev pub IsOffered : Event → Bridge → Type 0
IsOffered socket_closed s = s.socket_open ≡ true
IsOffered other s = Unit

abbrev pub AllOffered : List Event → Bridge → Type 0
AllOffered [] s = Unit
AllOffered (e ∷ es) s = IsOffered e s × AllOffered es (step e s)
