-- ===== src/Core/Session.antt =====
-- packages/core/src/session/ssh-session.ts and types.ts: the transport. The SSH client is not part of
-- the program: what it reports arrives as events, and its decisions are arguments.
pub mod Lifecycle
pub mod HostKey
pub mod Output
use desk_ssh.Base.{
  ℕ, zero, suc, ◌+◌, ◌*◌, ◌%◌, List, [], ◌∷◌, ◌++◌, map, Bool, true, false, ◌||◌, Option, none,
  some, or_else, ltb, ◌==◌, if◌then◌else◌, take, drop, length,
}
use desk_ssh.Js.Text.{Text, codes, non_empty}
use desk_ssh.Core.Shell.{quote}
use desk_ssh.Core.Exec.{ExecResult}

pub data SshAuth : Type 0 where
  password : Text → SshAuth
  private_key : (key : Text) (passphrase : Option Text) → SshAuth

pub record HostKeyInfo : Type 0 where
  pub algorithm : Text
  pub fingerprint : Text

pub data SessionState : Type 0 where
  idle connecting connected closed error : SessionState

-- `key.readUInt32BE(0)`; the caller has checked that there are four bytes.
unfoldable pub read_uint32_be : List ℕ → ℕ
read_uint32_be (a ∷ b ∷ c ∷ d ∷ rest) = ((a * 256 + b) * 256 + c) * 256 + d
read_uint32_be _ = 0

-- `toString('ascii')` of Node drops the highest bit of each byte.
unfoldable pub ascii : List ℕ → Text
ascii bytes = map (λ b. b % 128) bytes

unfoldable pub key_algorithm : List ℕ → Text
unfolding read_uint32_be ascii
key_algorithm key =
    let len = read_uint32_be key in
    if ltb (length key) 4
    then []
    else if (len == 0) || ltb (length key) (4 + len)
    then []
    else ascii (take len (drop 4 key))

-- What the client emits while a session is open, and the call of `close()`.
pub data Event : Type 0 where
  ready : Event
  error : Text → Event
  close : Event
  close_call : Event

-- Whether the promise of `open()` is settled, and how.
pub data Settled : Type 0 where
  pending : Settled
  resolved : Settled
  rejected : Text → Settled

pub record Session : Type 0 where
  pub state : SessionState
  pub opened : Settled

-- The state when `open()` has returned its promise.
abbrev pub opening : Session
opening = record { state = connecting; opened = pending }

-- The first settlement of a promise counts.
abbrev pub settle : Settled → Settled → Settled
settle pending s = s
settle resolved s = resolved
settle (rejected e) s = rejected e

abbrev pub after_close : SessionState → SessionState
after_close SessionState.error = SessionState.error
after_close idle = closed
after_close connecting = closed
after_close connected = closed
after_close closed = closed

-- The handlers of `open()`, and `close()`.
unfoldable pub handle : Event → Session → Session
handle ready s = record { state = connected; opened = settle s.opened resolved }
handle (Event.error e) s = record {
  state = SessionState.error;
  opened = settle s.opened (rejected e);
}
handle close s = record s { state = after_close s.state }
handle close_call s = record s { state = closed }

unfoldable pub handle_all : List Event → Session → Session
unfolding handle
handle_all [] s = s
handle_all (e ∷ es) s = handle_all es (handle e s)

-- The host verifier: without a callback the key is rejected; `none` is a callback that throws.
unfoldable pub host_verifier :
    Option (HostKeyInfo → Option Bool) → (fingerprint : List ℕ → Text) → List ℕ → Bool
unfolding key_algorithm
host_verifier none fingerprint key = false
host_verifier (some verify) fingerprint key =
    or_else (verify (record { algorithm = key_algorithm key; fingerprint = fingerprint key })) false

-- What a channel emits for a command, in order.
pub data Chunk : Type 0 where
  out err : List ℕ → Chunk

-- The handlers of `exec`: each chunk is decoded by itself and appended. The close event has the exit
-- code, `none` unless it is a number.
module _ (decode : List ℕ → Text) where
  unfoldable pub collect : List Chunk → Option ℕ → ExecResult → ExecResult
  collect [] code r = record r { exit_code = code }
  collect (out bytes ∷ chunks) code r =
      collect chunks code (record r { stdout = r.stdout ++ decode bytes })
  collect (err bytes ∷ chunks) code r =
      collect chunks code (record r { stderr = r.stderr ++ decode bytes })

  unfoldable pub exec_result : List Chunk → Option ℕ → ExecResult
  unfolding collect
  exec_result chunks code =
      collect chunks code (record { stdout = []; stderr = []; exit_code = none })

-- What `openPty` writes first, if a directory is given.
unfoldable pub first_input : Option Text → List Text
first_input none = []
first_input (some []) = []
first_input (some (c ∷ s)) = (codes "cd " ++ (quote (c ∷ s) ++ codes " 2>/dev/null; clear\n")) ∷ []
