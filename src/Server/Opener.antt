-- ===== src/Server/Opener.antt =====
-- packages/server/src/opener.ts: opening a session, with the check of the host's key.
pub mod Trust
pub mod Connecting
pub mod Entry
use desk_ssh.Base.{
  ◌≢◌, ℕ, List, [], ◌∷◌, ◌++◌, Bool, true, false, ◌&&◌, Option, none, some, or_else, if◌then◌else◌,
}
use desk_ssh.Js.Text.{Text, codes, text_eq, trim, text_or}
use desk_ssh.Js.Number.{show}
use desk_ssh.Core.Session.{SshAuth, HostKeyInfo}
use desk_ssh.Server.KnownHosts.{KnownHosts, known, trust}

pub record ConnectRequest : Type 0 where
  pub host : Text
  pub port : Option ℕ
  pub username : Text
  pub auth : SshAuth
  pub trust_fingerprint : Option Text

pub data Rejection : Type 0 where
  unknown mismatch : Rejection

-- Whether an optional string is truthy: it is there and not empty.
abbrev pub truthy : Option Text → Option Text
truthy none = none
truthy (some []) = none
truthy (some (c ∷ s)) = some (c ∷ s)

-- The `verifyHostKey` callback: its answer, and why it rejects.
unfoldable pub verify_host_key : Option Text → Option Text → HostKeyInfo → Bool × Option Rejection
unfolding text_eq
verify_host_key known confirmed info = elim (truthy known) [
  | some k ↦ if text_eq info.fingerprint k then (true, none) else (false, some mismatch)
  | none ↦ elim (truthy confirmed) [
    | some c ↦ if text_eq c info.fingerprint then (true, none) else (false, some unknown)
    | none ↦ (false, some unknown)
  ]
]

-- How a connection attempt ends: the error is a host key to confirm, a changed key, or the client's.
pub data ConnectError : Type 0 where
  host_key_unknown : (fingerprint algorithm : Text) → ConnectError
  host_key_mismatch : (fingerprint expected : Text) → ConnectError
  other_error : Text → ConnectError

unfoldable pub host_port : ConnectRequest → Text
unfolding show
host_port req = req.host ++ (codes ":" ++ show (or_else req.port 22))

-- The SSH client: the key that the host presents, if it comes so far, and the error that it ends
-- with for each answer of the verifier (`none` where it was not asked), `none` if it connects.
pub record Client : Type 0 where
  pub presented : Option HostKeyInfo
  pub failure : Option Bool → Option Text

-- The client does as its documentation says: a rejected key ends the handshake with an error, and no
-- connection is made without asking.
pub record IsStrict (client : Client) : Type 0 where
  pub rejected : client.failure (some false) ≢ none
  pub unasked : client.failure none ≢ none

unfoldable pub verdict :
    Option Text → Option Text → Option HostKeyInfo → Option (Bool × Option Rejection)
verdict known confirmed none = none
verdict known confirmed (some info) = some (verify_host_key known confirmed info)

-- The `catch` of the connection: a rejection becomes a typed error.
unfoldable pub translate :
    Option Text → Option HostKeyInfo → Option (Bool × Option Rejection) → Text → ConnectError
translate known (some info) (some (answer, some unknown)) err =
    host_key_unknown info.fingerprint info.algorithm
translate known (some info) (some (answer, some mismatch)) err = elim (truthy known) [
  | some k ↦ host_key_mismatch info.fingerprint k
  | none ↦ other_error err
]
translate known _ _ err = other_error err

abbrev pub answer_of : Option (Bool × Option Rejection) → Option Bool
answer_of none = none
answer_of (some v) = some v.0

-- What is stored when the session is accepted: a key that was not known.
unfoldable pub accept : Text → Option Text → Option HostKeyInfo → KnownHosts → KnownHosts
accept host known none store = store
accept host known (some info) store = elim (truthy known) [
  | some k ↦ store
  | none ↦ trust host info.fingerprint store
]

-- The connection of `createSshOpener`: the error, or `none` if the session is open, and the store.
unfoldable pub connect : Client → ConnectRequest → KnownHosts → Option ConnectError × KnownHosts
connect client req store =
    let old = known (host_port req) store in
    let v = verdict old req.trust_fingerprint client.presented in
    elim (client.failure (answer_of v)) [
      | some err ↦ (some (translate old client.presented v err), store)
      | none ↦ (none, accept (host_port req) old client.presented store)
    ]
