-- ===== src/Web/Login.antt =====
-- packages/web/src/App.tsx and packages/web/src/features/login/LoginForm.tsx: logging in, and the
-- question about an unknown host key. A response arrives as an event that names its request. `sent` and
-- `shown` record the requests and the questions, the last one first.
pub mod Trust
pub mod Reaching
use desk_ssh.Base.{
  ℕ, zero, Bool, true, false, List, [], ◌∷◌, Option, none, some, is_some, if◌then◌else◌, ◌≡◌, ◌⊎◌,
}
use desk_ssh.Js.Text.{Text, trim, non_empty}
use desk_ssh.Js.Number.{Num, nan, infinity, ratio}
use desk_ssh.Core.Session.{SshAuth, password, private_key}
use desk_ssh.Server.Manager.{SessionInfo}
use desk_ssh.Web.Client.{ConnectInput}

pub data Method : Type 0 where
  by_password by_key : Method

-- The fields of the form.
pub record Form : Type 0 where
  pub host : Text
  pub port : Text
  pub username : Text
  pub method : Method
  pub secret : Text
  pub key_text : Text
  pub passphrase : Text

abbrev pub form_auth : Method → Form → SshAuth
form_auth by_password f = password f.secret
form_auth by_key f =
    private_key f.key_text (if non_empty f.passphrase then some f.passphrase else none)

-- `Number(port) || 22`.
abbrev pub port_or_22 : Num → Num
port_or_22 nan = ratio false 22 1
port_or_22 (infinity neg) = infinity neg
port_or_22 (ratio neg zero d) = ratio false 22 1
port_or_22 (ratio neg n d) = ratio neg n d

unfoldable pub handle_submit : (Text → Num) → Form → ConnectInput
unfolding trim
handle_submit to_number f = record {
  host = trim f.host;
  port = some (port_or_22 (to_number f.port));
  username = trim f.username;
  auth = form_auth f.method f;
  trust_fingerprint = none;
}

pub record HostKeyPrompt : Type 0 where
  pub fingerprint : Text
  pub algorithm : Text

pub data ConnectResult : Type 0 where
  connected : SessionInfo → ConnectResult
  verify_host_key : HostKeyPrompt → ConnectResult

pub record App : Type 0 where
  pub session : Option SessionInfo
  pub busy : Bool
  pub error : Option Text
  pub host_key : Option HostKeyPrompt
  pub pending : Option ConnectInput
  pub sent : List ConnectInput
  pub shown : List (ConnectInput × HostKeyPrompt)
  pub ended : List Text

abbrev pub initial : App
initial = record {
  session = none;
  busy = false;
  error = none;
  host_key = none;
  pending = none;
  sent = [];
  shown = [];
  ended = [];
}

unfoldable pub attempt : ConnectInput → App → App
attempt input s = record s { busy = true; error = none; sent = input ∷ s.sent }

-- The response to an attempt, with `finally`.
unfoldable pub responded : ConnectInput → ConnectResult → App → App
responded input (connected info) s = record s { session = some info; busy = false }
responded input (verify_host_key prompt) s = record s {
  pending = some input;
  host_key = some prompt;
  busy = false;
  shown = (input, prompt) ∷ s.shown;
}

unfoldable pub attempt_failed : Text → App → App
attempt_failed message s = record s { error = some message; busy = false }

abbrev pub trusting : HostKeyPrompt → ConnectInput → ConnectInput
trusting prompt input = record input { trust_fingerprint = some prompt.fingerprint }

abbrev pub confirmed : Option ConnectInput → Option HostKeyPrompt → App → App
confirmed (some input) (some prompt) s =
    attempt (trusting prompt input) (record s { host_key = none; pending = none })
confirmed _ _ s = s

unfoldable pub confirm_host_key : App → App
unfolding attempt
confirm_host_key s = confirmed s.pending s.host_key s

unfoldable pub cancel_host_key : App → App
cancel_host_key s = record s { host_key = none; pending = none }

abbrev pub ended_session : Option SessionInfo → List Text → List Text
ended_session none ended = ended
ended_session (some info) ended = info.session_id ∷ ended

unfoldable pub handle_disconnect : App → App
handle_disconnect s = record s { session = none; ended = ended_session s.session s.ended }

pub data Event : Type 0 where
  submitted : Form → Event
  answered : ConnectInput → ConnectResult → Event
  refused : Text → Event
  trusted rejected disconnected : Event

unfoldable pub step : (Text → Num) → Event → App → App
unfolding handle_submit attempt responded attempt_failed confirm_host_key cancel_host_key
    handle_disconnect
step to_number (submitted form) s = attempt (handle_submit to_number form) s
step to_number (answered input result) s = responded input result s
step to_number (refused message) s = attempt_failed message s
step to_number trusted s = confirm_host_key s
step to_number rejected s = cancel_host_key s
step to_number disconnected s = handle_disconnect s

-- The state behind any events.
abbrev pub run_all : (Text → Num) → List Event → App → App
run_all to_number [] s = s
run_all to_number (e ∷ es) s = run_all to_number es (step to_number e s)
