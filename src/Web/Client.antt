-- ===== src/Web/Client.antt =====
-- packages/web/src/api/gateway.ts: the requests of the browser. `fetch`, `JSON.stringify` and
-- `res.json()` are not part of the program: a request is its path and the value that is sent, a
-- response its status and the value that was read.
pub mod Laws
pub mod RoundTrip
pub mod Errors
pub mod Life
use desk_ssh.Base.{
  ℕ, Bool, true, false, Option, none, some, List, [], ◌∷◌, ◌++◌, if◌then◌else◌, leb, ltb, ◌&&◌,
}
use desk_ssh.Js.Text.{Text, codes}
use desk_ssh.Js.Number.{ℤ, Num, nan, infinity, ratio, show, show_int}
use desk_ssh.Js.Json.{Json, null, number, string, object, Fields, no_fields, field}
use desk_ssh.Core.Exec.{Outcome, done, threw}
use desk_ssh.Core.Types.{ProcessSignal, term, kill, hup, ServiceAction, start, stop, restart}
use desk_ssh.Core.Session.{SshAuth, password, private_key}
use desk_ssh.Server.Gateway.Body.{Elevate, current, user, field_of}

-- `ConnectInput`.
pub record ConnectInput : Type 0 where
  pub host : Text
  pub port : Option Num
  pub username : Text
  pub auth : SshAuth
  pub trust_fingerprint : Option Text

-- A field whose value is `undefined` is not sent.
abbrev pub optional : Text → Option Json → Fields → Fields
optional key none rest = rest
optional key (some v) rest = field key v rest

abbrev pub map_json : {A : Type 0} → (A → Json) → Option A → Option Json
map_json f none = none
map_json f (some a) = some (f a)

unfoldable pub elevate_json : Elevate → Json
elevate_json (current secret) = object (
    field (codes "kind") (string (codes "current"))
      (field (codes "password") (string secret) no_fields))
elevate_json (user name secret) = object (
    field (codes "kind") (string (codes "user"))
      (field (codes "user") (string name) (field (codes "password") (string secret) no_fields)))

unfoldable pub auth_json : SshAuth → Json
auth_json (password p) = object (
    field (codes "kind") (string (codes "password"))
      (field (codes "password") (string p) no_fields))
auth_json (private_key key passphrase) = object (
    field (codes "kind") (string (codes "privateKey")) (
      field (codes "privateKey") (string key)
        (optional (codes "passphrase") (map_json string passphrase) no_fields)))

-- A number, which is printed by `show_number`; JSON has none that is not finite.
abbrev pub number_json : (Num → Text) → Num → Json
number_json show_number nan = null
number_json show_number (infinity neg) = null
number_json show_number (ratio neg n d) = number (show_number (ratio neg n d))

unfoldable pub connect_body : (Num → Text) → ConnectInput → Json
unfolding auth_json
connect_body show_number input = object (
    field (codes "host") (string input.host) (
      optional (codes "port") (map_json (number_json show_number) input.port) (
        field (codes "username") (string input.username) (
          field (codes "auth") (auth_json input.auth) (
            optional (codes "trustFingerprint") (map_json string input.trust_fingerprint)
              no_fields)))))

abbrev pub signal_word : ProcessSignal → Text
signal_word term = codes "TERM"
signal_word kill = codes "KILL"
signal_word hup = codes "HUP"

abbrev pub action_word : ServiceAction → Text
action_word start = codes "start"
action_word stop = codes "stop"
action_word restart = codes "restart"

-- The functions that are called with a session id, and their other arguments.
pub data ClientCall : Type 0 where
  list_dir : (path : Option Text) → ClientCall
  system_metrics list_processes get_privilege get_system_info get_transparency : ClientCall
  read_file : (path : Text) → ClientCall
  write_file : (path base64 : Text) (elevate : Option Elevate) → ClientCall
  make_dir create_file remove_path : (path : Text) (elevate : Option Elevate) → ClientCall
  move_path copy_path : (from to : Text) (elevate : Option Elevate) → ClientCall
  signal_process : (pid : ℤ) (signal : ProcessSignal) (elevate : Option Elevate) → ClientCall
  service_action : (name : Text) (action : ServiceAction) (elevate : Option Elevate) → ClientCall

unfoldable pub call_path : ClientCall → Text
call_path (list_dir path) = codes "/api/listdir"
call_path system_metrics = codes "/api/metrics"
call_path (read_file path) = codes "/api/readfile"
call_path (write_file path base64 e) = codes "/api/writefile"
call_path (make_dir path e) = codes "/api/mkdir"
call_path (create_file path e) = codes "/api/createfile"
call_path (move_path from to e) = codes "/api/move"
call_path (copy_path from to e) = codes "/api/copy"
call_path (remove_path path e) = codes "/api/remove"
call_path list_processes = codes "/api/processes"
call_path (signal_process pid s e) = codes "/api/signal"
call_path (service_action name a e) = codes "/api/service"
call_path get_privilege = codes "/api/privilege"
call_path get_system_info = codes "/api/systeminfo"
call_path get_transparency = codes "/api/transparency"

-- `...(elevate ? { elevate } : {})`, at the end of a body.
abbrev pub elevate_field : Option Elevate → Fields
elevate_field none = no_fields
elevate_field (some e) = field (codes "elevate") (elevate_json e) no_fields

abbrev path_fields : Text → Option Elevate → Fields
path_fields path e = field (codes "path") (string path) (elevate_field e)

abbrev two_fields : Text → Text → Option Elevate → Fields
two_fields from to e =
    field (codes "from") (string from) (field (codes "to") (string to) (elevate_field e))

-- The fields behind the session id.
unfoldable pub call_fields : ClientCall → Fields
unfolding elevate_json show_int
call_fields (list_dir path) = optional (codes "path") (map_json string path) no_fields
call_fields (read_file path) = field (codes "path") (string path) no_fields
call_fields (write_file path base64 e) =
    field (codes "path") (string path) (field (codes "base64") (string base64) (elevate_field e))
call_fields (make_dir path e) = path_fields path e
call_fields (create_file path e) = path_fields path e
call_fields (remove_path path e) = path_fields path e
call_fields (move_path from to e) = two_fields from to e
call_fields (copy_path from to e) = two_fields from to e
call_fields (signal_process pid s e) =
    field (codes "pid") (number (show_int pid))
      (field (codes "signal") (string (signal_word s)) (elevate_field e))
call_fields (service_action name a e) =
    field (codes "name") (string name)
      (field (codes "action") (string (action_word a)) (elevate_field e))
call_fields other = no_fields

unfoldable pub call_body : Text → ClientCall → Json
unfolding call_fields
call_body session_id c = object (field (codes "sessionId") (string session_id) (call_fields c))

-- `disconnect`.
unfoldable pub disconnect_body : Text → Json
disconnect_body session_id = object (field (codes "sessionId") (string session_id) no_fields)

-- A response: its status, and the value of its body, `none` where it is not JSON.
pub record Response : Type 0 where
  pub status : ℕ
  pub body : Option Json

-- `'error' in data` of an object, with its value.
abbrev pub error_of : Option Json → Option Json
error_of (some (object fields)) = field_of (codes "error") fields
error_of other = none

abbrev pub message_of : (Json → Text) → ℕ → Option Json → Text
message_of to_string status (some e) = to_string e
message_of to_string status none = codes "Request failed (" ++ (show status ++ codes ")")

-- `await res.json().catch(() => ({}))`.
abbrev pub value_of : Option Json → Json
value_of none = object no_fields
value_of (some v) = v

-- `res.ok`.
abbrev pub is_ok : ℕ → Bool
is_ok status = leb 200 status && ltb status 300

-- What `post` returns or throws; `to_string` is `String`.
unfoldable pub post_result : (Json → Text) → Response → Outcome Json
unfolding field_of show
post_result to_string res =
    if is_ok res.status
    then done (value_of res.body)
    else threw (message_of to_string res.status (error_of res.body))
