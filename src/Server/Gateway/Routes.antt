-- ===== src/Server/Gateway/Routes.antt =====
-- packages/server/src/gateway.ts: `handle`, up to the call that it makes. `Number` is a parameter, and
-- so is the decoding of base64.
use desk_ssh.Base.{
  ℕ, ◌/◌, ◌%◌, List, [], ◌∷◌, ◌++◌, false, ◌&&◌, Option, none, some, ltb, ◌==◌, if◌then◌else◌,
}
use desk_ssh.Js.Text.{Text, codes, text_eq, text_or}
use desk_ssh.Js.Number.{pos, Num, ratio}
use desk_ssh.Core.Types.{
  Call, list_dir, read_file, write_file, make_dir, create_file, move, copy, remove, system_metrics,
  system_info, list_processes, signal_process, service_action, ProcessSignal, term, kill, hup,
  ServiceAction, start, stop, restart,
}
use desk_ssh.Core.Session.{SshAuth}
use desk_ssh.Server.Manager.{SessionEntry, Manager}
use desk_ssh.Js.Json.{Json}
use desk_ssh.Server.Gateway.Body.{
  Checked, good, bad, and_then, property_of, text_of, as_string, as_one_of, choose, Elevate,
  parse_elevate, parse_auth, require_session,
}

-- What a request asks for: nothing of a session, a new session, the end of one, or something of a
-- live session.
pub data Ask : Type 0 where
  capability : Call → Option Elevate → Ask
  privilege : Ask
  transparency : Ask

pub data Plan (S : Type 0) : Type 0 where
  health : Plan S
  open_session :
      (host : Text) (port : Option Num) (username : Text) (auth : SshAuth) (trust : Option Text)
      → Plan S
  close_session : (id : Text) → Plan S
  use_session : SessionEntry S → Ask → Plan S

abbrev pub signals : List (Text × ProcessSignal)
signals = (codes "TERM", term) ∷ (codes "KILL", kill) ∷ (codes "HUP", hup) ∷ []

abbrev pub actions : List (Text × ServiceAction)
actions = (codes "start", start) ∷ (codes "stop", stop) ∷ (codes "restart", restart) ∷ []

-- `Number.isInteger(pid) && pid > 0`, with the integer.
unfoldable pub positive_integer : Num → Option ℕ
positive_integer (ratio false n d) = if (n % d == 0) && ltb 0 (n / d) then some (n / d) else none
positive_integer other = none

abbrev pub pid_required : Option ℕ → Checked ℕ
pid_required (some pid) = good pid
pid_required none = bad 400 (codes "Invalid \"pid\"")

-- A call without elevation.
abbrev pub plain : Call → Checked Ask
plain c = good (capability c none)

-- A call through `runCap`, which reads the elevation first.
abbrev pub elevated : Json → Call → Checked Ask
elevated body c =
    and_then (property_of (codes "elevate") body)
      (λ v. and_then (parse_elevate v) (λ e. good (capability c e)))

abbrev pub on_path : Json → (Text → Call) → Checked Ask
on_path body call = and_then (as_string body (codes "path")) (λ path. elevated body (call path))

abbrev pub on_two : Json → (Text → Text → Call) → Checked Ask
on_two body call =
    and_then (as_string body (codes "from"))
      (λ from. and_then (as_string body (codes "to")) (λ to. elevated body (call from to)))

-- The routes of a live session.
pub data Route : Type 0 where
  listdir metrics readfile writefile mkdir createfile move_route copy_route remove_route processes :
      Route
  signal service privilege_route systeminfo transparency_route : Route

abbrev pub session_routes : List (Text × Route)
session_routes =
    (codes "POST /api/listdir", listdir)
    ∷ (codes "POST /api/metrics", metrics)
    ∷ (codes "POST /api/readfile", readfile)
    ∷ (codes "POST /api/writefile", writefile)
    ∷ (codes "POST /api/mkdir", mkdir)
    ∷ (codes "POST /api/createfile", createfile)
    ∷ (codes "POST /api/move", move_route)
    ∷ (codes "POST /api/copy", copy_route)
    ∷ (codes "POST /api/remove", remove_route)
    ∷ (codes "POST /api/processes", processes)
    ∷ (codes "POST /api/signal", signal)
    ∷ (codes "POST /api/service", service)
    ∷ (codes "POST /api/privilege", privilege_route)
    ∷ (codes "POST /api/systeminfo", systeminfo)
    ∷ (codes "POST /api/transparency", transparency_route)
    ∷ []

abbrev pub path_or : Text → Option Text → Text
path_or home none = home
path_or home (some path) = text_or path home

abbrev pub port_number : (Option Json → Num) → Option Json → Option Num
port_number to_number none = none
port_number to_number (some v) = some (to_number (some v))

module _ {S : Type 0} (to_number : Option Json → Num) (decode : Text → List ℕ) where
  -- What a route asks of its session, after the checks of the other fields in the source's order.
  unfoldable pub session_ask : Route → SessionEntry S → Json → Checked Ask
  unfolding property_of as_string as_one_of parse_elevate positive_integer
  session_ask listdir entry body =
      and_then (property_of (codes "path") body)
        (λ v. plain (list_dir (path_or entry.entry.home (text_of v))))
  session_ask metrics entry body = plain system_metrics
  session_ask readfile entry body =
      and_then (as_string body (codes "path")) (λ path. plain (read_file path))
  session_ask writefile entry body =
      and_then (as_string body (codes "base64"))
        (λ base64. on_path body (λ path. write_file path (decode base64)))
  session_ask mkdir entry body = on_path body make_dir
  session_ask createfile entry body = on_path body create_file
  session_ask move_route entry body = on_two body move
  session_ask copy_route entry body = on_two body copy
  session_ask remove_route entry body = on_path body remove
  session_ask processes entry body = plain list_processes
  session_ask signal entry body = and_then (property_of (codes "pid") body) (λ v.
      and_then (pid_required (positive_integer (to_number v))) (λ pid.
        and_then (as_one_of body (codes "signal") signals)
          (λ s. elevated body (signal_process (pos pid) s))))
  session_ask service entry body = and_then (as_string body (codes "name")) (λ name.
      and_then (as_one_of body (codes "action") actions)
        (λ a. elevated body (service_action name a)))
  session_ask privilege_route entry body = good privilege
  session_ask systeminfo entry body = plain system_info
  session_ask transparency_route entry body = good transparency

  -- The request of a new session: the authentication is checked first.
  unfoldable pub connect_request : Json → Checked (Plan S)
  unfolding property_of as_string parse_auth
  connect_request body = and_then (property_of (codes "auth") body) (λ a.
      and_then (parse_auth a) (λ auth. and_then (as_string body (codes "host")) (λ host.
        and_then (property_of (codes "port") body) (λ port.
          and_then (as_string body (codes "username")) (λ username.
            and_then (property_of (codes "trustFingerprint") body) (λ trust.
              good
                (open_session host (port_number to_number port) username auth (text_of trust))))))))

  abbrev pub in_session : Manager S → Json → Route → Checked (Plan S)
  in_session manager body route =
      and_then (require_session manager body)
        (λ entry. and_then (session_ask route entry body) (λ ask. good (use_session entry ask)))

  abbrev pub route_plan : Text → Manager S → Json → Option Route → Checked (Plan S)
  route_plan route manager body (some r) = in_session manager body r
  route_plan route manager body none = bad 404 (codes "No route for " ++ route)

  -- `handle`, for a route that is not served from the files of the web application.
  unfoldable pub decide : Text → Manager S → Json → Checked (Plan S)
  unfolding text_eq connect_request session_ask require_session
  decide route manager body =
      if text_eq route (codes "GET /api/health")
      then good health
      else if text_eq route (codes "POST /api/connect")
      then connect_request body
      else if text_eq route (codes "POST /api/disconnect")
      then and_then (as_string body (codes "sessionId")) (λ id. good (close_session id))
      else route_plan route manager body (choose route session_routes)
