-- ===== src/Web/Client/Laws.antt =====
-- packages/web/src/api/gateway.ts against packages/server/src/gateway.ts: what the browser sends is
-- what the gateway reads.
use desk_ssh.Base.{ℕ, ◌<◌, List, [], ◌∷◌, ◌++◌, Option, none, some, ◌≡◌, ◌≢◌, refl}
use desk_ssh.Js.Text.{Text, codes, text_eq}
use desk_ssh.Js.Number.{pos, negsuc, Num}
use desk_ssh.Js.Json.{Json}
use desk_ssh.Core.Types.{ProcessSignal, ServiceAction, term, kill, hup, start, stop, restart}
use desk_ssh.Core.Types
use desk_ssh.Core.Session.{SshAuth, password, private_key}
use desk_ssh.Server.Manager.{SessionEntry, Manager, get}
use desk_ssh.Server.Gateway.Body.{
  good, field_of, property_of, required, as_string, choose, Elevate, current, user, parse_elevate,
  parse_auth, require_session,
}
use desk_ssh.Server.Gateway.Routes.{
  Ask, capability, privilege, transparency, elevated, signals, actions, Route, decide, in_session,
  path_or, listdir, metrics, readfile, writefile, mkdir, createfile, move_route, copy_route,
  remove_route, processes, signal, service, privilege_route, systeminfo, transparency_route,
}
use desk_ssh.Web.Client.{
  elevate_json, auth_json, signal_word, action_word, ClientCall, call_path, elevate_field,
  call_body,
}
use desk_ssh.Web.Client.ClientCall.{
  list_dir, system_metrics, list_processes, get_privilege, get_system_info, get_transparency,
  read_file, write_file, make_dir, create_file, remove_path, move_path, copy_path, signal_process,
  service_action,
}

pub required_lem : (key s : Text) → s ≢ [] → required key (some s) ≡ good s
required_lem key [] n = absurd (n refl)
required_lem key (c ∷ s) n = refl

-- What the gateway reads of an elevation is the elevation that was sent.
parse_elevate-elevate_json : (e : Elevate) → parse_elevate (some (elevate_json e)) ≡ good (some e)
unfolding parse_elevate elevate_json field_of text_eq
parse_elevate-elevate_json (current secret) = refl
parse_elevate-elevate_json (user name secret) = refl

pub parse_auth-auth_json : (a : SshAuth) → parse_auth (some (auth_json a)) ≡ good a
unfolding parse_auth auth_json field_of text_eq
parse_auth-auth_json (password p) = refl
parse_auth-auth_json (private_key key none) = refl
parse_auth-auth_json (private_key key (some passphrase)) = refl

abbrev pub elevate_value : Option Elevate → Option Json
elevate_value none = none
elevate_value (some e) = some (elevate_json e)

parse_none : parse_elevate none ≡ good none
unfolding parse_elevate
parse_none = refl

pub elevate_field_lem :
    (v : Option Elevate) → field_of (codes "elevate") (elevate_field v) ≡ elevate_value v
unfolding field_of text_eq
elevate_field_lem none = refl
elevate_field_lem (some e) = refl

pub elevated_lem :
    (v : Option (Elevate)) (c : Types.Call) (body : Json)
    → property_of (codes "elevate") body ≡ good (elevate_value v)
    → elevated body c ≡ good (capability c v)
elevated_lem none c body h = rw (h, parse_none)
elevated_lem (some e) c body h = rw (h, parse_elevate-elevate_json e)

-- What a call asks of its session, in the words of the gateway.
unfoldable pub meaning : (Text → List ℕ) → Text → ClientCall → Ask
meaning decode home (list_dir path) = capability (Types.list_dir (path_or home path)) none
meaning decode home system_metrics = capability Types.system_metrics none
meaning decode home list_processes = capability Types.list_processes none
meaning decode home get_privilege = privilege
meaning decode home get_system_info = capability Types.system_info none
meaning decode home get_transparency = transparency
meaning decode home (read_file path) = capability (Types.read_file path) none
meaning decode home (write_file path base64 e) =
    capability (Types.write_file path (decode base64)) e
meaning decode home (make_dir path e) = capability (Types.make_dir path) e
meaning decode home (create_file path e) = capability (Types.create_file path) e
meaning decode home (remove_path path e) = capability (Types.remove path) e
meaning decode home (move_path from to e) = capability (Types.move from to) e
meaning decode home (copy_path from to e) = capability (Types.copy from to) e
meaning decode home (signal_process pid s e) = capability (Types.signal_process pid s) e
meaning decode home (service_action name a e) = capability (Types.service_action name a) e

-- What the gateway demands of the arguments: no empty text, and a positive process id.
abbrev pub IsSendable : ClientCall → Type 0
IsSendable (read_file path) = path ≢ []
IsSendable (write_file path base64 e) = (path ≢ []) × (base64 ≢ [])
IsSendable (make_dir path e) = path ≢ []
IsSendable (create_file path e) = path ≢ []
IsSendable (remove_path path e) = path ≢ []
IsSendable (move_path from to e) = (from ≢ []) × (to ≢ [])
IsSendable (copy_path from to e) = (from ≢ []) × (to ≢ [])
IsSendable (signal_process (pos n) s e) = 0 < n
IsSendable (signal_process (negsuc n) s e) = ⊥
IsSendable (service_action name a e) = name ≢ []
IsSendable other = Unit

pub signal_lem : (s : ProcessSignal) → choose (signal_word s) signals ≡ some s
unfolding choose text_eq
signal_lem term = refl
signal_lem kill = refl
signal_lem hup = refl

pub action_lem : (a : ServiceAction) → choose (action_word a) actions ≡ some a
unfolding choose text_eq
action_lem start = refl
action_lem stop = refl
action_lem restart = refl

unfoldable pub route_of : ClientCall → Route
route_of (list_dir path) = listdir
route_of system_metrics = metrics
route_of (read_file path) = readfile
route_of (write_file path base64 e) = writefile
route_of (make_dir path e) = mkdir
route_of (create_file path e) = createfile
route_of (move_path from to e) = move_route
route_of (copy_path from to e) = copy_route
route_of (remove_path path e) = remove_route
route_of list_processes = processes
route_of (signal_process pid s e) = signal
route_of (service_action name a e) = service
route_of get_privilege = privilege_route
route_of get_system_info = systeminfo
route_of get_transparency = transparency_route

module _ {S : Type 0} (to_number : Option Json → Num) (decode : Text → List ℕ)
    (manager : Manager S) where
  pub decide-in_session :
      (c : ClientCall) (body : Json)
      → decide to_number decode (codes "POST " ++ call_path c) manager body
        ≡ in_session to_number decode manager body (route_of c)
  unfolding decide choose text_eq call_path route_of
  decide-in_session (list_dir path) body = refl
  decide-in_session system_metrics body = refl
  decide-in_session (read_file path) body = refl
  decide-in_session (write_file path base64 e) body = refl
  decide-in_session (make_dir path e) body = refl
  decide-in_session (create_file path e) body = refl
  decide-in_session (move_path from to e) body = refl
  decide-in_session (copy_path from to e) body = refl
  decide-in_session (remove_path path e) body = refl
  decide-in_session list_processes body = refl
  decide-in_session (signal_process pid s e) body = refl
  decide-in_session (service_action name a e) body = refl
  decide-in_session get_privilege body = refl
  decide-in_session get_system_info body = refl
  decide-in_session get_transparency body = refl

  pub require_session-call_body :
      (id : Text) (c : ClientCall) (entry : SessionEntry S)
      → id ≢ []
      → get id manager ≡ some entry
      → require_session manager (call_body id c) ≡ good entry
  unfolding require_session as_string property_of call_body field_of text_eq
  require_session-call_body id c entry n h = rw (required_lem (codes "sessionId") id n, h)
