-- ===== src/Server/Gateway/Refusals.antt =====
-- packages/server/src/gateway.ts: the status of every request that the gateway refuses to act on.
use desk_ssh.Base.{
  ℕ, ◌≤◌, ◌<◌, List, [], ◌∷◌, Bool, true, false, Option, none, some, if◌then◌else◌, ◌≡◌, arith,
}
use mathlib.Core.Path.{subst}
use desk_ssh.Js.Text.{Text, codes, text_eq}
use desk_ssh.Js.Json.{Json, null, boolean, number, string, array, object}
use desk_ssh.Js.Number.{Num}
use desk_ssh.Core.Types.{
  Call, make_dir, create_file, move, copy, remove, write_file, signal_process, service_action,
}
use desk_ssh.Js.Number.{pos}
use desk_ssh.Core.Session.{SshAuth}
use desk_ssh.Server.Manager.{SessionEntry, Manager, get}
use desk_ssh.Server.Gateway.Body.{
  Checked, good, bad, and_then, property_of, text_of, required, as_string, allowed_only, chosen,
  as_one_of, choose, Elevate, elevate_required, first_of, as_current, as_user, parse_elevate,
  auth_required, as_password, as_private_key, parse_auth, known_session, require_session,
}
use desk_ssh.Server.Gateway.Routes.{
  Plan, health, close_session, positive_integer, pid_required, elevated, on_path, on_two, signals,
  actions, Route, listdir, metrics, readfile, writefile, mkdir, createfile, move_route, copy_route,
  remove_route, processes, signal, service, privilege_route, systeminfo, transparency_route,
  session_routes, session_ask, connect_request, route_plan, decide,
}

-- If the value was refused, the status is that of an error.
abbrev pub IsRefusal {ℓ} : {A : Type ℓ} → Checked A → Type 0
IsRefusal (good a) = Unit
IsRefusal (bad status message) = (400 ≤ status) × (status < 600)

and_then-IsRefusal :
    {A B : Type 0} (x : Checked A) (k : A → Checked B)
    → IsRefusal x
    → ((a : A) → IsRefusal (k a))
    → IsRefusal (and_then x k)
and_then-IsRefusal (good a) k hx h = h a
and_then-IsRefusal (bad status message) k hx h = hx

property_of-IsRefusal : (key : Text) (body : Json) → IsRefusal (property_of key body)
unfolding property_of
property_of-IsRefusal key null = omega arith
property_of-IsRefusal key (boolean b) = tt
property_of-IsRefusal key (number n) = tt
property_of-IsRefusal key (string s) = tt
property_of-IsRefusal key (array items) = tt
property_of-IsRefusal key (object o) = tt

property_then :
    {B : Type 0} (key : Text) (body : Json) (k : Option Json → Checked B)
    → ((v : Option Json) → IsRefusal (k v))
    → IsRefusal (and_then (property_of key body) k)
property_then key body k h =
    and_then-IsRefusal (property_of key body) k (property_of-IsRefusal key body) h

required-IsRefusal : (key : Text) (v : Option Text) → IsRefusal (required key v)
required-IsRefusal key none = omega arith
required-IsRefusal key (some []) = omega arith
required-IsRefusal key (some (c ∷ s)) = tt

as_string-IsRefusal : (body : Json) (key : Text) → IsRefusal (as_string body key)
unfolding as_string
as_string-IsRefusal body key = property_then key body _ (λ v. required-IsRefusal key (text_of v))

string_then :
    {B : Type 0} (key : Text) (body : Json) (k : Text → Checked B)
    → ((s : Text) → IsRefusal (k s))
    → IsRefusal (and_then (as_string body key) k)
string_then key body k h =
    and_then-IsRefusal (as_string body key) k (as_string-IsRefusal body key) h

module _ {A : Type 0} (key : Text) (table : List (Text × A)) where
  allowed_only-IsRefusal : (o : Option A) → IsRefusal (allowed_only key table o)
  allowed_only-IsRefusal none = omega arith
  allowed_only-IsRefusal (some a) = tt

  as_one_of-IsRefusal : (body : Json) → IsRefusal (as_one_of body key table)
  unfolding as_one_of
  as_one_of-IsRefusal body =
      property_then key body _ (λ v. allowed_only-IsRefusal (chosen table (text_of v)))

elevate_required-IsRefusal : (e : Option Elevate) → IsRefusal (elevate_required e)
elevate_required-IsRefusal none = omega arith
elevate_required-IsRefusal (some e) = tt

parse_elevate-IsRefusal : (v : Option Json) → IsRefusal (parse_elevate v)
unfolding parse_elevate
parse_elevate-IsRefusal none = tt
parse_elevate-IsRefusal (some null) = tt
parse_elevate-IsRefusal (some (object o)) =
    elevate_required-IsRefusal (first_of (as_current o) (as_user o))
parse_elevate-IsRefusal (some (array items)) = omega arith
parse_elevate-IsRefusal (some (boolean b)) = omega arith
parse_elevate-IsRefusal (some (number n)) = omega arith
parse_elevate-IsRefusal (some (string s)) = omega arith

auth_required-IsRefusal : (a : Option SshAuth) → IsRefusal (auth_required a)
auth_required-IsRefusal none = omega arith
auth_required-IsRefusal (some a) = tt

parse_auth-IsRefusal : (v : Option Json) → IsRefusal (parse_auth v)
unfolding parse_auth
parse_auth-IsRefusal none = omega arith
parse_auth-IsRefusal (some (object o)) =
    auth_required-IsRefusal (first_of (as_password o) (as_private_key o))
parse_auth-IsRefusal (some (array items)) = omega arith
parse_auth-IsRefusal (some null) = omega arith
parse_auth-IsRefusal (some (boolean b)) = omega arith
parse_auth-IsRefusal (some (number n)) = omega arith
parse_auth-IsRefusal (some (string s)) = omega arith

pid_required-IsRefusal : (o : Option ℕ) → IsRefusal (pid_required o)
pid_required-IsRefusal none = omega arith
pid_required-IsRefusal (some pid) = tt

known_session-IsRefusal : {S : Type 0} (o : Option (SessionEntry S)) → IsRefusal (known_session o)
known_session-IsRefusal none = omega arith
known_session-IsRefusal (some e) = tt

elevated-IsRefusal : (body : Json) (c : Call) → IsRefusal (elevated body c)
elevated-IsRefusal body c =
    property_then (codes "elevate") body _
      (λ v. and_then-IsRefusal (parse_elevate v) _ (parse_elevate-IsRefusal v) (λ e. tt))

on_path-IsRefusal : (body : Json) (call : Text → Call) → IsRefusal (on_path body call)
on_path-IsRefusal body call =
    string_then (codes "path") body _ (λ path. elevated-IsRefusal body (call path))

on_two-IsRefusal : (body : Json) (call : Text → Text → Call) → IsRefusal (on_two body call)
on_two-IsRefusal body call =
    string_then (codes "from") body _
      (λ from. string_then (codes "to") body _ (λ to. elevated-IsRefusal body (call from to)))

connect_request-IsRefusal :
    (S : Type 0) (to_number : Option Json → Num) (decode : Text → List ℕ) (body : Json)
    → IsRefusal (connect_request {S = S} to_number decode body)
unfolding connect_request
connect_request-IsRefusal S to_number decode body = property_then (codes "auth") body _ (λ a.
    and_then-IsRefusal (parse_auth a) _ (parse_auth-IsRefusal a) (λ auth.
      string_then (codes "host") body _ (λ host. property_then (codes "port") body _ (λ port.
        string_then (codes "username") body _
          (λ username. property_then (codes "trustFingerprint") body _ (λ trust. tt))))))

module _ {S : Type 0} (to_number : Option Json → Num) (decode : Text → List ℕ) where
  session_ask-IsRefusal :
      (r : Route) (entry : SessionEntry S) (body : Json)
      → IsRefusal (session_ask to_number decode r entry body)
  unfolding session_ask
  session_ask-IsRefusal listdir entry body = property_then (codes "path") body _ (λ v. tt)
  session_ask-IsRefusal metrics entry body = tt
  session_ask-IsRefusal readfile entry body = string_then (codes "path") body _ (λ path. tt)
  session_ask-IsRefusal writefile entry body =
      string_then (codes "base64") body _
        (λ base64. on_path-IsRefusal body (λ path. write_file path (decode base64)))
  session_ask-IsRefusal mkdir entry body = on_path-IsRefusal body make_dir
  session_ask-IsRefusal createfile entry body = on_path-IsRefusal body create_file
  session_ask-IsRefusal move_route entry body = on_two-IsRefusal body move
  session_ask-IsRefusal copy_route entry body = on_two-IsRefusal body copy
  session_ask-IsRefusal remove_route entry body = on_path-IsRefusal body remove
  session_ask-IsRefusal processes entry body = tt
  session_ask-IsRefusal signal entry body = property_then (codes "pid") body _ (λ v.
      and_then-IsRefusal (pid_required (positive_integer (to_number v))) _
        (pid_required-IsRefusal (positive_integer (to_number v)))
        (λ pid.
          and_then-IsRefusal (as_one_of body (codes "signal") signals) _
            (as_one_of-IsRefusal (codes "signal") signals body)
            (λ s. elevated-IsRefusal body (signal_process (pos pid) s))))
  session_ask-IsRefusal service entry body = string_then (codes "name") body _ (λ name.
      and_then-IsRefusal (as_one_of body (codes "action") actions) _
        (as_one_of-IsRefusal (codes "action") actions body)
        (λ a. elevated-IsRefusal body (service_action name a)))
  session_ask-IsRefusal privilege_route entry body = tt
  session_ask-IsRefusal systeminfo entry body = tt
  session_ask-IsRefusal transparency_route entry body = tt

module _ {S : Type 0} (to_number : Option Json → Num) (decode : Text → List ℕ) (manager : Manager S)
    (body : Json) where
  require_session-IsRefusal : IsRefusal (require_session manager body)
  unfolding require_session
  require_session-IsRefusal =
      string_then (codes "sessionId") body _ (λ id. known_session-IsRefusal (get id manager))

  route_plan-IsRefusal :
      (route : Text) (r : Option Route)
      → IsRefusal (route_plan to_number decode route manager body r)
  route_plan-IsRefusal route none = omega arith
  route_plan-IsRefusal route (some r) =
      and_then-IsRefusal (require_session manager body) _ (require_session-IsRefusal) (λ entry.
        and_then-IsRefusal (session_ask to_number decode r entry body) _
          (session_ask-IsRefusal to_number decode r entry body) (λ ask. tt))

  if-IsRefusal :
      (b : Bool) (x y : Checked (Plan S))
      → IsRefusal x
      → IsRefusal y
      → IsRefusal (if b then x else y)
  if-IsRefusal true x y hx hy = hx
  if-IsRefusal false x y hx hy = hy

  decide_all-IsRefusal : (route : Text) → IsRefusal (decide to_number decode route manager body)
  unfolding decide
  decide_all-IsRefusal route =
      if-IsRefusal (text_eq route (codes "GET /api/health")) (good health) _ tt (
        if-IsRefusal (text_eq route (codes "POST /api/connect"))
          (connect_request to_number decode body) _
          (connect_request-IsRefusal S to_number decode body)
          (if-IsRefusal (text_eq route (codes "POST /api/disconnect"))
            (and_then (as_string body (codes "sessionId")) (λ id. good (close_session id))) _
            (string_then (codes "sessionId") body _ (λ id. tt))
            (route_plan-IsRefusal route (choose route session_routes))))

  pub decide-IsRefusal :
      (route message : Text) (status : ℕ)
      → decide to_number decode route manager body ≡ bad status message
      → (400 ≤ status) × (status < 600)
  decide-IsRefusal route message status h = subst IsRefusal h (decide_all-IsRefusal route)
