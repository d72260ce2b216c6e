-- ===== src/Web/Client/RoundTrip.antt =====
-- packages/web/src/api/gateway.ts against packages/server/src/gateway.ts: a whole request, from the
-- call of the browser to the decision of the gateway.
use desk_ssh.Base.{
  Bool, ℕ, ◌<◌, List, [], ◌++◌, Option, none, some, ◌≡◌, ◌≢◌, refl, ap, arith, false,
}
use desk_ssh.Js.Text.{Text, codes, text_eq}
use desk_ssh.Js.Number.{pos, negsuc, Num, nan, infinity, ratio, show, show_int}
use desk_ssh.Js.Json.{Json, number}
use desk_ssh.Core.Types
use desk_ssh.Core.Session.{SshAuth}
use desk_ssh.Server.Manager.{SessionEntry, Manager, get}
use desk_ssh.Server.Gateway.Body.{good, bad, field_of, property_of, as_string, as_one_of, Elevate}
use desk_ssh.Server.Gateway.Routes.{
  capability, on_path, on_two, use_session, open_session, positive_integer, session_ask,
  connect_request, decide,
}
use desk_ssh.Web.Client.{ConnectInput, connect_body, ClientCall, call_path, call_fields, call_body}
use desk_ssh.Web.Client.ClientCall.{
  list_dir, system_metrics, list_processes, get_privilege, get_system_info, get_transparency,
  read_file, write_file, make_dir, create_file, remove_path, move_path, copy_path, signal_process,
  service_action,
}
use desk_ssh.Web.Client.Laws.{
  required_lem, elevate_value, elevated_lem, elevate_field_lem, parse_auth-auth_json, meaning,
  IsSendable, signal_lem, action_lem, route_of, decide-in_session, require_session-call_body,
}

positive_integer_of : (n : ℕ) → 0 < n → positive_integer (ratio false n 1) ≡ some n
unfolding positive_integer
positive_integer_of n h = ground arith

module _ (body : Json) where
  on_path_lem :
      (call : Text → Types.Call) (path : Text) (e : Option Elevate)
      → as_string body (codes "path") ≡ good path
      → property_of (codes "elevate") body ≡ good (elevate_value e)
      → on_path body call ≡ good (capability (call path) e)
  on_path_lem call path e hp he = rw hp (elevated_lem e (call path) body he)

  on_two_lem :
      (call : Text → Text → Types.Call) (from to : Text) (e : Option Elevate)
      → as_string body (codes "from") ≡ good from
      → as_string body (codes "to") ≡ good to
      → property_of (codes "elevate") body ≡ good (elevate_value e)
      → on_two body call ≡ good (capability (call from to) e)
  on_two_lem call from to e hf ht he = rw (hf, ht) (elevated_lem e (call from to) body he)

-- A port, if there is one, is a finite number.
abbrev pub IsFinite : Option Num → Type 0
IsFinite none = Unit
IsFinite (some (ratio neg n d)) = Unit
IsFinite (some other) = ⊥

module _ {S : Type 0} (to_number : Option Json → Num) (decode : Text → List ℕ)
    (reads : (n : ℕ) → to_number (some (number (show n))) ≡ ratio false n 1) where
  session_ask-call_body :
      (id : Text) (c : ClientCall) (entry : SessionEntry S)
      → IsSendable c
      → session_ask to_number decode (route_of c) entry (call_body id c)
        ≡ good (meaning decode entry.entry.home c)
  unfolding session_ask show_int route_of meaning call_body call_fields property_of field_of text_eq
      as_string as_one_of
  session_ask-call_body id (list_dir none) entry h = refl
  session_ask-call_body id (list_dir (some path)) entry h = refl
  session_ask-call_body id system_metrics entry h = refl
  session_ask-call_body id list_processes entry h = refl
  session_ask-call_body id get_privilege entry h = refl
  session_ask-call_body id get_system_info entry h = refl
  session_ask-call_body id get_transparency entry h = refl
  session_ask-call_body id (read_file path) entry h = rw (required_lem (codes "path") path h) refl
  session_ask-call_body id (write_file path base64 e) entry (hp, hb) =
      rw (required_lem (codes "base64") base64 hb, required_lem (codes "path") path hp)
        (elevated_lem e (Types.write_file path (decode base64))
          (call_body id (write_file path base64 e)) (ap good (elevate_field_lem e)))
  session_ask-call_body id (make_dir path e) entry h =
      on_path_lem (call_body id (make_dir path e)) Types.make_dir path e
        (required_lem (codes "path") path h) (ap good (elevate_field_lem e))
  session_ask-call_body id (create_file path e) entry h =
      on_path_lem (call_body id (create_file path e)) Types.create_file path e
        (required_lem (codes "path") path h) (ap good (elevate_field_lem e))
  session_ask-call_body id (remove_path path e) entry h =
      on_path_lem (call_body id (remove_path path e)) Types.remove path e
        (required_lem (codes "path") path h) (ap good (elevate_field_lem e))
  session_ask-call_body id (move_path from to e) entry (hf, ht) =
      on_two_lem (call_body id (move_path from to e)) Types.move from to e
        (required_lem (codes "from") from hf) (required_lem (codes "to") to ht)
        (ap good (elevate_field_lem e))
  session_ask-call_body id (copy_path from to e) entry (hf, ht) =
      on_two_lem (call_body id (copy_path from to e)) Types.copy from to e
        (required_lem (codes "from") from hf) (required_lem (codes "to") to ht)
        (ap good (elevate_field_lem e))
  session_ask-call_body id (signal_process (negsuc n) s e) entry h = absurd h
  session_ask-call_body id (signal_process (pos pid) s e) entry h =
      rw (reads pid, positive_integer_of pid h, signal_lem s)
        (elevated_lem e (Types.signal_process (pos pid) s)
          (call_body id (signal_process (pos pid) s e)) (ap good (elevate_field_lem e)))
  session_ask-call_body id (service_action name a e) entry h =
      rw (required_lem (codes "name") name h, action_lem a)
        (elevated_lem e (Types.service_action name a) (call_body id (service_action name a e))
          (ap good (elevate_field_lem e)))

  -- For a live session whose id is not empty, and arguments that `IsSendable` admits: what the browser
  -- sends for a call on the session makes the gateway do what the call means, on that session,
  -- with the elevation that was given. `to_number` reads a printed number as that number.
  pub decide-call_body :
      (manager : Manager S) (id : Text) (c : ClientCall) (entry : SessionEntry S)
      → id ≢ []
      → get id manager ≡ some entry
      → IsSendable c
      → decide to_number decode (codes "POST " ++ call_path c) manager (call_body id c)
        ≡ good (use_session entry (meaning decode entry.entry.home c))
  decide-call_body manager id c entry n h k = rw (
    decide-in_session to_number decode manager c (call_body id c),
    require_session-call_body to_number decode manager id c entry n h,
    session_ask-call_body id c entry k,
  )

module _ {S : Type 0} (to_number : Option Json → Num) (decode : Text → List ℕ)
    (show_number : Num → Text)
    (reads : (neg : Bool) (n d : ℕ)
      → to_number (some (number (show_number (ratio neg n d)))) ≡ ratio neg n d) where
  connect_request-connect_body :
      (host : Text) (port : Option Num) (username : Text) (auth : SshAuth) (trust : Option Text)
      → IsFinite port
      → host ≢ []
      → username ≢ []
      → connect_request {S = S} to_number decode (
          connect_body show_number (record {
            host = host;
            port = port;
            username = username;
            auth = auth;
            trust_fingerprint = trust;
          }))
        ≡ good (open_session host port username auth trust)
  unfolding connect_request connect_body property_of field_of text_eq as_string
  connect_request-connect_body host none username auth none f hh hu = rw (
    parse_auth-auth_json auth,
    required_lem (codes "host") host hh,
    required_lem (codes "username") username hu,
  )
  connect_request-connect_body host none username auth (some t) f hh hu = rw (
    parse_auth-auth_json auth,
    required_lem (codes "host") host hh,
    required_lem (codes "username") username hu,
  )
  connect_request-connect_body host (some nan) username auth trust f hh hu = absurd f
  connect_request-connect_body host (some (infinity s)) username auth trust f hh hu = absurd f
  connect_request-connect_body host (some (ratio s n d)) username auth none f hh hu = rw (
    parse_auth-auth_json auth,
    required_lem (codes "host") host hh,
    required_lem (codes "username") username hu,
    reads s n d,
  )
  connect_request-connect_body host (some (ratio s n d)) username auth (some t) f hh hu = rw (
    parse_auth-auth_json auth,
    required_lem (codes "host") host hh,
    required_lem (codes "username") username hu,
    reads s n d,
  )

  -- A request for a connection with a host and a user name that are not empty, and a finite port if
  -- there is one, makes the gateway open a session with that host, port, user name, authentication
  -- and confirmed fingerprint. `to_number` reads a printed number as that number.
  pub decide-connect_body :
      (manager : Manager S) (input : ConnectInput)
      → IsFinite input.port
      → input.host ≢ []
      → input.username ≢ []
      → decide to_number decode (codes "POST /api/connect") manager (connect_body show_number input)
        ≡ good
            (open_session input.host input.port input.username input.auth input.trust_fingerprint)
  unfolding decide text_eq
  decide-connect_body manager input f hh hu =
      connect_request-connect_body input.host input.port input.username input.auth
        input.trust_fingerprint f hh hu

module _ {S : Type 0} (to_number : Option Json → Num) (decode : Text → List ℕ) where
  -- A write of no bytes to a live session whose id is not empty is refused with status 400, whatever
  -- the path and the elevation.
  pub decide-write_file_empty :
      (manager : Manager S) (id path : Text) (e : Option Elevate) (entry : SessionEntry S)
      → id ≢ []
      → get id manager ≡ some entry
      → decide to_number decode
          (codes "POST " ++ call_path (write_file path [] e))
          manager
          (call_body id (write_file path [] e))
        ≡ bad 400 (codes "Missing or invalid \"base64\"")
  decide-write_file_empty manager id path e entry n h =
      rw
        (
          decide-in_session to_number decode manager (write_file path [] e)
              (call_body id (write_file path [] e)),
          require_session-call_body to_number decode manager id (write_file path [] e) entry n h,
        )
        (unfold session_ask route_of call_body as_string property_of call_fields field_of text_eq in
          refl)
