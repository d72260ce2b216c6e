-- ===== src/Server/Gateway/Handling.antt =====
-- packages/server/src/gateway.ts: `handle`, with its effects on the registry of sessions and its
-- responses. What the opener returned, the new id, and what a session answers are parameters.
use desk_ssh.Base.{ℕ, Bool, true, false, List, Option, none, some, if◌then◌else◌, ◌≡◌, ◌≢◌, refl}
use desk_ssh.Js.Text.{Text, codes, text_eq}
use desk_ssh.Js.Text.Equality.{text_eq_ne}
use desk_ssh.Js.Json.{Json, boolean, string, object, Fields, no_fields, field}
use desk_ssh.Js.Number.{Num}
use desk_ssh.Core.Os.{OsFamily, debian, rhel, arch, posix, unknown}
use desk_ssh.Core.Session.{SshAuth}
use desk_ssh.Server.Manager.{
  NewEntry, SessionEntry, Manager, SessionInfo, to_session_info, add, remove,
}
use desk_ssh.Server.Opener.{ConnectError, host_key_unknown, host_key_mismatch, other_error}
use desk_ssh.Server.Gateway.Body.{Checked, good, bad, choose, require_session}
use desk_ssh.Server.Gateway.Reading.{error, http_error, failure_response}
use desk_ssh.Server.Gateway.Routes.{
  Ask, Plan, health, open_session, close_session, use_session, Route, session_routes, session_ask,
  in_session, route_plan, decide,
}
use desk_ssh.Server.Gateway.Guards.{Holds, Holds-and_then}

-- How the opener ended.
pub data OpenResult (S : Type 0) : Type 0 where
  opened : NewEntry S → OpenResult S
  failed : ConnectError → OpenResult S

abbrev ok_json : Bool → Json
ok_json b = object (field (codes "ok") (boolean b) no_fields)

abbrev family_word : OsFamily → Text
family_word debian = codes "debian"
family_word rhel = codes "rhel"
family_word arch = codes "arch"
family_word posix = codes "posix"
family_word unknown = codes "unknown"

abbrev pretty_field : Option Text → Fields
pretty_field none = no_fields
pretty_field (some name) = field (codes "prettyName") (string name) no_fields

abbrev os_json : SessionInfo → Json
os_json info =
    object
      (field (codes "family") (string (family_word info.family)) (pretty_field info.pretty_name))

-- The fields of a `SessionInfo`.
abbrev info_fields : SessionInfo → Fields
info_fields info = field (codes "sessionId") (string info.session_id) (
    field (codes "host") (string info.host)
      (field (codes "home") (string info.home) (field (codes "os") (os_json info) no_fields)))

abbrev verify_json : Text → Text → Json
verify_json fingerprint algorithm = object (
    field (codes "status") (string (codes "verify-host-key")) (
      field (codes "fingerprint") (string fingerprint)
        (field (codes "algorithm") (string algorithm) no_fields)))

abbrev mismatch_json : Text → Text → Text → Json
mismatch_json message fingerprint expected = object (
    field (codes "error") (string message) (
      field (codes "fingerprint") (string fingerprint)
        (field (codes "expected") (string expected) no_fields)))

abbrev mismatch_message : Text
mismatch_message = codes "Host key mismatch — possible man-in-the-middle"

module _ {S : Type 0} where
  -- The response to a connection, and the registry behind it.
  unfoldable pub connect_response : OpenResult S → Text → Manager S → (ℕ × Json) × Manager S
  unfolding add to_session_info failure_response
  connect_response (opened entry) id m =
      let added = add id entry m in
      (
        (
          200,
          object (
              field (codes "status") (string (codes "connected"))
                (info_fields (to_session_info added.0))),
        ),
        added.1,
      )
  connect_response (failed (host_key_unknown fingerprint algorithm)) id m =
      ((200, verify_json fingerprint algorithm), m)
  connect_response (failed (host_key_mismatch fingerprint expected)) id m =
      ((409, mismatch_json mismatch_message fingerprint expected), m)
  connect_response (failed (other_error message)) id m = (failure_response (error message), m)

  module _ (opener : Text → Option Num → Text → SshAuth → Option Text → OpenResult S)
      (new_id : Text) (answer : SessionEntry S → Ask → ℕ × Json) where
    -- What is done for a plan. The last case is the call on a session, which leaves the registry.
    unfoldable pub respond : Manager S → Checked (Plan S) → (ℕ × Json) × Manager S
    unfolding connect_response failure_response remove
    respond m (bad status message) = (failure_response (http_error status message), m)
    respond m (good health) = ((200, ok_json true), m)
    respond m (good (open_session host port username auth trust)) =
        connect_response (opener host port username auth trust) new_id m
    respond m (good (close_session id)) =
        let removed = remove id m in ((200, ok_json removed.0), removed.1)
    respond m (good (use_session entry ask)) = (answer entry ask, m)

-- The plan neither opens nor closes a session.
abbrev IsSteady : {S : Type 0} → Plan S → Type 0
IsSteady (open_session host port username auth trust) = ⊥
IsSteady (close_session id) = ⊥
IsSteady other = Unit

module _ {S : Type 0} (to_number : Option Json → Num) (decode : Text → List ℕ) (manager : Manager S)
    (body : Json) where
  in_session-IsSteady : (r : Route) → Holds IsSteady (in_session to_number decode manager body r)
  in_session-IsSteady r = Holds-and_then IsSteady (require_session manager body) _ (λ entry _.
      Holds-and_then IsSteady (session_ask to_number decode r entry body) _ (λ ask _. tt))

  route_plan-IsSteady :
      (route : Text) (r : Option Route)
      → Holds IsSteady (route_plan to_number decode route manager body r)
  route_plan-IsSteady route none = tt
  route_plan-IsSteady route (some r) = in_session-IsSteady r

  IsSteady-or :
      (b : Bool) (x : Checked (Plan S))
      → Holds IsSteady x
      → Holds IsSteady (if b then good health else x)
  IsSteady-or true x h = tt
  IsSteady-or false x h = h

  decide-IsSteady :
      (route : Text)
      → route ≢ codes "POST /api/connect"
      → route ≢ codes "POST /api/disconnect"
      → Holds IsSteady (decide to_number decode route manager body)
  unfolding decide
  decide-IsSteady route c d =
      rw
        (
          text_eq_ne route (codes "POST /api/connect") c,
          text_eq_ne route (codes "POST /api/disconnect") d,
        )
        (IsSteady-or (text_eq route (codes "GET /api/health")) _
          (route_plan-IsSteady route (choose route session_routes)))

module _ {S : Type 0} (opener : Text → Option Num → Text → SshAuth → Option Text → OpenResult S)
    (new_id : Text) (answer : SessionEntry S → Ask → ℕ × Json) where
  respond_steady :
      (m : Manager S) (plan : Checked (Plan S))
      → Holds IsSteady plan
      → (respond opener new_id answer m plan).1 ≡ m
  unfolding respond
  respond_steady m (bad status message) h = refl
  respond_steady m (good health) h = refl
  respond_steady m (good (open_session host port username auth trust)) h = absurd h
  respond_steady m (good (close_session id)) h = absurd h
  respond_steady m (good (use_session entry ask)) h = refl

  -- No request but one to connect or to disconnect changes the registry of sessions, whatever its
  -- route and its body.
  pub respond-decide :
      (to_number : Option Json → Num) (decode : Text → List ℕ) (m : Manager S) (route : Text)
      (body : Json)
      → route ≢ codes "POST /api/connect"
      → route ≢ codes "POST /api/disconnect"
      → (respond opener new_id answer m (decide to_number decode route m body)).1 ≡ m
  respond-decide to_number decode m route body c d =
      respond_steady m (decide to_number decode route m body)
        (decide-IsSteady to_number decode m body route c d)
