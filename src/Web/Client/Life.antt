-- ===== src/Web/Client/Life.antt =====
-- packages/web/src/api/gateway.ts against packages/server/src/gateway.ts and session-manager.ts: the
-- life of a session, from the connection to the end.
use desk_ssh.Base.{ℕ, false, List, [], ◌∷◌, ◌++◌, Option, none, some, ◌≡◌, ◌≢◌, refl, ◌∙◌}
use desk_ssh.Js.Text.{Text, codes, text_eq}
use desk_ssh.Js.Text.Equality.{text_eq_refl}
use desk_ssh.Js.Json.{Json, number}
use desk_ssh.Js.Number.{Num, ratio, show}
use desk_ssh.Core.Session.{SshAuth}
use desk_ssh.Server.Manager.{NewEntry, SessionEntry, Manager, add, remove, get}
use desk_ssh.Server.Manager.Registry.{IsRegistry, add-IsRegistry, get-add, get-remove}
use desk_ssh.Server.Gateway.Body.{good, bad, as_string, property_of, field_of, require_session}
use desk_ssh.Server.Gateway.Handling.{OpenResult, opened, connect_response, respond}
use desk_ssh.Server.Gateway.Routes.{Ask, use_session, close_session, decide}
use desk_ssh.Web.Client.{ClientCall, call_path, call_body, disconnect_body}
use desk_ssh.Web.Client.Laws.{required_lem, meaning, IsSendable, decide-in_session}
use desk_ssh.Web.Client.RoundTrip.{decide-call_body}

module _ {S : Type 0} (to_number : Option Json → Num) (decode : Text → List ℕ) (manager : Manager S)
    (id : Text) (n : id ≢ []) where
  decide-disconnect_body :
      decide to_number decode (codes "POST /api/disconnect") manager (disconnect_body id)
      ≡ good (close_session id)
  unfolding decide text_eq disconnect_body as_string property_of field_of
  decide-disconnect_body = rw (required_lem (codes "sessionId") id n) refl

  decide-call_body-none :
      (c : ClientCall)
      → get id manager ≡ none
      → decide to_number decode (codes "POST " ++ call_path c) manager (call_body id c)
        ≡ bad 404 (codes "Unknown session")
  unfolding require_session as_string property_of call_body field_of text_eq
  decide-call_body-none c h =
      rw
        (
          decide-in_session to_number decode manager c (call_body id c),
          required_lem (codes "sessionId") id n,
          h,
        )
        refl

module _ {S : Type 0} where
  added :
      (id : Text) (entry : NewEntry S) (m : Manager S)
      → get id (add id entry m).1 ≡ some (add id entry m).0
  added id entry m = (get-add id id entry m).0 ∙ rw (text_eq_refl id) refl

  removed : (id : Text) (m : Manager S) → IsRegistry m → get id (remove id m).1 ≡ none
  removed id m h = (get-remove id id m h).2 ∙ rw (text_eq_refl id) refl

  closed_by :
      (id : Text) (entry : NewEntry S) (m : Manager S)
      → IsRegistry m
      → (remove id (add id entry m).1).1.closed ≡ m.closed ++ (add id entry m).0 ∷ []
  closed_by id entry m h =
      (get-remove id id (add id entry m).1 (add-IsRegistry id entry m h)).1
      ∙ rw (added id entry m, (get-add id id entry m).1) refl

module _ {S : Type 0} (to_number : Option Json → Num) (decode : Text → List ℕ)
    (reads : (k : ℕ) → to_number (some (number (show k))) ≡ ratio false k 1)
    (opener : Text → Option Num → Text → SshAuth → Option Text → OpenResult S) (new_id : Text)
    (answer : SessionEntry S → Ask → ℕ × Json) where
  -- For an id that is not empty and a registry in which no id stands twice: once a connection was
  -- opened under the id, what the browser sends for a call on it reaches the new session; once the
  -- browser has asked to disconnect, the session was closed, and the same call is refused with
  -- status 404.
  pub decide-connect_response :
      (manager : Manager S) (id : Text) (entry : NewEntry S) (c : ClientCall)
      → IsRegistry manager
      → id ≢ []
      → IsSendable c
      → let session = (add id entry manager).0 in
        let live = (connect_response (opened entry) id manager).1 in
        let after =
          (respond opener new_id answer live
            (decide to_number decode (codes "POST /api/disconnect") live (disconnect_body id))).1 in
        let route = codes "POST " ++ call_path c in
        (decide to_number decode route live (call_body id c)
          ≡ good (use_session session (meaning decode session.entry.home c)))
        × ((decide to_number decode route after (call_body id c)
              ≡ bad 404 (codes "Unknown session"))
            × (after.closed ≡ manager.closed ++ session ∷ []))
  unfolding connect_response respond
  decide-connect_response manager id entry c h n k =
      let live = (add id entry manager).1 in
      let distinct = add-IsRegistry id entry manager h in
      rw (decide-disconnect_body to_number decode live id n) (
        decide-call_body to_number decode reads live id c (add id entry manager).0 n
            (added id entry manager) k,
        (
          decide-call_body-none to_number decode (remove id live).1 id n c
              (removed id live distinct),
          closed_by id entry manager h,
        ),
      )
