-- ===== src/Web/Client/Errors.antt =====
-- packages/web/src/api/gateway.ts against packages/server/src/gateway.ts: what the browser makes of a
-- request that the gateway refused.
use desk_ssh.Base.{ℕ, ◌≤◌, false, Option, some, List, ◌≡◌, refl, arith}
use desk_ssh.Js.Text.{Text, text_eq}
use desk_ssh.Js.Json.{Json, string}
use desk_ssh.Js.Number.{Num}
use desk_ssh.Core.Exec.{threw}
use desk_ssh.Server.Manager.{Manager}
use desk_ssh.Server.Gateway.Body.{bad, field_of}
use desk_ssh.Server.Gateway.Reading.{http_error, failure_response}
use desk_ssh.Server.Gateway.Refusals.{decide-IsRefusal}
use desk_ssh.Server.Gateway.Routes.{decide}
use desk_ssh.Web.Client.{Response, is_ok, post_result}

-- The response, as the browser reads it.
abbrev pub received : ℕ × Json → Response
received (status, body) = record { status = status; body = some body }

is_ok_of_error : (status : ℕ) → 400 ≤ status → is_ok status ≡ false
is_ok_of_error status h = ground arith

module _ (to_string : Json → Text) (shows : (s : Text) → to_string (string s) ≡ s) where
  post_result-failure_response :
      (status : ℕ) (message : Text)
      → 400 ≤ status
      → post_result to_string (received (failure_response (http_error status message)))
        ≡ threw message
  unfolding post_result failure_response field_of text_eq
  post_result-failure_response status message h = rw (is_ok_of_error status h, shows message) refl

module _ {S : Type 0} (to_number : Option Json → Num) (decode : Text → List ℕ)
    (to_string : Json → Text) (shows : (s : Text) → to_string (string s) ≡ s) where
  -- Whatever request the gateway refuses, the status is at least 400, and the call of the browser
  -- throws the message of the refusal. `to_string` leaves a text as it is.
  pub decide-post_result :
      (manager : Manager S) (body : Json) (route message : Text) (status : ℕ)
      → decide to_number decode route manager body ≡ bad status message
      → (400 ≤ status)
        × (post_result to_string (received (failure_response (http_error status message)))
            ≡ threw message)
  decide-post_result manager body route message status h =
      let refused = decide-IsRefusal to_number decode manager body route message status h in
      (refused.0, post_result-failure_response to_string shows status message refused.0)
