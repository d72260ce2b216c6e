-- ===== src/Web/Login/Reaching.antt =====
-- packages/web/src/features/login/LoginForm.tsx and App.tsx against packages/server/src/gateway.ts.
use desk_ssh.Base.{ℕ, Bool, List, [], Option, none, some, ◌≡◌, ◌≢◌}
use desk_ssh.Js.Text.{Text, codes, trim}
use desk_ssh.Js.Json.{Json, number}
use desk_ssh.Js.Number.{Num, ratio}
use desk_ssh.Server.Manager.{Manager}
use desk_ssh.Server.Gateway.Body.{good}
use desk_ssh.Server.Gateway.Routes.{open_session, decide}
use desk_ssh.Web.Client.{connect_body}
use desk_ssh.Web.Client.RoundTrip.{IsFinite, decide-connect_body}
use desk_ssh.Web.Login.{Form, form_auth, port_or_22, handle_submit, HostKeyPrompt, trusting}

module _ {S : Type 0} (to_number : Option Json → Num) (decode : Text → List ℕ)
    (show_number : Num → Text)
    (reads : (neg : Bool) (n d : ℕ)
      → to_number (some (number (show_number (ratio neg n d)))) ≡ ratio neg n d)
    (port_number : Text → Num) where
  -- If the host and the user name of the form are not blank and its port is finite: the request of the
  -- form makes the gateway open a session with the trimmed host and user name, the port, or 22 where
  -- it is none, the authentication as it was typed, and no trusted key; and the request that follows
  -- a confirmed host key differs in that it trusts this key.
  pub decide-handle_submit :
      (manager : Manager S) (form : Form) (prompt : HostKeyPrompt)
      → IsFinite (some (port_or_22 (port_number form.port)))
      → trim form.host ≢ []
      → trim form.username ≢ []
      → let input = handle_submit port_number form in
        let route = codes "POST /api/connect" in
        let opened =
          open_session
            (trim form.host)
            (some (port_or_22 (port_number form.port)))
            (trim form.username)
            (form_auth form.method form) in
        (decide to_number decode route manager (connect_body show_number input)
          ≡ good (opened none))
        × (decide to_number decode route manager (connect_body show_number (trusting prompt input))
            ≡ good (opened (some prompt.fingerprint)))
  unfolding handle_submit
  decide-handle_submit manager form prompt f h u = (
    decide-connect_body to_number decode show_number reads manager (handle_submit port_number form)
        f h u,
    decide-connect_body to_number decode show_number reads manager
        (trusting prompt (handle_submit port_number form)) f h u,
  )
