-- ===== src/Tests/Client.antt =====
-- Concrete inputs for the gateway client and the login of packages/web, and for the terminal of
-- packages/server.
use desk_ssh.Base.{
  ℕ, zero, suc, ◌≤◌, Bool, true, false, List, [], ◌∷◌, ◌++◌, Option, none, some, ◌≡◌, refl, arith,
  ◌↔◌, All, sym, ◌∙◌,
}
use desk_ssh.Js.Text.{Text, codes, text_eq, trim}
use desk_ssh.Js.Json.{Json, string, number, object, no_fields}
use desk_ssh.Js.Map
use desk_ssh.Js.Number.{Num, nan, ratio, parse_int, pos, show}
use desk_ssh.Js.Number.Radix.{parse_int-to_radix}
use desk_ssh.Core.Exec.{threw}
use desk_ssh.Core.Os.{debian}
use desk_ssh.Server.Manager.{NewEntry, SessionEntry, Manager, new_manager, add, get}
use desk_ssh.Server.Gateway.Body.{
  good, bad, as_string, property_of, field_of, choose, require_session,
}
use desk_ssh.Core.Session.{SshAuth}
use desk_ssh.Server.Manager.Registry.{IsRegistry, add-IsRegistry}
use desk_ssh.Server.Opener.{other_error}
use desk_ssh.Server.Gateway.Handling.{OpenResult, opened, failed, connect_response, respond}
use desk_ssh.Web.Client.Life.{decide-connect_response}
use desk_ssh.Server.Gateway.Reading.{
  http_error, failure_response, read_json_body, max_body_bytes, whole_body, read_json_body_lem,
}
use desk_ssh.Server.Gateway.Routes.{Ask, use_session, open_session, decide}
use desk_ssh.Server.Terminal.{new_bridge, Event, shell_opened, socket_closed, output, run, step}
use desk_ssh.Server.Terminal.Closing.{run-shell_closed}
use desk_ssh.Web.Client.{
  ClientCall, make_dir, call_path, call_body, connect_body, disconnect_body, post_result,
}
use desk_ssh.Web.Client.Laws.{meaning}
use desk_ssh.Web.Client.RoundTrip.{decide-call_body}
use desk_ssh.Web.Client.Errors.{received, decide-post_result}
use desk_ssh.Web.Login.{
  Form, by_password, form_auth, handle_submit, HostKeyPrompt, trusting, verify_host_key, initial,
  submitted, answered, trusted, run_all,
}
use desk_ssh.Web.Login.Reaching.{decide-handle_submit}
use desk_ssh.Web.Login.Trust.{IsHonest, run_all-IsHonest}

abbrev entry : NewEntry ℕ
entry = record {
  host = codes "h";
  home = codes "/root";
  os = record { family = debian; id = none; id_like = none; kernel = none; pretty_name = none };
  endpoint = record { host = codes "h"; port = 22 };
  connection = 7;
}

abbrev live : Manager ℕ
live = (add (codes "s1") entry new_manager).1

abbrev live_entry : SessionEntry ℕ
live_entry = (add (codes "s1") entry new_manager).0

-- Printed integers are read in base ten.
unfoldable of_int : Option Json → Num
of_int (some (number t)) = elim (parse_int 10 t) [ some (pos n) ↦ ratio false n 1 | other ↦ nan ]
of_int other = nan

of_int-show : (n : ℕ) → of_int (some (number (show n))) ≡ ratio false n 1
unfolding of_int show
of_int-show n = rw (parse_int-to_radix 10 n (omega arith) (omega arith), of_int) refl

abbrev same_text : Text → List ℕ
same_text s = s

abbrev new_folder_call : ClientCall
new_folder_call = make_dir (codes "/tmp/d") none

session_found : get (codes "s1") live ≡ some live_entry
unfolding get add Map.get Map.set text_eq
session_found = refl

decide-call_body_example :
    decide of_int same_text
      (codes "POST " ++ call_path new_folder_call)
      live
      (call_body (codes "s1") new_folder_call)
    ≡ good (use_session live_entry (meaning same_text (codes "/root") new_folder_call))
unfolding add
decide-call_body_example =
    decide-call_body of_int same_text of_int-show live (codes "s1") new_folder_call live_entry
      (λ e. cc) session_found (λ e. cc)

abbrev shown_text : Json → Text
shown_text (string s) = s
shown_text other = []

abbrev no_body : Json
no_body = object no_fields

missing_session :
    decide of_int same_text (codes "POST /api/metrics") live no_body
    ≡ bad 400 (codes "Missing or invalid \"sessionId\"")
unfolding decide choose text_eq require_session as_string property_of field_of
missing_session = refl

decide-post_result_example :
    (400 ≤ 400)
    × (post_result shown_text
          (received (failure_response (http_error 400 (codes "Missing or invalid \"sessionId\""))))
        ≡ threw (codes "Missing or invalid \"sessionId\""))
decide-post_result_example =
    decide-post_result of_int same_text shown_text (λ s. refl) live no_body
      (codes "POST /api/metrics") (codes "Missing or invalid \"sessionId\"") 400 missing_session

abbrev no_json : Text → Option Json
no_json s = none

read_json_body_lem_example :
    read_json_body max_body_bytes same_text no_json ((1 ∷ 2 ∷ []) ∷ (3 ∷ 4 ∷ []) ∷ [])
    ≡ whole_body 1000000 same_text no_json (1 ∷ 2 ∷ 3 ∷ 4 ∷ [])
read_json_body_lem_example = read_json_body_lem same_text no_json ((1 ∷ 2 ∷ []) ∷ (3 ∷ 4 ∷ []) ∷ [])

-- A body is cut off at the chunk that is too much.
too_large_run :
    read_json_body 3 same_text no_json ((1 ∷ 2 ∷ []) ∷ (3 ∷ 4 ∷ []) ∷ [])
    ≡ bad 413 (codes "Request body too large")
unfolding read_json_body
too_large_run = refl

abbrev form : Form
form = record {
  host = codes " h ";
  port = codes "22";
  username = codes "root";
  method = by_password;
  secret = codes "pw";
  key_text = [];
  passphrase = [];
}

abbrev prompt : HostKeyPrompt
prompt = record { fingerprint = codes "SHA256:abc"; algorithm = codes "ssh-ed25519" }

run_all-IsHonest_example :
    let s =
      run_all
        (λ t. ratio false 22 1)
        (submitted form
          ∷ answered (handle_submit (λ t. ratio false 22 1) form) (verify_host_key prompt)
          ∷ trusted
          ∷ [])
        initial in
    All (IsHonest s.shown) s.sent
run_all-IsHonest_example =
    run_all-IsHonest (λ t. ratio false 22 1)
      (submitted form
        ∷ answered (handle_submit (λ t. ratio false 22 1) form) (verify_host_key prompt)
        ∷ trusted
        ∷ [])

abbrev after_open : List Event
after_open = output (codes "$ ") ∷ socket_closed ∷ []

run-shell_closed_example :
    ((run after_open (step shell_opened new_bridge)).shell_closed ≡ true)
    ↔ ((run after_open (step shell_opened new_bridge)).socket_open ≡ false)
run-shell_closed_example =
    run-shell_closed (step shell_opened new_bridge) after_open (unfold step in refl)
      (unfold step in refl) (unfold step in refl)

-- A number written as its sign, its numerator and its denominator.
unfoldable three_units : Num → Text
three_units (ratio false n d) = 0 ∷ n ∷ d ∷ []
three_units (ratio true n d) = 1 ∷ n ∷ d ∷ []
three_units other = []

unfoldable of_three : Option Json → Num
of_three (some (number (zero ∷ n ∷ d ∷ []))) = ratio false n d
of_three (some (number (suc s ∷ n ∷ d ∷ []))) = ratio true n d
of_three other = nan

of_three-three_units :
    (neg : Bool) (n d : ℕ) → of_three (some (number (three_units (ratio neg n d)))) ≡ ratio neg n d
unfolding of_three three_units
of_three-three_units false n d = refl
of_three-three_units true n d = refl

abbrev port_22 : Text → Num
port_22 t = ratio false 22 1

trimmed_host : trim form.host ≡ codes "h"
unfolding trim
trimmed_host = refl

trimmed_user : trim form.username ≡ codes "root"
unfolding trim
trimmed_user = refl

decide-handle_submit_example :
    (decide of_three same_text
        (codes "POST /api/connect")
        live
        (connect_body three_units (handle_submit port_22 form))
      ≡ good (
          open_session
            (trim form.host)
            (some (ratio false 22 1))
            (trim form.username)
            (form_auth by_password form)
            none))
    × (decide of_three same_text
          (codes "POST /api/connect")
          live
          (connect_body three_units (trusting prompt (handle_submit port_22 form)))
        ≡ good (
            open_session
              (trim form.host)
              (some (ratio false 22 1))
              (trim form.username)
              (form_auth by_password form)
              (some (codes "SHA256:abc"))))
decide-handle_submit_example =
    decide-handle_submit of_three same_text three_units of_three-three_units port_22 live form
      prompt tt (λ e. cons-ne-nil (sym trimmed_host ∙ e)) (λ e. cons-ne-nil (sym trimmed_user ∙ e))
  where
    cons-ne-nil : {c : ℕ} {s : Text} → c ∷ s ≡ [] → ⊥
    cons-ne-nil e = cc

live-IsRegistry : IsRegistry live
live-IsRegistry = add-IsRegistry (codes "s1") entry new_manager tt

abbrev refusing : Text → Option Num → Text → SshAuth → Option Text → OpenResult ℕ
refusing host port username auth trust = failed (other_error (codes "refused"))

abbrev silent : SessionEntry ℕ → Ask → ℕ × Json
silent session ask = (200, no_body)

decide-connect_response_example :
    let session = (add (codes "s2") entry live).0 in
    let now = (connect_response (opened entry) (codes "s2") live).1 in
    let after =
      (respond refusing (codes "s3") silent now (
        decide of_int same_text
          (codes "POST /api/disconnect")
          now
          (disconnect_body (codes "s2")))).1 in
    let route = codes "POST " ++ call_path new_folder_call in
    (decide of_int same_text route now (call_body (codes "s2") new_folder_call)
      ≡ good (use_session session (meaning same_text session.entry.home new_folder_call)))
    × ((decide of_int same_text route after (call_body (codes "s2") new_folder_call)
          ≡ bad 404 (codes "Unknown session"))
        × (after.closed ≡ live.closed ++ session ∷ []))
decide-connect_response_example =
    decide-connect_response of_int same_text of_int-show refusing (codes "s3") silent live
      (codes "s2") entry new_folder_call live-IsRegistry (λ e. cc) (λ e. cc)
