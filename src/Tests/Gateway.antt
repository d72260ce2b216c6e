-- ===== src/Tests/Gateway.antt =====
-- Concrete inputs for the gateway of packages/server.
use desk_ssh.Base.{ℕ, ◌+◌, ◌-◌, List, [], Option, none, some, ◌≡◌, refl, ap}
use desk_ssh.Js.Text.{Text, codes, text_eq}
use desk_ssh.Js.Map
use desk_ssh.Js.Number.{Num, nan}
use desk_ssh.Core.Exec.{done, threw, CommandExecutor, Keeps}
use desk_ssh.Core.Types.{remove}
use desk_ssh.Core.Result.{unsupported}
use desk_ssh.Core.Os.{debian}
use desk_ssh.Server.Manager.{NewEntry, SessionEntry, Manager, new_manager, add, get}
use desk_ssh.Js.Json.{Json, string, object, no_fields, field}
use desk_ssh.Server.Gateway.Body.{
  good, field_of, property_of, as_string, choose, current, user, parse_elevate, require_session,
}
use desk_ssh.Server.Gateway.Routes.{Ask, capability, use_session, session_ask, decide}
use desk_ssh.Server.Gateway.Guards.{IsNamed, IsGuarded, decide_session}
use desk_ssh.Server.Gateway.Elevated.{Connection, Transient, run_cap}
use desk_ssh.Server.Gateway.Cleanup.{Beside, run_cap-Keeps}

abbrev entry : NewEntry ℕ
entry = record {
  host = codes "h";
  home = codes "/root";
  os = record { family = debian; id = none; id_like = none; kernel = none; pretty_name = none };
  endpoint = record { host = codes "h"; port = 22 };
  connection = 7;
}

abbrev live : Manager ℕ
live = (add (codes "s1") entry new_manager).1

abbrev body : Json
body = object (
    field (codes "sessionId") (string (codes "s1")) (
      field (codes "path") (string (codes "/tmp/x")) (
        field (codes "elevate")
          (object (
            field (codes "kind") (string (codes "current"))
              (field (codes "password") (string (codes "pw")) no_fields)))
          no_fields)))

abbrev no_number : Option Json → Num
no_number v = nan

abbrev same_text : Text → List ℕ
same_text s = s

abbrev removal : Ask
removal = capability (remove (codes "/tmp/x")) (some (current (codes "pw")))

abbrev live_entry : SessionEntry ℕ
live_entry = (add (codes "s1") entry new_manager).0

removal_decided :
    decide no_number same_text (codes "POST /api/remove") live body
    ≡ good (use_session live_entry removal)
unfolding decide require_session session_ask as_string property_of field_of parse_elevate choose
    text_eq get add Map.get Map.set
removal_decided = refl

decide_session_example : IsNamed live body live_entry × IsGuarded removal
decide_session_example =
    decide_session no_number same_text live body (codes "POST /api/remove") live_entry removal
      removal_decided

-- The world counts the open transient sessions.
abbrev quiet : CommandExecutor ℕ
quiet command input n = (threw (codes "reset"), n)

abbrev counted : Transient ℕ
counted = record { connect = λ endpoint name password n. (done quiet, n + 1); close = λ n. n - 1 }

abbrev connection : Connection ℕ
connection = record {
  os = entry.os;
  endpoint = entry.endpoint;
  adapter = λ c s. (done (unsupported []), s);
  executor = λ command input s. (threw (codes "reset"), s);
}

run_cap-Keeps_example : Keeps (Beside (λ n. n ≡ 0)) (
    run_cap same_text same_text
      (λ n. n)
      counted
      connection
      (some (user (codes "admin") (codes "pw")))
      (remove (codes "/tmp/x")))
run_cap-Keeps_example =
    run_cap-Keeps (λ n. n ≡ 0) (λ n. n ≡ 1) same_text same_text (λ n. n) counted connection
      (λ c s h. h) (λ cmd input s h. h)
      (λ name password n h. (ap (λ k. k + 1) h, λ cmd input w q. q)) (λ n h. ap (λ k. k - 1) h)
      (some (user (codes "admin") (codes "pw"))) (remove (codes "/tmp/x"))
