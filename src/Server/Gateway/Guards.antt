-- ===== src/Server/Gateway/Guards.antt =====
-- What the gateway of packages/server/src/gateway.ts checks before it acts on a session.
use desk_ssh.Base.{
  ℕ, ◌<◌, List, Bool, true, false, Option, none, some, if◌then◌else◌, ◌≡◌, refl, arith, inl, inr,
  ◌⊎◌,
}
use mathlib.Core.Path.{subst}
use desk_ssh.Js.Text.{Text, codes, text_eq}
use desk_ssh.Js.Number.{pos, Num, nan, infinity, ratio}
use desk_ssh.Core.Types.{
  Call, list_dir, read_file, write_file, make_dir, create_file, move, copy, remove, system_metrics,
  system_info, list_processes, signal_process, service_action,
}
use desk_ssh.Server.Manager.{SessionEntry, Manager, get}
use desk_ssh.Js.Json.{Json}
use desk_ssh.Server.Gateway.Body.{
  Checked, good, bad, and_then, property_of, as_string, as_one_of, choose, Elevate, parse_elevate,
  parse_auth, known_session, require_session,
}
use desk_ssh.Server.Gateway.Routes.{
  Ask, capability, Plan, health, close_session, use_session, positive_integer, pid_required,
  elevated, on_path, on_two, signals, actions, Route, listdir, metrics, readfile, writefile, mkdir,
  createfile, move_route, copy_route, remove_route, processes, signal, service, privilege_route,
  systeminfo, transparency_route, session_routes, session_ask, connect_request, route_plan, decide,
  in_session,
}

-- A checked value, if there is one, has the property.
abbrev pub Holds : {A : Type 0} → (A → Type 0) → Checked A → Type 0
Holds P (good a) = P a
Holds P (bad status message) = Unit

module _ {A B : Type 0} (P : B → Type 0) where
  pub Holds-and_then :
      (x : Checked A) (k : A → Checked B)
      → ((a : A) → x ≡ good a → Holds P (k a))
      → Holds P (and_then x k)
  Holds-and_then (good a) k h = h a refl
  Holds-and_then (bad status message) k h = tt

Holds-good : {A : Type 0} (P : A → Type 0) (x : Checked A) {a : A} → Holds P x → x ≡ good a → P a
Holds-good P x h e = subst (Holds P) e h

-- The calls that can be elevated change something on the host, and a signal goes to one process.
abbrev pub IsChange : Call → Type 0
IsChange (write_file path contents) = Unit
IsChange (make_dir path) = Unit
IsChange (create_file path) = Unit
IsChange (move from to) = Unit
IsChange (copy from to) = Unit
IsChange (remove path) = Unit
IsChange (signal_process pid s) = (n : ℕ) × ((pid ≡ pos n) × (0 < n))
IsChange (service_action name action) = Unit
IsChange other = ⊥

abbrev pub IsRead : Call → Type 0
IsRead (list_dir path) = Unit
IsRead (read_file path) = Unit
IsRead system_metrics = Unit
IsRead system_info = Unit
IsRead list_processes = Unit
IsRead other = ⊥

-- A call that only reads is not elevated, and any other is one that can be.
abbrev pub IsGuarded : Ask → Type 0
IsGuarded (capability c none) = (IsRead c) ⊎ (IsChange c)
IsGuarded (capability c (some e)) = IsChange c
IsGuarded other = Unit

elevated-IsGuarded : (body : Json) (c : Call) → IsChange c → Holds IsGuarded (elevated body c)
elevated-IsGuarded body c h =
    Holds-and_then IsGuarded (property_of (codes "elevate") body) _
      (λ v _. Holds-and_then IsGuarded (parse_elevate v) _ (λ e _. guarded e))
  where
    guarded : (e : Option Elevate) → IsGuarded (capability c e)
    guarded none = inr h
    guarded (some e) = h

on_path-IsGuarded :
    (body : Json) (call : Text → Call)
    → ((path : Text) → IsChange (call path))
    → Holds IsGuarded (on_path body call)
on_path-IsGuarded body call h =
    Holds-and_then IsGuarded (as_string body (codes "path")) _
      (λ path _. elevated-IsGuarded body (call path) (h path))

on_two-IsGuarded :
    (body : Json) (call : Text → Text → Call)
    → ((from to : Text) → IsChange (call from to))
    → Holds IsGuarded (on_two body call)
on_two-IsGuarded body call h = Holds-and_then IsGuarded (as_string body (codes "from")) _ (λ from _.
    Holds-and_then IsGuarded (as_string body (codes "to")) _
      (λ to _. elevated-IsGuarded body (call from to) (h from to)))

positive_integer_lem : (x : Num) (n : ℕ) → pid_required (positive_integer x) ≡ good n → 0 < n
unfolding positive_integer
positive_integer_lem nan n h = cc
positive_integer_lem (infinity s) n h = cc
positive_integer_lem (ratio true m d) n h = cc
positive_integer_lem (ratio false m d) n h = ground arith

module _ {S : Type 0} (to_number : Option Json → Num) (decode : Text → List ℕ) where
  session_ask-IsGuarded :
      (r : Route) (entry : SessionEntry S) (body : Json)
      → Holds IsGuarded (session_ask to_number decode r entry body)
  unfolding session_ask
  session_ask-IsGuarded listdir entry body =
      Holds-and_then IsGuarded (property_of (codes "path") body) _ (λ v _. inl tt)
  session_ask-IsGuarded metrics entry body = inl tt
  session_ask-IsGuarded readfile entry body =
      Holds-and_then IsGuarded (as_string body (codes "path")) _ (λ v _. inl tt)
  session_ask-IsGuarded writefile entry body =
      Holds-and_then IsGuarded (as_string body (codes "base64")) _
        (λ base64 _. on_path-IsGuarded body _ (λ path. tt))
  session_ask-IsGuarded mkdir entry body = on_path-IsGuarded body _ (λ path. tt)
  session_ask-IsGuarded createfile entry body = on_path-IsGuarded body _ (λ path. tt)
  session_ask-IsGuarded move_route entry body = on_two-IsGuarded body _ (λ from to. tt)
  session_ask-IsGuarded copy_route entry body = on_two-IsGuarded body _ (λ from to. tt)
  session_ask-IsGuarded remove_route entry body = on_path-IsGuarded body _ (λ path. tt)
  session_ask-IsGuarded processes entry body = inl tt
  session_ask-IsGuarded signal entry body =
      Holds-and_then IsGuarded (property_of (codes "pid") body) _ (λ v _.
        Holds-and_then IsGuarded (pid_required (positive_integer (to_number v))) _ (λ pid e.
          Holds-and_then IsGuarded (as_one_of body (codes "signal") signals) _ (λ s _.
            elevated-IsGuarded body _ (pid, (refl, positive_integer_lem (to_number v) pid e)))))
  session_ask-IsGuarded service entry body =
      Holds-and_then IsGuarded (as_string body (codes "name")) _ (λ name _.
        Holds-and_then IsGuarded (as_one_of body (codes "action") actions) _
          (λ a _. elevated-IsGuarded body _ tt))
  session_ask-IsGuarded privilege_route entry body = tt
  session_ask-IsGuarded systeminfo entry body = inl tt
  session_ask-IsGuarded transparency_route entry body = tt

known_session_lem :
    {S : Type 0} (o : Option (SessionEntry S)) (entry : SessionEntry S)
    → known_session o ≡ good entry
    → o ≡ some entry
known_session_lem none entry h = cc
known_session_lem (some e) entry h = cc

-- The session that the body names, if it is live.
abbrev pub IsNamed : {S : Type 0} → Manager S → Json → SessionEntry S → Type 0
IsNamed manager body entry =
    (id : Text) × ((as_string body (codes "sessionId") ≡ good id) × (get id manager ≡ some entry))

require_session-IsNamed :
    (S : Type 0) (manager : Manager S) (body : Json)
    → Holds (IsNamed manager body) (require_session manager body)
unfolding require_session
require_session-IsNamed S manager body =
    Holds-and_then (IsNamed manager body) (as_string body (codes "sessionId")) _
      (λ id e. named id e (known_session (get id manager)) refl)
  where
    named :
        (id : Text)
        → as_string body (codes "sessionId") ≡ good id
        → (x : Checked (SessionEntry S)) → known_session (get id manager) ≡ x
        → Holds (IsNamed manager body) x
    named id e (good entry) h = (id, (e, known_session_lem (get id manager) entry h))
    named id e (bad status message) h = tt

module _ {S : Type 0} (to_number : Option Json → Num) (decode : Text → List ℕ) (manager : Manager S)
    (body : Json) where
  abbrev pub IsSafe : Plan S → Type 0
  IsSafe (use_session entry ask) = IsNamed manager body entry × IsGuarded ask
  IsSafe other = Unit

  in_session-IsSafe : (r : Route) → Holds IsSafe (in_session to_number decode manager body r)
  in_session-IsSafe r = Holds-and_then IsSafe (require_session manager body) _ (λ entry e.
      Holds-and_then IsSafe (session_ask to_number decode r entry body) _ (λ ask f. (
        Holds-good (IsNamed manager body) _ (require_session-IsNamed S manager body) e,
        Holds-good IsGuarded _ (session_ask-IsGuarded to_number decode r entry body) f,
      )))

  connect_request-IsSafe : Holds IsSafe (connect_request to_number decode body)
  unfolding connect_request
  connect_request-IsSafe = Holds-and_then IsSafe (property_of (codes "auth") body) _ (λ a _.
      Holds-and_then IsSafe (parse_auth a) _ (λ auth _.
        Holds-and_then IsSafe (as_string body (codes "host")) _ (λ host _.
          Holds-and_then IsSafe (property_of (codes "port") body) _ (λ port _.
            Holds-and_then IsSafe (as_string body (codes "username")) _ (λ username _.
              Holds-and_then IsSafe (property_of (codes "trustFingerprint") body) _
                (λ trust _. tt))))))

  route_plan-IsSafe :
      (route : Text) (r : Option Route)
      → Holds IsSafe (route_plan to_number decode route manager body r)
  route_plan-IsSafe route (some r) = in_session-IsSafe r
  route_plan-IsSafe route none = tt

  if-IsSafe :
      (b : Bool) (x y : Checked (Plan S))
      → Holds IsSafe x
      → Holds IsSafe y
      → Holds IsSafe (if b then x else y)
  if-IsSafe true x y hx hy = hx
  if-IsSafe false x y hx hy = hy

  decide-IsSafe : (route : Text) → Holds IsSafe (decide to_number decode route manager body)
  unfolding decide
  decide-IsSafe route = if-IsSafe (text_eq route (codes "GET /api/health")) (good health) _ tt (
      if-IsSafe (text_eq route (codes "POST /api/connect")) (connect_request to_number decode body)
        _ connect_request-IsSafe
        (if-IsSafe (text_eq route (codes "POST /api/disconnect"))
          (and_then (as_string body (codes "sessionId")) (λ id. good (close_session id))) _
          (Holds-and_then IsSafe (as_string body (codes "sessionId")) _ (λ id _. tt))
          (route_plan-IsSafe route (choose route session_routes))))

  -- For every route and body: if a request acts on a session, then the body names it by an id
  -- under which the registry has it; a call that only reads is not elevated, any other is one
  -- of the calls that change something, and a signal goes to a positive process id.
  pub decide_session :
      (route : Text) (entry : SessionEntry S) (ask : Ask)
      → decide to_number decode route manager body ≡ good (use_session entry ask)
      → IsNamed manager body entry × IsGuarded ask
  decide_session route entry ask h = Holds-good IsSafe _ (decide-IsSafe route) h
