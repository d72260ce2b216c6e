-- ===== src/Server/Gateway/Cleanup.antt =====
-- The cleanup of packages/server/src/elevate.ts and of `runCap` in gateway.ts.
use desk_ssh.Base.{ℕ, List, ◌++◌, Bool, true, false, Option, none, some, if◌then◌else◌}
use desk_ssh.Js.Text.{Text, codes, text_eq}
use desk_ssh.Core.Exec.{Outcome, done, threw, pure, after, CommandExecutor, Keeps}
use desk_ssh.Core.Types.{Call}
use desk_ssh.Core.Log.{TransparencyLog, with_transparency}
use desk_ssh.Core.Elevation.{with_elevation}
use desk_ssh.Core.Audit.{select_adapter-Keeps}
use desk_ssh.Server.Gateway.Body.{Elevate, current, user}
use desk_ssh.Server.Gateway.Elevated.{
  Connection, Transient, Elevated, finally, transient_elevated, make_elevated, run_cap,
}

-- A property of the world, of a world with a log beside it.
abbrev pub Beside {κ} : {W : Type 0} → (W → Type κ) → TransparencyLog × W → Type κ
Beside P (log, w) = P w

-- Where a transient session was opened `Q` holds and its commands keep it; where it was not, `P` holds.
abbrev pub IsOpened {κ} :
    {W : Type 0} → (W → Type κ) → (W → Type κ) → Outcome (CommandExecutor W) × W → Type κ
IsOpened P Q (done session, w) =
    Q w × ((cmd : Text) (input : Option Text) → Keeps Q (session cmd input))
IsOpened P Q (threw e, w) = P w

module _ {κ} {W : Type 0} (Q : W → Type κ) (now : W → ℕ) where
  logged-Keeps-Beside :
      (session : CommandExecutor W) (host cmd : Text) (input : Option Text)
      → Keeps Q (session cmd input)
      → Keeps (Beside Q) (with_transparency now session host cmd input)
  unfolding with_transparency
  logged-Keeps-Beside session host cmd input h (log, w) q = h w q

module _ {κ} {W : Type 0} (P Q : W → Type κ) (encode : List ℕ → Text) (decode : Text → List ℕ)
    (now : W → ℕ) (transient : Transient W) (entry : Connection W)
    (own : (c : Call) → Keeps (Beside P) (entry.adapter c))
    (sent : (cmd : Text) (input : Option Text) → Keeps (Beside P) (entry.executor cmd input))
    (opened : (name password : Text) (w : W)
      → P w
      → IsOpened P Q (transient.connect entry.endpoint name password w))
    (closed : (w : W) → Q w → P (transient.close w)) where
  chosen-Keeps :
      (b : Bool) (e f : CommandExecutor (TransparencyLog × W)) (cmd : Text)
      → Keeps (Beside Q) (e cmd none)
      → Keeps (Beside Q) (f cmd none)
      → Keeps (Beside Q) ((if b then e else f) cmd none)
  chosen-Keeps true e f cmd he hf = he
  chosen-Keeps false e f cmd he hf = hf

  elevated-Keeps :
      (name password : Text) (session : CommandExecutor W) (c : Call)
      → ((cmd : Text) (input : Option Text) → Keeps Q (session cmd input))
      → Keeps
          (Beside Q)
          ((transient_elevated encode decode now transient entry name password session).adapter c)
  unfolding transient_elevated with_elevation
  elevated-Keeps name password session c h =
      select_adapter-Keeps (Beside Q) encode decode entry.os _ c (λ cmd.
        chosen-Keeps (text_eq name (codes "root")) _ _ cmd
          (logged-Keeps-Beside Q now session (name ++ (codes "@" ++ entry.endpoint.host)) cmd none
            (h cmd none))
          (logged-Keeps-Beside Q now session (name ++ (codes "@" ++ entry.endpoint.host)) _ _
            (h _ _)))

  -- The part behind the opening.
  opened-Keeps :
      (name password : Text) (c : Call) (log : TransparencyLog) (o : Outcome (CommandExecutor W))
      (w : W)
      → IsOpened P Q (o, w)
      → Beside P
          (after
            (λ (elevated : Elevated W). finally elevated.cleanup (elevated.adapter c))
            (after
              (λ session.
                pure (transient_elevated encode decode now transient entry name password session))
              (o, (log, w)))).1
  unfolding transient_elevated
  opened-Keeps name password c log (done session) w (q, h) =
      closed _ (elevated-Keeps name password session c h (log, w) q)
  opened-Keeps name password c log (threw e) w p = p

  -- A capability call leaves no transient session behind: whatever holds of the world while none is
  -- open holds again after the call, elevated or not and as whatever user, whether the call returns or
  -- throws, and also if the session could not be opened. The session's own adapter and executor keep
  -- it, opening gives the state of an open session or throws, and closing ends that state.
  pub run_cap-Keeps :
      (elevate : Option Elevate) (c : Call)
      → Keeps (Beside P) (run_cap encode decode now transient entry elevate c)
  unfolding run_cap make_elevated with_elevation
  run_cap-Keeps none c = own c
  run_cap-Keeps (some (current password)) c =
      select_adapter-Keeps (Beside P) encode decode entry.os
        (with_elevation entry.executor password) c (λ cmd. sent _ _)
  run_cap-Keeps (some (user name password)) c =
      λ (log, w) p. opened-Keeps name password c log _ _ (opened name password w p)
