-- ===== src/Server/Gateway/Elevated.antt =====
-- packages/server/src/elevate.ts and `runCap` of gateway.ts: one capability call, elevated or not. The
-- log of the session stands beside the world. A transient session is a parameter: opening it gives an
-- executor or throws, and closing it changes the world.
use desk_ssh.Base.{ℕ, List, ◌++◌, Option, none, some, if◌then◌else◌}
use desk_ssh.Js.Text.{Text, codes, text_eq}
use desk_ssh.Core.Exec.{Action, pure, ◌>>=◌, CommandExecutor}
use desk_ssh.Core.Types.{Call}
use desk_ssh.Core.Result.{CapabilityResult}
use desk_ssh.Core.Capabilities.{Capabilities, Reply}
use desk_ssh.Core.Os.{OsInfo}
use desk_ssh.Core.Registry.{select_adapter}
use desk_ssh.Core.Log.{TransparencyLog, with_transparency}
use desk_ssh.Core.Elevation.{with_elevation}
use desk_ssh.Server.Manager.{Endpoint}
use desk_ssh.Server.Gateway.Body.{Elevate, current, user}

-- What an entry holds of its connection.
pub record Connection (W : Type 0) : Type 0 where
  pub os : OsInfo
  pub endpoint : Endpoint
  pub adapter : Capabilities (TransparencyLog × W)
  pub executor : CommandExecutor (TransparencyLog × W)

-- `SshSession.connect` with a password and a verifier that accepts every key, and `close()`.
pub record Transient (W : Type 0) : Type 0 where
  pub connect : Endpoint → (user password : Text) → Action W (CommandExecutor W)
  pub close : W → W

pub record Elevated (W : Type 0) : Type 0 where
  pub adapter : Capabilities (TransparencyLog × W)
  pub cleanup : TransparencyLog × W → TransparencyLog × W

-- An action on the world, with the log beside it.
abbrev pub beside : {W A : Type 0} → Action W A → Action (TransparencyLog × W) A
beside m (log, w) = ((m w).0, (log, (m w).1))

-- `try { … } finally { cleanup() }`.
abbrev pub finally : {W A : Type 0} → (W → W) → Action W A → Action W A
finally cleanup m w = ((m w).0, cleanup (m w).1)

module _ {W : Type 0} (encode : List ℕ → Text) (decode : Text → List ℕ) (now : W → ℕ)
    (transient : Transient W) where
  unfoldable pub transient_elevated : Connection W → Text → Text → CommandExecutor W → Elevated W
  unfolding select_adapter with_elevation with_transparency text_eq
  transient_elevated entry name password session =
      let exec = with_transparency now session (name ++ (codes "@" ++ entry.endpoint.host)) in
      record {
        adapter =
            select_adapter encode decode entry.os
              (if text_eq name (codes "root") then exec else with_elevation exec password);
        cleanup = λ (log, w). (log, transient.close w);
      }

  unfoldable pub make_elevated : Connection W → Elevate → Action (TransparencyLog × W) (Elevated W)
  unfolding select_adapter with_elevation transient_elevated
  make_elevated entry (current password) = pure (record {
    adapter = select_adapter encode decode entry.os (with_elevation entry.executor password);
    cleanup = λ s. s;
  })
  make_elevated entry (user name password) = do
    session ← beside (transient.connect entry.endpoint name password)
    pure (transient_elevated entry name password session)

  unfoldable pub run_cap :
      Connection W
      → Option Elevate
      → (c : Call) → Action (TransparencyLog × W) (CapabilityResult (Reply c))
  unfolding make_elevated
  run_cap entry none c = entry.adapter c
  run_cap entry (some elevate) c = do
    elevated ← make_elevated entry elevate
    finally elevated.cleanup (elevated.adapter c)
