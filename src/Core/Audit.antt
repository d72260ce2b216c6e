-- ===== src/Core/Audit.antt =====
-- What the log holds after a capability call: packages/core/src/adapters/registry.ts over the executors
-- of transparency/log.ts and privilege/elevation.ts.
use mathlib.Core.Path.{fun_ext}
use mathlib.Core.List.{map-append}
use desk_ssh.Base.{ℕ, List, [], ◌∷◌, ◌++◌, map, ◌≡◌, refl, Option, none, some, ap}
use desk_ssh.Js.Text.{Text, codes}
use desk_ssh.Core.Exec.{Outcome, done, threw, ExecResult, CommandExecutor, noting, Keeps}
use desk_ssh.Core.Types.{Call}
use desk_ssh.Core.Os.{OsInfo, OsFamily, debian}
use desk_ssh.Core.Registry.{adapter_for, select_adapter}
use desk_ssh.Core.Log.{
  Execution, CommandRecord, TransparencyLog, append, execution, with_transparency,
}
use desk_ssh.Core.Log.Numbering.{IsNumbered, append-IsNumbered}
use desk_ssh.Core.Elevation.{with_elevation, elevated_command}
use desk_ssh.Core.Debian.Adapter.Commands.{debian_adapter-Keeps}

abbrev pub command_of : CommandRecord → Text
command_of r = r.entry.command

abbrev pub commands : TransparencyLog → List Text
commands log = map command_of log.entries

-- The executor of a session, elevated if a password is given.
abbrev pub session_executor : {W : Type 0} → CommandExecutor W → Option Text → CommandExecutor W
session_executor executor none = executor
session_executor executor (some password) = with_elevation executor password

module _ {κ} {W : Type 0} (P : W → Type κ) (encode : List ℕ → Text) (decode : Text → List ℕ) where
  adapter_for-Keeps :
      (f : OsFamily) (executor : CommandExecutor W) (c : Call)
      → ((cmd : Text) → Keeps P (executor cmd none))
      → Keeps P (adapter_for encode decode f executor c)
  unfolding adapter_for
  adapter_for-Keeps debian executor c h =
      debian_adapter-Keeps P encode decode executor c (λ cmd allowed. h cmd)
  adapter_for-Keeps _ executor c h = λ w p. p

  pub select_adapter-Keeps :
      (os : OsInfo) (executor : CommandExecutor W) (c : Call)
      → ((cmd : Text) → Keeps P (executor cmd none))
      → Keeps P (select_adapter encode decode os executor c)
  unfolding select_adapter
  select_adapter-Keeps os executor c h = adapter_for-Keeps os.family executor c h

-- Each record of the log has the command that was sent, in order.
abbrev pub IsAudited : {W : Type 0} → TransparencyLog × (List Text × W) → Type 0
IsAudited (log, (sent, w)) = IsNumbered log × (commands log ≡ sent)

commands-append :
    (entry : Execution) (log : TransparencyLog)
    → commands (append entry log) ≡ commands log ++ entry.command ∷ []
unfolding append
commands-append entry log = map-append command_of log.entries _

module _ {W : Type 0} (now : W → ℕ) where
  command-execution :
      (host cmd : Text) (w : W) (ran : Outcome ExecResult × W)
      → (execution now host cmd w ran).command ≡ cmd
  unfolding execution
  command-execution host cmd w (done r, w') = refl
  command-execution host cmd w (threw e, w') = refl

module _ {W : Type 0} (now : List Text × W → ℕ) (executor : CommandExecutor W) (host : Text) where
  pub logged-Keeps :
      (cmd : Text) (input : Option Text)
      → Keeps IsAudited (with_transparency now (noting executor) host cmd input)
  unfolding with_transparency noting
  logged-Keeps cmd input (log, (sent, w)) (n, e) =
      let ran = noting executor cmd input (sent, w) in
      let entry = execution now host cmd (sent, w) ran in
      (
        append-IsNumbered entry log n,
        rw (commands-append, command-execution now host cmd (sent, w) ran, e),
      )

  session-Keeps :
      (password : Option Text) (cmd : Text)
      → Keeps IsAudited
          (session_executor (with_transparency now (noting executor) host) password cmd none)
  unfolding with_elevation
  session-Keeps none cmd = logged-Keeps cmd none
  session-Keeps (some p) cmd = logged-Keeps (elevated_command cmd) _

  -- After any capability call, for any system and elevated or not, the log has exactly one more
  -- record for each command that was sent to the host, with the command as it was sent and in the
  -- same order, also where the host threw; and the ids still count up from one. This holds before the
  -- call, as it does of a new log.
  pub select_adapter-IsAudited :
      (encode : List ℕ → Text) (decode : Text → List ℕ) (os : OsInfo) (password : Option Text)
      (c : Call) (s : TransparencyLog × (List Text × W))
      → IsAudited s
      → IsAudited
          (select_adapter encode decode os
            (session_executor (with_transparency now (noting executor) host) password)
            c
            s).1
  select_adapter-IsAudited encode decode os password c s h =
      select_adapter-Keeps IsAudited encode decode os
        (session_executor (with_transparency now (noting executor) host) password) c
        (session-Keeps password) s h

-- What `withElevation` gives to a command as its input.
abbrev pub stdin_of : Text → Option Text
stdin_of password = some (password ++ codes "\n")

module _ {W : Type 0} (now : W → ℕ) (executor : CommandExecutor W) (host p q : Text)
    (alike : (cmd : Text) (w : W) → executor cmd (stdin_of p) w ≡ executor cmd (stdin_of q) w) where
  elevated_same :
      with_elevation (with_transparency now executor host) p
      ≡ with_elevation (with_transparency now executor host) q
  unfolding with_elevation with_transparency
  elevated_same = fun_ext λ cmd. fun_ext λ input. fun_ext λ s. rw (alike (elevated_command cmd) s.1)

  -- A password leaves no trace in the log: for two passwords that the host treats alike, an elevated
  -- capability call gives the same result, the same log and the same world.
  pub elevated_call_same :
      (encode : List ℕ → Text) (decode : Text → List ℕ) (os : OsInfo) (c : Call)
      (s : TransparencyLog × W)
      → select_adapter encode decode os (with_elevation (with_transparency now executor host) p) c s
        ≡ select_adapter encode decode os
            (with_elevation (with_transparency now executor host) q)
            c
            s
  elevated_call_same encode decode os c s =
      ap (λ e. select_adapter encode decode os e c s) elevated_same
