-- ===== src/Core/Exec.antt =====
-- packages/core/src/exec/types.ts: the command-execution boundary. The host is not part of the
-- program: an executor is any function of the command, its input and the state of the world.
use desk_ssh.Base.{ℕ, Option, List, [], ◌∷◌, ◌++◌}
use desk_ssh.Js.Text.{Text}

-- A settled promise: its value, or the message of what it was rejected with.
pub data Outcome {ℓ} (A : Type ℓ) : Type ℓ where
  done : A → Outcome A
  threw : Text → Outcome A

-- An asynchronous function, which may change the world `W` and may throw.
abbrev pub Action {ℓ} : Type ℓ → Type ℓ → Type ℓ
Action W A = W → Outcome A × W

module _ {W : Type 0} where
  abbrev pub pure : {A : Type 0} → A → Action W A
  pure a w = (done a, w)

  infixl 5 ◌>>=◌ ◌>>◌
  abbrev pub after : {A B : Type 0} → (A → Action W B) → Outcome A × W → Outcome B × W
  after k (done a, w) = k a w
  after k (threw e, w) = (threw e, w)

  abbrev pub ◌>>=◌ : {A B : Type 0} → Action W A → (A → Action W B) → Action W B
  ◌>>=◌ m k w = after k (m w)

  abbrev pub ◌>>◌ : {B : Type 0} → Action W (Unit {0}) → Action W B → Action W B
  m >> k = m >>= λ _. k

-- The exit code is `none` if the command was killed by a signal.
pub record ExecResult : Type 0 where
  pub stdout : Text
  pub stderr : Text
  pub exit_code : Option ℕ

-- `exec(command, input?)`.
abbrev pub CommandExecutor : Type 0 → Type 0
CommandExecutor W = Text → Option Text → Action W ExecResult

-- An executor that notes the commands it is given, in front of any other.
unfoldable pub noting : {W : Type 0} → CommandExecutor W → CommandExecutor (List Text × W)
noting executor command input (sent, w) =
    let ran = executor command input w in (ran.0, (sent ++ command ∷ [], ran.1))

-- An invariant of the world that a finished action keeps.
abbrev pub Keeps {κ} : {W A : Type 0} → (W → Type κ) → Action W A → Type κ
Keeps {W} P m = (w : W) → P w → P (m w).1

pub Keeps-bind {κ} :
    {W A B : Type 0} (P : W → Type κ) (m : Action W A) (k : A → Action W B)
    → Keeps P m
    → ((a : A) → Keeps P (k a))
    → Keeps P (m >>= k)
Keeps-bind {W} {A} P m k h g w p = go (m w).0 (m w).1 (h w p)
  where
    go : (o : Outcome A) (w' : W) → P w' → P (after k (o, w')).1
    go (done a) w' q = g a w' q
    go (threw e) w' q = q
