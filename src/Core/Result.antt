-- ===== src/Core/Result.antt =====
-- packages/core/src/contract/result.ts: the outcome of a capability call, and the parse harness.
pub mod Laws
use desk_ssh.Base.{ℕ, zero, suc, List, ◌++◌, Option, none, some, if◌then◌else◌}
use desk_ssh.Js.Text.{Text, codes, trim, text_or}
use desk_ssh.Js.Number.{show}
use desk_ssh.Core.Exec.{Outcome, done, threw, Action, pure, ◌>>=◌, ExecResult, CommandExecutor}

pub data CapabilityResult (A : Type 0) : Type 0 where
  ok : (value : A) (raw : Text) → CapabilityResult A
  degraded : (raw reason : Text) → CapabilityResult A
  failed : (raw : Text) (exit_code : Option ℕ) (reason : Text) → CapabilityResult A
  unsupported : (reason : Text) → CapabilityResult A

-- `String(exitCode)`.
unfoldable pub show_code : Option ℕ → Text
show_code none = codes "null"
show_code (some n) = show n

-- A parser throws the message of its error.
abbrev pub Parser : Type 0 → Type 0
Parser A = Text → Outcome A

-- The `try` block: what a parser makes of the standard output.
unfoldable pub parsed : {A : Type 0} → Text → Outcome A → CapabilityResult A
parsed raw (done a) = ok a raw
parsed raw (threw e) = degraded raw e

-- What `runParsed` returns for a finished command.
unfoldable pub read_result : {A : Type 0} → Parser A → ExecResult → CapabilityResult A
unfolding parsed show_code trim
read_result parser r = elim r.exit_code [
  | none ↦
      failed (text_or r.stderr r.stdout) none
        (text_or (trim r.stderr) (codes "command exited with code " ++ show_code none))
  | some zero ↦ parsed r.stdout (parser r.stdout)
  | some (suc n) ↦
      failed (text_or r.stderr r.stdout) (some (suc n))
        (text_or (trim r.stderr) (codes "command exited with code " ++ show_code (some (suc n))))
]

unfoldable pub run_parsed :
    {W A : Type 0} → CommandExecutor W → Text → Parser A → Action W (CapabilityResult A)
unfolding read_result
run_parsed executor command parser = do r ← executor command none; pure (read_result parser r)
