-- ===== src/Core/Result/Laws.antt =====
-- What the harness of packages/core/src/contract/result.ts reports.
use desk_ssh.Base.{◌++◌, ℕ, ◌≡◌, ◌≢◌, ◌↔◌, arith, Option, none, some}
use desk_ssh.Js.Text.{Text, codes, text_or, trim}
use desk_ssh.Core.Exec.{Outcome, done, threw, ExecResult, CommandExecutor, after, pure}
use desk_ssh.Core.Result.{ok, degraded, failed, Parser, parsed, read_result, run_parsed, show_code}

-- The trimmed error output, or a sentence with the exit code if there is none.
abbrev pub failure_reason : ExecResult → Text
failure_reason r =
    text_or (trim r.stderr) (codes "command exited with code " ++ show_code r.exit_code)

module _ {A : Type 0} (parser : Parser A) (r : ExecResult) where
  -- A finished command is reported as a value exactly if it exited with zero and the parser read its
  -- standard output, as degraded exactly if it exited with zero and the parser threw, and in both
  -- cases with the output itself; as failed exactly otherwise, with the exit code, the error output
  -- (or the output if that is empty) and the reason.
  pub read_result_iff :
      ((a : A) (raw : Text)
        → (read_result parser r ≡ ok a raw)
          ↔ ((r.exit_code ≡ some 0) × (parser r.stdout ≡ done a) × (raw ≡ r.stdout)))
      × ((raw reason : Text)
          → (read_result parser r ≡ degraded raw reason)
            ↔ ((r.exit_code ≡ some 0) × (parser r.stdout ≡ threw reason) × (raw ≡ r.stdout)))
      × ((raw reason : Text) (code : Option ℕ)
          → (read_result parser r ≡ failed raw code reason) ↔ (
              (code ≡ r.exit_code)
              × (r.exit_code ≢ some 0)
              × (raw ≡ text_or r.stderr r.stdout)
              × (reason ≡ failure_reason r)))
  unfolding read_result parsed
  read_result_iff =
      (λ a raw. ground arith, λ raw reason. ground arith, λ raw reason code. ground arith)

pure_threw_iff :
    {W A B : Type 0} (f : A → B) (o : Outcome A) (v : W) (e : Text)
    → ((after (λ a. pure (f a)) (o, v)).0 ≡ threw e) ↔ (o ≡ threw e)
pure_threw_iff f (done a) v e = (λ h. cc, λ h. cc)
pure_threw_iff f (threw d) v e = (λ h. cc, λ h. cc)

-- The harness throws exactly if the executor throws, with the same error; a parser that throws does
-- not make it throw.
pub run_parsed_threw_iff :
    {W A : Type 0} (executor : CommandExecutor W) (command : Text) (parser : Parser A) (w : W)
    (e : Text)
    → ((run_parsed executor command parser w).0 ≡ threw e) ↔ ((executor command none w).0 ≡ threw e)
unfolding run_parsed
run_parsed_threw_iff executor command parser w e =
    pure_threw_iff (read_result parser) (executor command none w).0 (executor command none w).1 e
