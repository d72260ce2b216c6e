-- ===== src/Core/Log.antt =====
-- packages/core/src/transparency/log.ts: the log of executed commands, and the executor that writes it.
pub mod Numbering
use desk_ssh.Base.{
  ℕ, zero, suc, ◌+◌, List, [], ◌∷◌, ◌++◌, map, Bool, true, false, Option, none, some, any, keep,
  not, ◌==◌, if◌then◌else◌,
}
use desk_ssh.Js.Text.{Text}
use desk_ssh.Js.Number.{ℤ, difference}
use desk_ssh.Core.Exec.{Outcome, done, threw, Action, ExecResult, CommandExecutor}

-- A record without its id.
pub record Execution : Type 0 where
  pub command : Text
  pub host : Text
  pub started_at : ℕ
  pub duration_ms : ℤ
  -- `none` if the execution threw, `some none` if a signal killed the command.
  pub exit_code : Option (Option ℕ)
  pub error : Option Text

pub record CommandRecord : Type 0 where
  pub id : ℕ
  pub entry : Execution

-- Listeners are named by numbers; `delivered` is what they have been called with, in order.
pub record TransparencyLog : Type 0 where
  pub entries : List CommandRecord
  pub listeners : List ℕ
  pub next_id : ℕ
  pub delivered : List (ℕ × CommandRecord)

abbrev pub new_log : TransparencyLog
new_log = record { entries = []; listeners = []; next_id = 1; delivered = [] }

-- `record(entry)`: the log afterwards. The record that it returns is the last entry.
unfoldable pub append : Execution → TransparencyLog → TransparencyLog
append entry log =
    let full : CommandRecord = record { id = log.next_id; entry = entry } in
    record log {
      entries = log.entries ++ full ∷ [];
      next_id = log.next_id + 1;
      delivered = log.delivered ++ map (λ l. (l, full)) log.listeners;
    }

-- `list()`.
abbrev pub list : TransparencyLog → List CommandRecord
list log = log.entries

-- `subscribe`: adding to a set.
unfoldable pub subscribe : ℕ → TransparencyLog → TransparencyLog
subscribe listener log =
    if any (λ l. l == listener) log.listeners
    then log
    else record log { listeners = log.listeners ++ listener ∷ [] }

-- The function that `subscribe` returns.
unfoldable pub unsubscribe : ℕ → TransparencyLog → TransparencyLog
unsubscribe listener log = record log { listeners = keep (λ l. not (l == listener)) log.listeners }

module _ {W : Type 0} (now : W → ℕ) where
  -- The record of an execution that began in one world and ended in another.
  unfoldable pub execution : Text → Text → W → Outcome ExecResult × W → Execution
  unfolding difference
  execution host command w (done r, w') = record {
    command = command;
    host = host;
    started_at = now w;
    duration_ms = difference (now w') (now w);
    exit_code = some r.exit_code;
    error = none;
  }
  execution host command w (threw e, w') = record {
    command = command;
    host = host;
    started_at = now w;
    duration_ms = difference (now w') (now w);
    exit_code = none;
    error = some e;
  }

  -- The log stands beside the world. `Date.now` reads a clock of the world.
  unfoldable pub with_transparency :
      CommandExecutor W → Text → CommandExecutor (TransparencyLog × W)
  unfolding append execution
  with_transparency executor host command input (log, w) =
      let ran = executor command input w in
      (ran.0, (append (execution host command w ran) log, ran.1))
