-- ===== src/Core/Log/Numbering.antt =====
-- The ids of the records (packages/core/src/transparency/log.ts).
use desk_ssh.Base.{ℕ, suc, ◌+◌, List, [], ◌∷◌, ◌++◌, ◌≡◌, refl, arith, length, length-append}
use desk_ssh.Core.Log.{Execution, CommandRecord, TransparencyLog, new_log, append}

-- The ids count up from `k`.
abbrev pub Numbered : ℕ → List CommandRecord → Type 0
Numbered k [] = Unit
Numbered k (r ∷ rs) = (r.id ≡ k) × Numbered (suc k) rs

-- The ids are 1, 2, …, and `nextId` is the one that comes next.
pub record IsNumbered (log : TransparencyLog) : Type 0 where
  pub ids : Numbered 1 log.entries
  pub next : log.next_id ≡ 1 + length log.entries

Numbered-append :
    (k : ℕ) (rs : List CommandRecord) (r : CommandRecord)
    → Numbered k rs
    → r.id ≡ k + length rs
    → Numbered k (rs ++ r ∷ [])
Numbered-append k [] r h e = (omega arith, tt)
Numbered-append k (q ∷ rs) r (h, hs) e = (h, Numbered-append (suc k) rs r hs (omega arith))

pub append-IsNumbered :
    (entry : Execution) (log : TransparencyLog) → IsNumbered log → IsNumbered (append entry log)
unfolding append
append-IsNumbered entry log h = record {
  ids = Numbered-append 1 log.entries _ h.ids h.next;
  next =
      omega (
        arith,
        h.next,
        length-append log.entries (record { id = log.next_id; entry = entry } ∷ []),
      );
}

pub new_log-IsNumbered : IsNumbered new_log
new_log-IsNumbered = record { ids = tt; next = refl }
