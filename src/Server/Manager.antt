-- ===== src/Server/Manager.antt =====
-- packages/server/src/session-manager.ts: the registry of live sessions. What an entry holds besides
-- its public data (adapter, executor, log, terminal) is a type parameter `S`. Closing a session acts
-- on the outside; here it is recorded in `closed`.
pub mod Registry
use desk_ssh.Base.{ℕ, suc, List, [], ◌∷◌, ◌++◌, Bool, true, false, Option, none, some, length}
use desk_ssh.Js.Text.{Text}
use desk_ssh.Js.Map
use desk_ssh.Js.Map.{Map}
use desk_ssh.Core.Os.{OsFamily, OsInfo}

pub record Endpoint : Type 0 where
  pub host : Text
  pub port : ℕ

-- An entry without its id.
pub record NewEntry (S : Type 0) : Type 0 where
  pub host : Text
  pub home : Text
  pub os : OsInfo
  pub endpoint : Endpoint
  pub connection : S

pub record SessionEntry (S : Type 0) : Type 0 where
  pub id : Text
  pub entry : NewEntry S

pub record SessionInfo : Type 0 where
  pub session_id : Text
  pub host : Text
  pub home : Text
  pub family : OsFamily
  pub pretty_name : Option Text

unfoldable pub to_session_info : {S : Type 0} → SessionEntry S → SessionInfo
to_session_info e = record {
  session_id = e.id;
  host = e.entry.host;
  home = e.entry.home;
  family = e.entry.os.family;
  pretty_name = e.entry.os.pretty_name;
}

pub record Manager (S : Type 0) : Type 0 where
  pub sessions : Map (SessionEntry S)
  -- The entries whose `close()` was called, in order.
  pub closed : List (SessionEntry S)

module _ {S : Type 0} where
  abbrev pub new_manager : Manager S
  new_manager = record { sessions = []; closed = [] }

  -- `add`, given what `randomUUID()` returned.
  unfoldable pub add : Text → NewEntry S → Manager S → SessionEntry S × Manager S
  unfolding Map.set
  add id entry m =
      let full : SessionEntry S = record { id = id; entry = entry } in
      (full, record m { sessions = Map.set id full m.sessions })

  unfoldable pub get : Text → Manager S → Option (SessionEntry S)
  unfolding Map.get
  get id m = Map.get id m.sessions

  unfoldable pub remove : Text → Manager S → Bool × Manager S
  unfolding get Map.delete
  remove id m = elim (get id m) [
    | none ↦ (false, m)
    | some entry ↦
        (true, record { sessions = Map.delete id m.sessions; closed = m.closed ++ entry ∷ [] })
  ]

  unfoldable pub remove_all : List Text → Manager S → Manager S
  remove_all [] m = m
  remove_all (id ∷ ids) m = remove_all ids (remove id m).1

  -- The keys are copied before the loop.
  unfoldable pub close_all : Manager S → Manager S
  unfolding remove_all
  close_all m = remove_all (Map.keys m.sessions) m

  abbrev pub size : Manager S → ℕ
  size m = length m.sessions
