-- ===== src/Core/Debian/Services.antt =====
-- packages/core/src/adapters/debian.ts: the parser of `systemctl show`.
use desk_ssh.Base.{zero, suc, List, [], ◌∷◌, none, some, or_else, take, drop}
use desk_ssh.Js.Text.{Text, codes, text_eq, text_or, index_of, split, trim}
use desk_ssh.Js.Map
use desk_ssh.Js.Map.{Map}
use desk_ssh.Core.Exec.{Outcome, done, threw}
use desk_ssh.Core.Types.{ServiceState}
use desk_ssh.Core.Debian.Files.{newline}

-- A line `key=value` with a key that is not empty.
unfoldable pub add_kv : Map Text → Text → Map Text
unfolding index_of Map.set trim
add_kv kv line = elim (index_of b'=' line) [
  | none ↦ kv
  | some zero ↦ kv
  | some (suc i) ↦ Map.set (take (suc i) line) (trim (drop (suc (suc i)) line)) kv
]

unfoldable pub add_kvs : Map Text → List Text → Map Text
unfolding add_kv
add_kvs kv [] = kv
add_kvs kv (line ∷ lines) = add_kvs (add_kv kv line) lines

unfoldable pub parse_service_state : Text → Text → Outcome ServiceState
unfolding add_kvs split Map.get text_eq
parse_service_state name stdout =
    let kv = add_kvs [] (split newline stdout) in
    elim (Map.get (codes "ActiveState") kv) [
      | none ↦ threw (codes "Incomplete systemctl show output")
      | some active ↦ done (record {
        name = name;
        active = text_eq active (codes "active");
        enabled = text_eq (or_else (Map.get (codes "UnitFileState") kv) []) (codes "enabled");
        status = text_or (or_else (Map.get (codes "SubState") kv) []) active;
      })
    ]
