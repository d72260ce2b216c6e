-- ===== src/Server/KnownHosts.antt =====
-- packages/server/src/known-hosts.ts: the host keys that were chosen to be trusted. The file is a map
-- on disk; reading and printing its JSON is outside the model.
use desk_ssh.Base.{[], Option, none, some}
use desk_ssh.Js.Text.{Text}
use desk_ssh.Js.Map
use desk_ssh.Js.Map.{Map}

-- The store in memory and the contents of its file.
pub record KnownHosts : Type 0 where
  pub map : Map Text
  pub file : Option (Map Text)

-- `load`: a file that is missing or is no JSON object gives an empty map.
unfoldable pub load : Option (Map Text) → Map Text
load none = []
load (some m) = m

-- `new FileKnownHosts(path)`.
unfoldable pub open_store : Option (Map Text) → KnownHosts
unfolding load
open_store file = record { map = load file; file = file }

unfoldable pub known : Text → KnownHosts → Option Text
unfolding Map.get
known host_port store = Map.get host_port store.map

unfoldable pub trust : Text → Text → KnownHosts → KnownHosts
unfolding Map.set
trust host_port fingerprint store = record {
  map = Map.set host_port fingerprint store.map;
  file = some (Map.set host_port fingerprint store.map);
}
