-- ===== src/Js/Map.antt =====
-- `Map<string, V>` and records used as maps: an association list in insertion order, where setting
-- a key that is there keeps its place.
pub mod Laws
use desk_ssh.Base.{ℕ, suc, List, [], ◌∷◌, Option, none, some, if◌then◌else◌, Bool, true, false, map}
use desk_ssh.Js.Text.{Text, text_eq}

abbrev pub Map {ℓ} : Type ℓ → Type ℓ
Map V = List (Text × V)

module _ {ℓ} {V : Type ℓ} where
  unfoldable pub get : Text → Map V → Option V
  get k [] = none
  get k ((j, v) ∷ m) = if text_eq j k then some v else get k m

  unfoldable pub set : Text → V → Map V → Map V
  set k v [] = (k, v) ∷ []
  set k v ((j, w) ∷ m) = if text_eq j k then (k, v) ∷ m else (j, w) ∷ set k v m

  unfoldable pub delete : Text → Map V → Map V
  delete k [] = []
  delete k ((j, w) ∷ m) = let rest = delete k m in if text_eq j k then m else (j, w) ∷ rest

  abbrev pub keys : Map V → List Text
  keys [] = []
  keys ((j, w) ∷ m) = j ∷ keys m
