-- ===== src/Web/Files/Unique.antt =====
-- packages/web/src/features/desktop/apps/FilesApp.tsx, `uniqueName`: a name that is not taken.
use desk_ssh.Base.{
  ℕ, zero, suc, Bool, true, false, not, List, [], ◌∷◌, ◌++◌, any, length, take, drop, Option, none,
  some, if◌then◌else◌,
}
use desk_ssh.Js.Text.{Text, codes, text_eq, last_index_of}
use desk_ssh.Js.Number.{show}

-- `existing.has(name)`.
unfoldable pub has : List Text → Text → Bool
unfolding text_eq
has existing name = any (text_eq name) existing

-- The name before its extension, and the extension with its dot. A dot in front is none.
abbrev pub split_name : Text → Option ℕ → Text × Text
split_name name (some (suc i)) = (take (suc i) name, drop (suc i) name)
split_name name _ = (name, [])

unfoldable pub stem : Text → Text
unfolding last_index_of
stem name = (split_name name (last_index_of b'.' name)).0

unfoldable pub extension : Text → Text
unfolding last_index_of
extension name = (split_name name (last_index_of b'.' name)).1

unfoldable pub candidate : Text → Text → ℕ → Text
unfolding show
candidate base ext n = base ++ (codes " (" ++ (show n ++ b')' ∷ ext))

-- The loop, with fuel: the first number whose name is free.
unfoldable pub first_free : List Text → Text → Text → ℕ → ℕ → Option ℕ
unfolding has candidate
first_free existing base ext zero n = none
first_free existing base ext (suc f) n = elim (has existing (candidate base ext n)) [
  | true ↦ first_free existing base ext f (suc n)
  | false ↦ some n
]

abbrev pub named : Text → Text → Option ℕ → Option Text
named base ext none = none
named base ext (some n) = some (candidate base ext n)

-- One round more than there are names is enough.
unfoldable pub unique_name : Text → List Text → Option Text
unfolding has first_free stem extension
unique_name name existing =
    if not (has existing name)
    then some name
    else named (stem name) (extension name)
        (first_free existing (stem name) (extension name) (suc (length existing)) 2)
