-- ===== src/Web/Paths.antt =====
-- packages/web/src/features/desktop/apps/lib.ts: POSIX paths.
pub mod Laws
use desk_ssh.Base.{ℕ, zero, suc, ◌++◌, none, some, if◌then◌else◌, take, drop, ◌∷◌}
use desk_ssh.Js.Text.{Text, codes, text_eq, last_index_of}
use desk_ssh.Js.Regex.{strip_slashes}

unfoldable pub join_path : Text → Text → Text
join_path dir name =
    if text_eq dir (codes "/") then b'/' ∷ name else strip_slashes dir ++ b'/' ∷ name

unfoldable pub parent_path : Text → Text
parent_path path =
    let trimmed = strip_slashes path in
    elim (last_index_of b'/' trimmed) [
      | none ↦ codes "/"
      | some zero ↦ codes "/"
      | some (suc i) ↦ take (suc i) trimmed
    ]

unfoldable pub base_name : Text → Text
base_name path = elim (last_index_of b'/' path) [ none ↦ path | some i ↦ drop (suc i) path ]
