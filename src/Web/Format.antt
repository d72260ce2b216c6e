-- ===== src/Web/Format.antt =====
-- packages/web/src/features/desktop/apps/lib.ts: sizes and times for people. A division by 1024 is
-- exact in a float, and `toFixed` rounds the exact value, so exact ratios print the same.
pub mod Laws
use desk_ssh.Base.{
  ℕ, zero, suc, ◌+◌, ◌*◌, ◌/◌, ◌%◌, List, [], ◌∷◌, ◌++◌, ltb, leb, ◌==◌, if◌then◌else◌,
}
use desk_ssh.Js.Text.{Text, codes, join}
use desk_ssh.Js.Number.{show}

-- `(n / d).toFixed(1)`: the nearest tenth, halves up.
unfoldable pub to_fixed_1 : ℕ → ℕ → Text
to_fixed_1 n d =
    let tenths = (20 * n + d) / (2 * d) in show (tenths / 10) ++ (codes "." ++ show (tenths % 10))

-- The loop of `formatBytes` over the units that are left: the value is `bytes / d`.
unfoldable pub pick_unit : ℕ → ℕ → List Text → ℕ × Text
pick_unit bytes d [] = (d, [])
pick_unit bytes d (unit ∷ []) = (d, unit)
pick_unit bytes d (unit ∷ next ∷ units) =
    let rest = pick_unit bytes (d * 1024) (next ∷ units) in
    if leb (d * 1024) bytes then rest else (d, unit)

abbrev pub units : List Text
units = codes "KB" ∷ codes "MB" ∷ codes "GB" ∷ codes "TB" ∷ []

unfoldable pub format_bytes : ℕ → Text
format_bytes bytes =
    let picked = pick_unit bytes 1024 units in
    if ltb bytes 1024
    then show bytes ++ codes " B"
    else to_fixed_1 bytes picked.0 ++ (codes " " ++ picked.1)

-- Days, hours and minutes.
unfoldable pub uptime_parts : ℕ → ℕ × ℕ × ℕ
uptime_parts seconds = (seconds / 86400, (seconds % 86400) / 3600, (seconds % 3600) / 60)

-- A part that is left out where it is zero.
abbrev pub part : ℕ → Text → List Text → List Text
part n unit ps = if n == 0 then ps else (show n ++ unit) ∷ ps

unfoldable pub format_uptime : ℕ → Text
format_uptime seconds =
    let (d, h, m) = uptime_parts seconds in
    join (codes " ") (part d (codes "d") (part h (codes "h") ((show m ++ codes "m") ∷ [])))
