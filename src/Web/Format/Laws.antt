-- ===== src/Web/Format/Laws.antt =====
-- packages/web/src/features/desktop/apps/lib.ts: the numbers that are printed are the right ones.
use desk_ssh.Base.{
  ℕ, ◌+◌, ◌*◌, ◌%◌, ◌<◌, ◌≤◌, List, [], ◌∷◌, leb, ◌≡◌, refl, arith, ◌⊎◌, inl, inr, Bool-cases,
}
use desk_ssh.Js.Text.{Text}
use desk_ssh.Web.Format.{uptime_parts, pick_unit, units}

-- The days, hours and minutes of an uptime, and the seconds that are left out, add up to it; the
-- hours are below 24 and the minutes below 60.
pub uptime_parts_sum :
    (seconds : ℕ)
    → let (d, h, m) = uptime_parts seconds in
      (d * 86400 + (h * 3600 + (m * 60 + seconds % 60)) ≡ seconds) × ((h < 24) × (m < 60))
unfolding uptime_parts
uptime_parts_sum seconds = (omega arith, (omega arith, omega arith))

abbrev pub last_unit : List Text → Text
last_unit [] = []
last_unit (u ∷ []) = u
last_unit (u ∷ v ∷ us) = last_unit (v ∷ us)

-- The size is at least one of the unit, and below 1024 of it unless no larger unit is left.
abbrev pub Fits : ℕ → List Text → ℕ × Text → Type 0
Fits bytes us (d, u) = (d ≤ bytes) × ((bytes < d * 1024) ⊎ (u ≡ last_unit us))

pick_unit-Fits : (bytes d : ℕ) (us : List Text) → d ≤ bytes → Fits bytes us (pick_unit bytes d us)
unfolding pick_unit
pick_unit-Fits bytes d [] h = (h, inr refl)
pick_unit-Fits bytes d (u ∷ []) h = (h, inr refl)
pick_unit-Fits bytes d (u ∷ v ∷ us) h = elim (Bool-cases (leb (d * 1024) bytes)) [
  | inl e ↦ rw e (pick_unit-Fits bytes (d * 1024) (v ∷ us) (ground arith))
  | inr e ↦ rw e (h, inl (ground arith))
]

-- From 1024 bytes on, the size that is printed is at least one of its unit, and below 1024 of it
-- unless the unit is the terabyte.
pub format_bytes_unit : (bytes : ℕ) → 1024 ≤ bytes → Fits bytes units (pick_unit bytes 1024 units)
format_bytes_unit bytes h = pick_unit-Fits bytes 1024 units h
