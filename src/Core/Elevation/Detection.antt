-- ===== src/Core/Elevation/Detection.antt =====
-- packages/core/src/privilege/elevation.ts: which texts count as a privilege error.
use desk_ssh.Base.{
  List, [], ◌∷◌, ◌≡◌, refl, sym, ◌↔◌, ◌⊎◌, inl, inr, arith, true, any, Bool-cases, true-ne-false,
}
use desk_ssh.Js.Text.{Text, includes, fold_case}
use desk_ssh.Js.Text.Search.{Contains, includes_iff}
use desk_ssh.Core.Elevation.{permission_phrases, is_permission_denied}

-- One of the phrases stands in the text.
abbrev pub ContainsOne : Text → List Text → Type 0
ContainsOne s [] = ⊥
ContainsOne s (p ∷ ps) = Contains s p ⊎ ContainsOne s ps

any→ContainsOne : (s : Text) (ps : List Text) → any (includes s) ps ≡ true → ContainsOne s ps
any→ContainsOne s [] h = absurd (true-ne-false (sym h))
any→ContainsOne s (p ∷ ps) h = elim (Bool-cases (includes s p)) [
  | inl e ↦ inl ((includes_iff s p).0 e)
  | inr e ↦ inr (any→ContainsOne s ps (ground arith))
]

ContainsOne→any : (s : Text) (ps : List Text) → ContainsOne s ps → any (includes s) ps ≡ true
ContainsOne→any s [] h = absurd h
ContainsOne→any s (p ∷ ps) (inl h) = rw ((includes_iff s p).1 h) refl
ContainsOne→any s (p ∷ ps) (inr h) = ground (arith, ContainsOne→any s ps h)

-- A text counts as a privilege error exactly if one of the ten phrases stands in it, in any case.
pub is_permission_denied_iff :
    (text : Text)
    → (is_permission_denied text ≡ true) ↔ ContainsOne (fold_case text) permission_phrases
unfolding is_permission_denied
is_permission_denied_iff text = (
  any→ContainsOne (fold_case text) permission_phrases,
  ContainsOne→any (fold_case text) permission_phrases,
)
