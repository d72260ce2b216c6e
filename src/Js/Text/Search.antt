-- ===== src/Js/Text/Search.antt =====
-- `startsWith` and `includes` find what they look for.
use desk_ssh.Base.{
  true, [], ◌∷◌, ◌++◌, ◌==◌, ◌≡◌, refl, sym, ap, ap₂, ◌∙◌, ◌↔◌, arith, ==_iff, ==_refl, Bool-cases,
  inl, inr, true-ne-false,
}
use desk_ssh.Js.Text.{Text, starts_with, includes}

abbrev pub IsPrefix : Text → Text → Type 0
IsPrefix p s = (rest : Text) × (s ≡ p ++ rest)

-- The phrase stands in the text.
abbrev pub Contains : Text → Text → Type 0
Contains s p = (before : Text) × ((rest : Text) × (s ≡ before ++ (p ++ rest)))

starts_with→IsPrefix : (s p : Text) → starts_with s p ≡ true → IsPrefix p s
unfolding starts_with
starts_with→IsPrefix s [] h = (s, refl)
starts_with→IsPrefix [] (d ∷ p) h = absurd (true-ne-false (sym h))
starts_with→IsPrefix (c ∷ s) (d ∷ p) h = elim (Bool-cases (c == d)) [
  | inl e ↦ tail ((==_iff c d).0 e) (starts_with→IsPrefix s p (rest e))
  | inr e ↦ absurd (true-ne-false (sym h ∙ rw e refl))
]
  where
    rest : (c == d) ≡ true → starts_with s p ≡ true
    rest e = ground arith

    tail : c ≡ d → IsPrefix p s → IsPrefix (d ∷ p) (c ∷ s)
    tail e (r, q) = (r, ap₂ (λ x xs. x ∷ xs) e q)

starts_with_append : (p rest : Text) → starts_with (p ++ rest) p ≡ true
unfolding starts_with
starts_with_append [] rest = refl
starts_with_append (c ∷ p) rest = rw (==_refl c) (starts_with_append p rest)

includes→Contains : (s p : Text) → includes s p ≡ true → Contains s p
unfolding includes
includes→Contains [] p h = ([], starts_with→IsPrefix [] p h)
includes→Contains (c ∷ s) p h = elim (Bool-cases (starts_with (c ∷ s) p)) [
  | inl e ↦ ([], starts_with→IsPrefix (c ∷ s) p e)
  | inr e ↦ later (includes→Contains s p (ground arith))
]
  where
    later : Contains s p → Contains (c ∷ s) p
    later (before, (rest, e)) = (c ∷ before, (rest, ap (λ t. c ∷ t) e))

includes_here : (p rest : Text) → includes (p ++ rest) p ≡ true
unfolding includes
includes_here [] [] = unfold starts_with in refl
includes_here [] (c ∷ rest) = unfold starts_with in refl
includes_here (c ∷ p) rest = rw (starts_with_append (c ∷ p) rest) refl

includes_append : (before p rest : Text) → includes (before ++ (p ++ rest)) p ≡ true
unfolding includes
includes_append [] p rest = includes_here p rest
includes_append (c ∷ before) p rest = ground (arith, includes_append before p rest)

pub includes_iff : (s p : Text) → (includes s p ≡ true) ↔ Contains s p
includes_iff s p =
    (includes→Contains s p, λ (before, (rest, e)). rw e (includes_append before p rest))
