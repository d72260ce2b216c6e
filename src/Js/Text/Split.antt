-- ===== src/Js/Text/Split.antt =====
-- Splitting a text at a code unit, and joining the parts.
use desk_ssh.Base.{
  ℕ, true, List, [], ◌∷◌, ◌++◌, append_assoc, ◌≡◌, ◌≢◌, refl, arith, ==_refl, ==_ne, ◌==◌, all, not,
  All,
}
use desk_ssh.Js.Text.{Text, Parts, parts, to_list, cons_part, new_part, split_parts, split, join}

-- The text holds no `c`.
abbrev pub Lacks : ℕ → Text → Type 0
Lacks c = All (λ d. d ≢ c)

-- A test of the same, for a text that is given.
pub Lacks-of_test : (c : ℕ) (s : Text) → all (λ d. not (d == c)) s ≡ true → Lacks c s
Lacks-of_test c [] h = tt
Lacks-of_test c (d ∷ s) h = ground (arith, Lacks-of_test c s)

-- Each line with a separator behind it.
unfoldable pub ended : ℕ → List Text → Text
ended sep [] = []
ended sep (l ∷ ls) = (l ++ sep ∷ []) ++ ended sep ls

split_parts-append :
    (sep : ℕ) (p s : Text)
    → Lacks sep p
    → split_parts sep (p ++ sep ∷ s) ≡ parts p (to_list (split_parts sep s))
unfolding split_parts
split_parts-append sep [] s h = ground (arith, ==_refl sep)
split_parts-append sep (c ∷ p) s (h, hs) = rw (==_ne c sep h, split_parts-append sep p s hs)

split_parts_of_Lacks : (sep : ℕ) (p : Text) → Lacks sep p → split_parts sep p ≡ parts p []
unfolding split_parts
split_parts_of_Lacks sep [] h = refl
split_parts_of_Lacks sep (c ∷ p) (h, hs) = rw (==_ne c sep h, split_parts_of_Lacks sep p hs)

-- A part that lacks the separator is cut off at the separator behind it.
pub split-append : (sep : ℕ) (p s : Text) → Lacks sep p → split sep (p ++ sep ∷ s) ≡ p ∷ split sep s
unfolding split
split-append sep p s h = rw (split_parts-append sep p s h)

pub split_of_Lacks : (sep : ℕ) (p : Text) → Lacks sep p → split sep p ≡ p ∷ []
unfolding split
split_of_Lacks sep p h = rw (split_parts_of_Lacks sep p h)

join-cons_part :
    (sep : Text) (c : ℕ) (ps : Parts)
    → join sep (to_list (cons_part c ps)) ≡ c ∷ join sep (to_list ps)
unfolding join
join-cons_part sep c (parts p []) = refl
join-cons_part sep c (parts p (q ∷ ps)) = refl

join-new_part :
    (sep : ℕ) (ps : Parts)
    → join (sep ∷ []) (to_list (new_part ps)) ≡ sep ∷ join (sep ∷ []) (to_list ps)
unfolding join
join-new_part sep (parts p ps) = refl

join-split_parts : (sep : ℕ) (s : Text) → join (sep ∷ []) (to_list (split_parts sep s)) ≡ s
unfolding split_parts
join-split_parts sep [] = unfold join in refl
join-split_parts sep (c ∷ s) = ground (
  arith,
  join-split_parts sep s,
  join-cons_part (sep ∷ []) c (split_parts sep s),
  join-new_part sep (split_parts sep s),
)

-- Joining the parts of a split gives the text back, for every text.
pub join-split : (sep : ℕ) (s : Text) → join (sep ∷ []) (split sep s) ≡ s
unfolding split
join-split sep s = join-split_parts sep s

ended-nil : (sep : ℕ) → ended sep [] ≡ []
unfolding ended
ended-nil sep = refl

ended-cons : (sep : ℕ) (l : Text) (ls : List Text) → ended sep (l ∷ ls) ≡ l ++ sep ∷ ended sep ls
unfolding ended
ended-cons sep l ls = append_assoc l (sep ∷ []) (ended sep ls)

split-nil : (sep : ℕ) → split sep [] ≡ [] ∷ []
unfolding split
split-nil sep = refl

-- The lines of a text whose lines end in the separator: each line, and an empty part at the end.
pub split-ended :
    (sep : ℕ) (ls : List Text) → All (Lacks sep) ls → split sep (ended sep ls) ≡ ls ++ [] ∷ []
split-ended sep [] h = rw ended-nil (split-nil sep)
split-ended sep (l ∷ ls) (h, hs) =
    rw (ended-cons, split-append sep l (ended sep ls) h, split-ended sep ls hs)
