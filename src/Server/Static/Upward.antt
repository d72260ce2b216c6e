-- ===== src/Server/Static/Upward.antt =====
-- packages/server/src/static.ts: what `replace(/^(\.\.[/\\])+/, '')` leaves of a normalized path.
use desk_ssh.Base.{
  ℕ, true, false, List, [], ◌∷◌, ◌++◌, ◌≡◌, ◌≢◌, ◌⊎◌, inl, inr, refl, sym, ◌∙◌, ap, arith, All,
  Bool-cases, true-ne-false,
}
use mathlib.Core.Path.{subst}
use desk_ssh.Js.Text.{
  Text, Parts, parts, to_list, codes, starts_with, split, split_parts, cons_part, join, text_eq,
}
use desk_ssh.Js.Text.Equality.{text_eq→eq, text_eq_refl}
use desk_ssh.Js.Text.Split.{split-append, join-split}
use desk_ssh.Server.Static.{strip_up, is_up}

abbrev NoUp : Text → Type 0
NoUp p = p ≢ codes ".."

-- No part of the path is `..`.
abbrev pub HasNoUp : Text → Type 0
HasNoUp path = All NoUp (split b'/' path)

pub slash-HasNoUp : (path : Text) → HasNoUp path → HasNoUp (47 ∷ path)
slash-HasNoUp path h = rw (split-append 47 [] path tt) ((λ e. cc), h)

-- The parts `..`, if there are any, stand in front of the others.
abbrev pub UpsFirst : List Text → Type 0
UpsFirst [] = Unit
UpsFirst (p ∷ ps) = All NoUp (p ∷ ps) ⊎ ((p ≡ codes "..") × UpsFirst ps)

abbrev pub IsNormal : Text → Type 0
IsNormal path = UpsFirst (split b'/' path)

UpsFirst-All : (ps : List Text) → All NoUp ps → UpsFirst ps
UpsFirst-All [] h = tt
UpsFirst-All (p ∷ ps) h = inl h

-- A path that does not begin with `../` is `..` alone or has no part `..`.
stopped-parts :
    (s : Text) (ps : List Text)
    → join (47 ∷ []) ps ≡ s
    → UpsFirst ps
    → starts_with s (codes "../") ≡ false
    → (s ≡ codes "..") ⊎ All NoUp ps
unfolding join
stopped-parts s [] e h k = inr tt
stopped-parts s (p ∷ ps) e (inl h) k = inr h
stopped-parts s (p ∷ []) e (inr (q, h)) k = inl (sym e ∙ q)
stopped-parts s (p ∷ r ∷ rs) e (inr (q, h)) k = absurd (
    true-ne-false (
      sym (up_first (join (47 ∷ []) (r ∷ rs)))
      ∙ (ap (λ t. starts_with t (codes "../"))
            (ap (λ (u : Text). u ++ 47 ∷ join (47 ∷ []) (r ∷ rs)) (sym q) ∙ e)
          ∙ k)))
  where
    up_first : (t : Text) → starts_with (codes ".." ++ 47 ∷ t) (codes "../") ≡ true
    up_first t = unfold starts_with in refl

stopped :
    (s : Text) → IsNormal s → starts_with s (codes "../") ≡ false → (s ≡ codes "..") ⊎ HasNoUp s
stopped s h k = stopped-parts s (split 47 s) (join-split 47 s) h k

-- Behind `../` or `..\\` the path is normal still.
drop_slash : (s : Text) → IsNormal (46 ∷ 46 ∷ 47 ∷ s) → IsNormal s
drop_slash s h =
    go (subst UpsFirst (split-append 47 (46 ∷ 46 ∷ []) s ((omega arith), ((omega arith), tt))) h)
  where
    go : UpsFirst ((46 ∷ 46 ∷ []) ∷ split 47 s) → UpsFirst (split 47 s)
    go (inl (n, ns)) = absurd (n refl)
    go (inr (e, k)) = k

drop_backslash : (s : Text) → IsNormal (46 ∷ 46 ∷ 92 ∷ s) → IsNormal s
unfolding split split_parts
drop_backslash s h = go (split_parts 47 s) h
  where
    go :
        (ps : Parts)
        → UpsFirst (to_list (cons_part 46 (cons_part 46 (cons_part 92 ps))))
        → UpsFirst (to_list ps)
    go (parts p ps) (inr (e, k)) = cc
    go (parts p ps) (inl (n, ns)) = elim (Bool-cases (text_eq p (codes ".."))) [
      | inl e ↦ inr (text_eq→eq p (codes "..") e, UpsFirst-All ps ns)
      | inr e ↦ inl (
        (λ q.
            true-ne-false
              (sym (text_eq_refl (codes "..")) ∙ (ap (λ t. text_eq t (codes "..")) (sym q) ∙ e))),
        ns,
      )
    ]

IsNormal-drop : (a b c : ℕ) (s : Text) → is_up a b c ≡ true → IsNormal (a ∷ b ∷ c ∷ s) → IsNormal s
IsNormal-drop a b c s u h = go (ups a b c u) h
  where
    ups : (a b c : ℕ) → is_up a b c ≡ true → (a ≡ 46) × (b ≡ 46) × ((c ≡ 47) ⊎ (c ≡ 92))
    ups a b c u = ground arith

    go : (a ≡ 46) × (b ≡ 46) × ((c ≡ 47) ⊎ (c ≡ 92)) → IsNormal (a ∷ b ∷ c ∷ s) → IsNormal s
    go (e, f, inl g) k = drop_slash s (rw (e, f, g) at k)
    go (e, f, inr g) k = drop_backslash s (rw (e, f, g) at k)

not_up :
    (a b c : ℕ) (s : Text) → is_up a b c ≡ false → starts_with (a ∷ b ∷ c ∷ s) (codes "../") ≡ false
unfolding starts_with
not_up a b c s u = ground arith

-- What is left of a normalized path is `..` alone, or has no part `..`.
pub strip_up-HasNoUp : (s : Text) → IsNormal s → (strip_up s ≡ codes "..") ⊎ HasNoUp (strip_up s)
unfolding strip_up
strip_up-HasNoUp [] h = stopped [] h (unfold starts_with in refl)
strip_up-HasNoUp (a ∷ []) h = stopped (a ∷ []) h (unfold starts_with in ground arith)
strip_up-HasNoUp (a ∷ b ∷ []) h = stopped (a ∷ b ∷ []) h (unfold starts_with in ground arith)
strip_up-HasNoUp (a ∷ b ∷ c ∷ s) h = elim (Bool-cases (is_up a b c)) [
  | inl u ↦ rw u (strip_up-HasNoUp s (IsNormal-drop a b c s u h))
  | inr u ↦ rw u (stopped (a ∷ b ∷ c ∷ s) h (not_up a b c s u))
]
