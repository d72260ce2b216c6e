-- ===== src/Web/Files/Names.antt =====
-- packages/web/src/features/desktop/apps/FilesApp.tsx, `uniqueName`: a free name is found, and it is
-- the first one.
use desk_ssh.Base.{
  ltb, ℕ, zero, suc, ◌≤◌, ◌<◌, true, false, List, [], ◌∷◌, ◌++◌, length, none, some, ◌≡◌, ◌≢◌, refl,
  arith, sym, ap, ◌∙◌, Bool-cases, Option-cases, inl, inr, ◌⊎◌, some_inj, none-ne-some,
  true-ne-false,
}
use mathlib.Core.Path.{subst}
use desk_ssh.Js.Text.{Text, codes, text_eq, span}
use desk_ssh.Js.Text.Equality.{text_eq→eq}
use desk_ssh.Js.Number.{show, parse_int, pos, is_digit_of}
use desk_ssh.Js.Number.Radix.{span-append, AllDigits-show, parse_int-to_radix}
use desk_ssh.Web.Files.Unique.{has, candidate, first_free, unique_name, stem, extension}

append_cancel : (p s t : Text) → p ++ s ≡ p ++ t → s ≡ t
append_cancel [] s t h = h
append_cancel (c ∷ p) s t h = append_cancel p s t (cc)

read_show : (n : ℕ) → parse_int 10 (show n) ≡ some (pos n)
unfolding show
read_show n = parse_int-to_radix 10 n (omega arith) (omega arith)

show_inj : (n m : ℕ) → show n ≡ show m → n ≡ m
show_inj n m h = pos_inj (some_inj (sym (read_show n) ∙ (ap (parse_int 10) h ∙ read_show m)))
  where
    pos_inj : pos n ≡ pos m → n ≡ m
    pos_inj e = cc

span-show : (n : ℕ) (ext : Text) → (span (is_digit_of 10) (show n ++ b')' ∷ ext)).0 ≡ show n
span-show n ext =
    rw
      (span-append (is_digit_of 10) (show n) b')' ext (AllDigits-show n)
        (unfold is_digit_of in refl))
      refl

-- Two numbers give two names.
candidate_inj : (base ext : Text) (n m : ℕ) → candidate base ext n ≡ candidate base ext m → n ≡ m
unfolding candidate
candidate_inj base ext n m h = show_inj n m (
    sym (span-show n ext)
    ∙ (ap (λ s. (span (is_digit_of 10) s).0)
          (append_cancel (codes " (") _ _ (append_cancel base _ _ h))
        ∙ span-show m ext))

abbrev remove_first : Text → List Text → List Text
remove_first c [] = []
remove_first c (x ∷ xs) = elim (text_eq c x) [ true ↦ xs | false ↦ x ∷ remove_first c xs ]

length-remove_first :
    (c : Text) (xs : List Text) → has xs c ≡ true → suc (length (remove_first c xs)) ≡ length xs
unfolding has
length-remove_first c [] h = absurd (true-ne-false (sym h))
length-remove_first c (x ∷ xs) h = ground (arith, length-remove_first c xs)

has-remove_first :
    (c d : Text) (xs : List Text) → d ≢ c → has xs d ≡ true → has (remove_first c xs) d ≡ true
unfolding has
has-remove_first c d [] n h = h
has-remove_first c d (x ∷ xs) n h =
    ground (arith, has-remove_first c d xs n, text_eq→eq c x, text_eq→eq d x)

-- The candidates of `f` numbers from `n` are all taken.
abbrev AllTaken : Text → Text → ℕ → ℕ → List Text → Type 0
AllTaken base ext zero n xs = Unit
AllTaken base ext (suc f) n xs =
    (has xs (candidate base ext n) ≡ true) × AllTaken base ext f (suc n) xs

le-cases : (n k : ℕ) → n ≤ k → (n ≡ k) ⊎ (suc n ≤ k)
le-cases n k h = elim (Bool-cases (ltb n k)) [
  | inl e ↦ inr (ground arith)
  | inr e ↦ inl (ground arith)
]

module _ (base ext : Text) where
  AllTaken-remove_first :
      (f n m : ℕ) (xs : List Text)
      → m < n
      → AllTaken base ext f n xs
      → AllTaken base ext f n (remove_first (candidate base ext m) xs)
  AllTaken-remove_first zero n m xs l h = tt
  AllTaken-remove_first (suc f) n m xs l (h, hs) = (
    has-remove_first (candidate base ext m) (candidate base ext n) xs
        (λ e. omega (arith, candidate_inj base ext n m e)) h,
    AllTaken-remove_first f (suc n) m xs (omega arith) hs,
  )

  -- No more candidates are taken than there are names.
  AllTaken-length : (f n : ℕ) (xs : List Text) → AllTaken base ext f n xs → f ≤ length xs
  AllTaken-length zero n xs h = omega arith
  AllTaken-length (suc f) n xs (h, hs) = omega (
    arith,
    AllTaken-length f (suc n) (remove_first (candidate base ext n) xs)
        (AllTaken-remove_first f (suc n) n xs (omega arith) hs),
    length-remove_first (candidate base ext n) xs h,
  )

  first_free-none :
      (existing : List Text) (f n : ℕ)
      → first_free existing base ext f n ≡ none
      → AllTaken base ext f n existing
  unfolding first_free
  first_free-none existing zero n h = tt
  first_free-none existing (suc f) n h = elim (Bool-cases (has existing (candidate base ext n))) [
    | inl e ↦ (e, first_free-none existing f (suc n) (rw (e, first_free) at h))
    | inr e ↦ absurd (none-ne-some (sym (rw (e, first_free) at h)))
  ]

  -- What the loop finds is free, and everything before it is taken.
  abbrev IsFirst : List Text → ℕ → ℕ → Type 0
  IsFirst existing n m =
      (has existing (candidate base ext m) ≡ false)
      × ((n ≤ m) × ((k : ℕ) → n ≤ k → k < m → has existing (candidate base ext k) ≡ true))

  IsFirst-suc :
      (existing : List Text) (n m : ℕ)
      → has existing (candidate base ext n) ≡ true
      → IsFirst existing (suc n) m
      → IsFirst existing n m
  IsFirst-suc existing n m e (free, (l, before)) = (
    free,
    (
      omega arith,
      λ k nk km. elim (le-cases n k nk) [
        | inl q ↦ subst (λ j. has existing (candidate base ext j) ≡ true) q e
        | inr q ↦ before k q km
      ],
    ),
  )

  first_free-some :
      (existing : List Text) (f n m : ℕ)
      → first_free existing base ext f n ≡ some m
      → IsFirst existing n m
  unfolding first_free
  first_free-some existing zero n m h = absurd (none-ne-some h)
  first_free-some existing (suc f) n m h = elim (Bool-cases (has existing (candidate base ext n))) [
    | inl e ↦
        IsFirst-suc existing n m e (first_free-some existing f (suc n) m (rw (e, first_free) at h))
    | inr e ↦
        subst (IsFirst existing n) (some_inj (rw (e, first_free) at h))
          (e, (omega arith, λ k l u. absurd (omega arith)))
  ]

  first_free-found :
      (existing : List Text)
      → (m : ℕ) × ((first_free existing base ext (suc (length existing)) 2 ≡ some m)
          × IsFirst existing 2 m)
  first_free-found existing =
      elim (Option-cases (first_free existing base ext (suc (length existing)) 2)) [
        | inl e ↦ absurd (
            omega (
              arith,
              AllTaken-length (suc (length existing)) 2 existing (first_free-none existing _ 2 e),
            ))
        | inr (m, e) ↦ (m, (e, first_free-some existing _ 2 m e))
      ]

-- For every name and every set of names, a name is found that is not in the set: the name itself
-- if it is free; else the name with a number from 2 on before its extension, and every smaller such
-- number is taken.
pub unique_name_total :
    (name : Text) (existing : List Text)
    → (result : Text) × ((unique_name name existing ≡ some result)
        × ((has existing result ≡ false)
            × ((has existing name ≡ false) × (result ≡ name)
                ⊎ (has existing name ≡ true)
                  × ((n : ℕ) × ((result ≡ candidate (stem name) (extension name) n)
                        × ((2 ≤ n)
                            × ((k : ℕ)
                                → 2 ≤ k
                                → k < n
                                → has existing (candidate (stem name) (extension name) k)
                                  ≡ true)))))))
unfolding unique_name
unique_name_total name existing = elim (Bool-cases (has existing name)) [
  | inl e ↦
      let (m, (f, (free, (l, before)))) = first_free-found (stem name) (extension name) existing in
      (
        candidate (stem name) (extension name) m,
        (rw (e, f) refl, (free, inr (e, (m, (refl, (l, before)))))),
      )
  | inr e ↦ (name, (rw e refl, (e, inl (e, refl))))
]
