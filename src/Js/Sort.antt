-- ===== src/Js/Sort.antt =====
-- `Array.prototype.sort`, which is stable: an insertion sort. The comparison is given as the test that
-- it returns no positive number.
use desk_ssh.Base.{Bool, true, false, List, [], ◌∷◌, ◌≡◌, Bool-cases, inl, inr, All, All-imp}
use mathlib.Core.List.{Perm}
use mathlib.Core.List.Perm

module _ {A : Type 0} (before : A → A → Bool) where
  insert : A → List A → List A
  insert x [] = x ∷ []
  insert x (y ∷ ys) = elim (before x y) [ true ↦ x ∷ y ∷ ys | false ↦ y ∷ insert x ys ]

  unfoldable pub sort : List A → List A
  unfolding insert
  sort [] = []
  sort (x ∷ xs) = insert x (sort xs)

  abbrev IsFirst : A → List A → Type 0
  IsFirst x = All (λ y. before x y ≡ true)

  -- Every earlier element may stand before every later one.
  abbrev pub IsOrdered : List A → Type 0
  IsOrdered [] = Unit
  IsOrdered (x ∷ xs) = All (λ y. before x y ≡ true) xs × IsOrdered xs

  insert-perm : (x : A) (xs : List A) → Perm (insert x xs) (x ∷ xs)
  unfolding insert
  insert-perm x [] = Perm.rfl
  insert-perm x (y ∷ ys) = elim (Bool-cases (before x y)) [
    | inl e ↦ rw (e, insert) Perm.rfl
    | inr e ↦ rw (e, insert) (Perm.trans (Perm.cons y (insert-perm x ys)) (Perm.swap x y ys))
  ]

  pub sort-perm : (xs : List A) → Perm (sort xs) xs
  unfolding sort
  sort-perm [] = Perm.rfl
  sort-perm (x ∷ xs) = Perm.trans (insert-perm x (sort xs)) (Perm.cons x (sort-perm xs))

  module _ (trans : (a b c : A) → before a b ≡ true → before b c ≡ true → before a c ≡ true)
      (total : (a b : A) → before a b ≡ false → before b a ≡ true) where
    insert-IsFirst :
        (a x : A) (xs : List A) → before a x ≡ true → IsFirst a xs → IsFirst a (insert x xs)
    unfolding insert
    insert-IsFirst a x [] h k = (h, tt)
    insert-IsFirst a x (y ∷ ys) h (k, ks) = elim (Bool-cases (before x y)) [
      | inl e ↦ rw (e, insert) (h, (k, ks))
      | inr e ↦ rw (e, insert) (k, insert-IsFirst a x ys h ks)
    ]

    insert-IsOrdered : (x : A) (xs : List A) → IsOrdered xs → IsOrdered (insert x xs)
    unfolding insert
    insert-IsOrdered x [] h = (tt, tt)
    insert-IsOrdered x (y ∷ ys) (b, h) = elim (Bool-cases (before x y)) [
      | inl e ↦ rw (e, insert) ((e, All-imp _ _ (λ z q. trans x y z e q) ys b), (b, h))
      | inr e ↦ rw (e, insert) (insert-IsFirst y x ys (total x y e) b, insert-IsOrdered x ys h)
    ]

    pub sort-IsOrdered : (xs : List A) → IsOrdered (sort xs)
    unfolding sort
    sort-IsOrdered [] = tt
    sort-IsOrdered (x ∷ xs) = insert-IsOrdered x (sort xs) (sort-IsOrdered xs)
