-- ===== src/Js/Map/Laws.antt =====
-- Reading a map after a write, and maps whose keys are distinct.
use desk_ssh.Base.{
  [], ◌∷◌, ◌≡◌, ◌≢◌, refl, arith, none, some, if◌then◌else◌, All, Bool-cases, inl, inr,
}
use desk_ssh.Js.Text.{Text, text_eq}
use desk_ssh.Js.Text.Equality.{text_eq_iff, text_eq→eq, text_eq_ne}
use desk_ssh.Js.Map.{Map, get, set, delete, keys}

module _ {ℓ} {V : Type ℓ} where
  pub get-set :
      (j k : Text) (v : V) (m : Map V)
      → get j (set k v m) ≡ (if text_eq k j then some v else get j m)
  unfolding get set
  get-set j k v [] = refl
  get-set j k v ((i, w) ∷ m) =
      ground (arith, text_eq_iff i k, text_eq_iff i j, text_eq_iff k j, get-set j k v m)

  abbrev pub Fresh : Text → Map V → Type 0
  Fresh k m = All (λ j. j ≢ k) (keys m)

  -- No key stands twice.
  abbrev pub Distinct : Map V → Type 0
  Distinct [] = Unit
  Distinct ((k, v) ∷ m) = Fresh k m × Distinct m

  pub get-Fresh : (k : Text) (m : Map V) → Fresh k m → get k m ≡ none
  unfolding get
  get-Fresh k [] h = refl
  get-Fresh k ((j, v) ∷ m) (h, hs) = rw (text_eq_ne j k h) (get-Fresh k m hs)

  pub get-delete :
      (j k : Text) (m : Map V)
      → Distinct m
      → get j (delete k m) ≡ (if text_eq k j then none else get j m)
  unfolding get delete
  get-delete j k [] d = ground arith
  get-delete j k ((i, w) ∷ m) (f, d) = ground (
    arith,
    text_eq_iff i k,
    text_eq_iff i j,
    text_eq_iff k j,
    get-delete j k m d,
    get-Fresh i m f,
  )

  Fresh-set : (j k : Text) (v : V) (m : Map V) → k ≢ j → Fresh j m → Fresh j (set k v m)
  unfolding set
  Fresh-set j k v [] h f = (h, tt)
  Fresh-set j k v ((i, w) ∷ m) h (g, f) = ground (arith, text_eq_iff i k, Fresh-set j k v m h f)

  pub set-Distinct : (k : Text) (v : V) (m : Map V) → Distinct m → Distinct (set k v m)
  unfolding set
  set-Distinct k v [] d = (tt, tt)
  set-Distinct k v ((i, w) ∷ m) (f, d) = elim (Bool-cases (text_eq i k)) [
    | inl e ↦ rw e (rw (← text_eq→eq i k e) (f, d))
    | inr e ↦
        rw e (Fresh-set i k v m (λ s. ground (arith, text_eq_iff i k)) f, set-Distinct k v m d)
  ]

  Fresh-delete : (j k : Text) (m : Map V) → Fresh j m → Fresh j (delete k m)
  unfolding delete
  Fresh-delete j k [] f = tt
  Fresh-delete j k ((i, w) ∷ m) (g, f) = ground (arith, Fresh-delete j k m f)

  pub delete-Distinct : (k : Text) (m : Map V) → Distinct m → Distinct (delete k m)
  unfolding delete
  delete-Distinct k [] d = tt
  delete-Distinct k ((i, w) ∷ m) (f, d) = elim (Bool-cases (text_eq i k)) [
    | inl e ↦ rw e d
    | inr e ↦ rw e (Fresh-delete i k m f, delete-Distinct k m d)
  ]
