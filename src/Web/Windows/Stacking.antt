-- ===== src/Web/Windows/Stacking.antt =====
-- packages/web/src/features/desktop/Desktop.tsx and useWindows.ts: which window is on top.
use desk_ssh.Base.{
  ℕ, ◌+◌, ◌<◌, ◌≤◌, List, [], ◌∷◌, ◌++◌, Bool, true, false, not, some, some_inj, keep, find, leb,
  if◌then◌else◌, ◌≡◌, ◌≢◌, refl, sym, ap, ◌∙◌, ◌⊎◌, inl, inr, arith, All, All-imp, All-keep,
  find-All, find-hit, find-miss, Bool-cases, none-ne-some,
}
use mathlib.Core.Path.{subst}
use desk_ssh.Js.Text.{Text, text_eq}
use desk_ssh.Js.Text.Equality.{text_eq_refl, text_eq→eq, text_eq_ne}
use desk_ssh.Web.Windows.{WindowState, update, raise, topmost, active_of, is_visible}

-- The window stands in the list.
abbrev pub Occurs : WindowState → List WindowState → Type 0
Occurs t [] = ⊥
Occurs t (w ∷ ws) = (w ≡ t) ⊎ Occurs t ws

pub Occurs-append : (t : WindowState) (ws : List WindowState) → Occurs t (ws ++ t ∷ [])
Occurs-append t [] = inl refl
Occurs-append t (w ∷ ws) = inr (Occurs-append t ws)

pub Occurs-keep :
    (p : WindowState → Bool) (t : WindowState) (ws : List WindowState)
    → p t ≡ true
    → Occurs t ws
    → Occurs t (keep p ws)
Occurs-keep p t [] h o = absurd o
Occurs-keep p t (w ∷ ws) h (inl e) = rw ((ap p e ∙ h), keep) (inl e)
Occurs-keep p t (w ∷ ws) h (inr o) = elim (Bool-cases (p w)) [
  | inl e ↦ rw (e, keep) (inr (Occurs-keep p t ws h o))
  | inr e ↦ rw (e, keep) (Occurs-keep p t ws h o)
]

-- All other windows are below the one.
abbrev pub IsBelow : WindowState → WindowState → Type 0
IsBelow t w = (w.z < t.z) ⊎ (w ≡ t)

-- The window that the reduction takes from two is on top of them if one of them is.
choice-IsBelow :
    (t a b : WindowState) → IsBelow t a → IsBelow t b → IsBelow t (if leb b.z a.z then a else b)
choice-IsBelow t a b ha hb = elim (Bool-cases (leb b.z a.z)) [ inl e ↦ rw e ha | inr e ↦ rw e hb ]

choice_first : (t a b : WindowState) → a ≡ t → IsBelow t b → (if leb b.z a.z then a else b) ≡ t
choice_first t a b e (inl h) = rw e (ground arith)
choice_first t a b e (inr f) = elim (Bool-cases (leb b.z a.z)) [ inl c ↦ rw c e | inr c ↦ rw c f ]

choice_second : (t a b : WindowState) → b ≡ t → IsBelow t a → (if leb b.z a.z then a else b) ≡ t
choice_second t a b f (inl h) = rw f (ground arith)
choice_second t a b f (inr e) = choice_first t a b e (inr f)

pub topmost_lem :
    (t a : WindowState) (ws : List WindowState)
    → Occurs t (a ∷ ws)
    → All (IsBelow t) (a ∷ ws)
    → topmost a ws ≡ t
unfolding topmost
topmost_lem t a [] (inl e) h = e
topmost_lem t a [] (inr o) h = absurd o
topmost_lem t a (b ∷ ws) o (ha, (hb, h)) =
    topmost_lem t (if leb b.z a.z then a else b) ws (occurs o) (choice-IsBelow t a b ha hb, h)
  where
    occurs : Occurs t (a ∷ b ∷ ws) → Occurs t ((if leb b.z a.z then a else b) ∷ ws)
    occurs (inl e) = inl (choice_first t a b e hb)
    occurs (inr (inl e)) = inl (choice_second t a b e ha)
    occurs (inr (inr o)) = inr o

-- A visible window above all others is the active one.
pub active_of_topmost :
    (t : WindowState) (ws : List WindowState)
    → t.minimized ≡ false
    → Occurs t ws
    → All (IsBelow t) ws
    → active_of (keep is_visible ws) ≡ some t
active_of_topmost t ws v o h =
    of_kept (keep is_visible ws) (Occurs-keep is_visible t ws (ap not v) o)
      (All-keep (IsBelow t) is_visible ws h)
  where
    of_kept : (vs : List WindowState) → Occurs t vs → All (IsBelow t) vs → active_of vs ≡ some t
    of_kept [] o h = absurd o
    of_kept (a ∷ vs) o h = unfold active_of in ap some (topmost_lem t a vs o h)

-- The ids, or the apps, of the windows are different.
abbrev pub Distinct : (WindowState → Text) → List WindowState → Type 0
Distinct g [] = Unit
Distinct g (w ∷ ws) = All (λ v. g v ≢ g w) ws × Distinct g ws

abbrev pub has_id : Text → WindowState → Bool
has_id id w = text_eq w.id id

pub update_absent :
    (id : Text) (f : WindowState → WindowState) (ws : List WindowState)
    → All (λ v. v.id ≢ id) ws
    → update id f ws ≡ ws
unfolding update
update_absent id f [] h = refl
update_absent id f (w ∷ ws) (n, h) = rw (text_eq_ne w.id id n, update_absent id f ws h)

pub update_hit :
    (id : Text) (f : WindowState → WindowState) (w : WindowState) (ws : List WindowState)
    → text_eq w.id id ≡ true
    → update id f (w ∷ ws) ≡ f w ∷ update id f ws
unfolding update
update_hit id f w ws h = rw h refl

pub update_miss :
    (id : Text) (f : WindowState → WindowState) (w : WindowState) (ws : List WindowState)
    → text_eq w.id id ≡ false
    → update id f (w ∷ ws) ≡ w ∷ update id f ws
unfolding update
update_miss id f w ws h = rw h refl

module _ (id : Text) (n : ℕ) (t : WindowState) where
  -- The window that is raised stands in the list, with all others below.
  pub raise-Occurs :
      (ws : List WindowState)
      → find (has_id id) ws ≡ some t
      → Occurs (raise (n + 1) t) (update id (raise (n + 1)) ws)
  raise-Occurs [] e = absurd (none-ne-some e)
  raise-Occurs (w ∷ ws) e = elim (Bool-cases (has_id id w)) [
    | inl h ↦
        rw (update_hit id (raise (n + 1)) w ws h)
          (inl (ap (raise (n + 1)) (some_inj (sym (find-hit (has_id id) w ws h) ∙ e))))
    | inr h ↦
        rw (update_miss id (raise (n + 1)) w ws h)
          (inr (raise-Occurs ws (sym (find-miss (has_id id) w ws h) ∙ e)))
  ]

  pub raise-IsBelow :
      (ws : List WindowState)
      → Distinct (λ w. w.id) ws
      → All (λ w. w.z ≤ n) ws
      → find (has_id id) ws ≡ some t
      → All (IsBelow (raise (n + 1) t)) (update id (raise (n + 1)) ws)
  raise-IsBelow [] d h e = absurd (none-ne-some e)
  raise-IsBelow (w ∷ ws) (a, d) (hw, h) e = elim (Bool-cases (has_id id w)) [
    | inl c ↦
        rw
          (
            update_hit id (raise (n + 1)) w ws c,
            update_absent id (raise (n + 1)) ws
                (subst (λ i. All (λ v. v.id ≢ i) ws) (text_eq→eq w.id id c) a),
          )
          (
            inr (ap (raise (n + 1)) (some_inj (sym (find-hit (has_id id) w ws c) ∙ e))),
            All-imp _ _ (λ v l. inl (omega arith)) ws h,
          )
    | inr c ↦
        rw (update_miss id (raise (n + 1)) w ws c)
          (inl (omega arith), raise-IsBelow ws d h (sym (find-miss (has_id id) w ws c) ∙ e))
  ]

-- A window that is found by another test is found by its id.
pub find_id :
    (p : WindowState → Bool) (t : WindowState) (ws : List WindowState)
    → Distinct (λ w. w.id) ws
    → find p ws ≡ some t
    → find (has_id t.id) ws ≡ some t
find_id p t [] d e = absurd (none-ne-some e)
find_id p t (w ∷ ws) (a, d) e = elim (Bool-cases (p w)) [
  | inl h ↦ hit (some_inj (sym (find-hit p w ws h) ∙ e))
  | inr h ↦ miss (sym (find-miss p w ws h) ∙ e) (find_id p t ws d (sym (find-miss p w ws h) ∙ e))
]
  where
    hit : w ≡ t → find (has_id t.id) (w ∷ ws) ≡ some t
    hit same =
        find-hit (has_id t.id) w ws
          (subst (λ v. text_eq v.id t.id ≡ true) (sym same) (text_eq_refl t.id))
        ∙ ap some same

    miss :
        find p ws ≡ some t → find (has_id t.id) ws ≡ some t → find (has_id t.id) (w ∷ ws) ≡ some t
    miss found rest =
        find-miss (has_id t.id) w ws
          (text_eq_ne w.id t.id (λ q. find-All (λ v. v.id ≢ w.id) p ws t a found (sym q)))
        ∙ rest
