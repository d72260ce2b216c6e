-- ===== src/Web/Windows/Invariant.antt =====
-- packages/web/src/features/desktop/useWindows.ts: what every sequence of gestures keeps.
use desk_ssh.Base.{
  ℕ, ◌+◌, ◌≤◌, List, [], ◌∷◌, ◌++◌, Bool, false, none, some_inj, keep, find, ◌≡◌, ◌≢◌, refl, sym,
  ap, ◌∙◌, inl, inr, arith, All, All-imp, All-append, All-keep, find-none-All, Bool-cases,
  Option-cases, true-ne-false,
}
use mathlib.Core.Path.{subst}
use desk_ssh.Js.Text.{Text, text_eq}
use desk_ssh.Js.Text.Equality.{text_eq_refl}
use desk_ssh.Js.Number.{ℤ, pos, show, parse_int}
use desk_ssh.Js.Number.Radix.{parse_int-to_radix}
use desk_ssh.Web.Windows.{
  AppDefinition, WindowState, Desktop, empty, update, raise, focus, new_window, open_app, close,
  minimize, toggle_maximize, move, resize, window_id, has_app, is_other,
}
use desk_ssh.Web.Windows.Stacking.{Distinct, has_id, update_hit, update_miss}

-- What the user does, each with what the handler gets.
pub data Gesture : Type 0 where
  launch : AppDefinition → Gesture
  press : Text → Gesture
  dismiss : Text → Gesture
  hide : Text → Gesture
  zoom : Text → Gesture
  drag : Text → ℤ → ℤ → Gesture
  stretch : Text → ℤ → ℤ → Gesture

unfoldable pub perform : Gesture → Desktop → Desktop
perform (launch app) s = open_app app s
perform (press id) s = focus id s
perform (dismiss id) s = close id s
perform (hide id) s = minimize id s
perform (zoom id) s = toggle_maximize id s
perform (drag id x y) s = move id x y s
perform (stretch id w h) s = resize id w h s

unfoldable pub perform_all : List Gesture → Desktop → Desktop
perform_all [] s = s
perform_all (g ∷ gs) s = perform_all gs (perform g s)

-- The id was given by a launch before.
abbrev pub IsIssued : ℕ → WindowState → Type 0
IsIssued n w = (k : ℕ) × ((k ≤ n) × (w.id ≡ window_id k))

-- No window is above the counter, ids are issued and different, and no app has two windows.
pub record IsDesktop (s : Desktop) : Type 0 where
  pub below : All (λ (w : WindowState). w.z ≤ s.top_z) s.windows
  pub issued : All (IsIssued s.seq) s.windows
  pub ids : Distinct (λ w. w.id) s.windows
  pub apps : Distinct (λ w. w.app_id) s.windows

show-inj : (m n : ℕ) → show m ≡ show n → m ≡ n
unfolding show
show-inj m n e = pos-inj (
    some_inj (
      sym (parse_int-to_radix 10 m (omega arith) (omega arith))
      ∙ ap (parse_int 10) e
      ∙ parse_int-to_radix 10 n (omega arith) (omega arith)))
  where
    pos-inj : pos m ≡ pos n → m ≡ n
    pos-inj h = cc

window_id-inj : (m n : ℕ) → window_id m ≡ window_id n → m ≡ n
window_id-inj m n e = show-inj m n cc

pub All-update :
    (P : WindowState → Type 0) (id : Text) (f : WindowState → WindowState) (ws : List WindowState)
    → ((w : WindowState) → P w → P (f w))
    → All P ws
    → All P (update id f ws)
All-update P id f [] k h = unfold update in tt
All-update P id f (w ∷ ws) k (p, h) = elim (Bool-cases (has_id id w)) [
  | inl c ↦ rw (update_hit id f w ws c) (k w p, All-update P id f ws k h)
  | inr c ↦ rw (update_miss id f w ws c) (p, All-update P id f ws k h)
]

module _ (g : WindowState → Text) where
  Distinct-update :
      (id : Text) (f : WindowState → WindowState) (ws : List WindowState)
      → ((w : WindowState) → g (f w) ≡ g w)
      → Distinct g ws
      → Distinct g (update id f ws)
  Distinct-update id f [] k d = unfold update in tt
  Distinct-update id f (w ∷ ws) k (a, d) = elim (Bool-cases (has_id id w)) [
    | inl c ↦ rw (update_hit id f w ws c) (
      subst (λ i. All (λ v. g v ≢ i) (update id f ws)) (sym (k w)) (others w a),
      Distinct-update id f ws k d,
    )
    | inr c ↦ rw (update_miss id f w ws c) (others w a, Distinct-update id f ws k d)
  ]
    where
      others : (w : WindowState) → All (λ v. g v ≢ g w) ws → All (λ v. g v ≢ g w) (update id f ws)
      others w = All-update (λ v. g v ≢ g w) id f ws (λ v n e. n (sym (k v) ∙ e))

  Distinct-keep :
      (p : WindowState → Bool) (ws : List WindowState) → Distinct g ws → Distinct g (keep p ws)
  Distinct-keep p [] d = tt
  Distinct-keep p (w ∷ ws) (a, d) = elim (Bool-cases (p w)) [
    | inl c ↦ rw (c, keep) (All-keep (λ v. g v ≢ g w) p ws a, Distinct-keep p ws d)
    | inr c ↦ rw (c, keep) (Distinct-keep p ws d)
  ]

  Distinct-append :
      (ws : List WindowState) (t : WindowState)
      → All (λ w. g t ≢ g w) ws
      → Distinct g ws
      → Distinct g (ws ++ t ∷ [])
  Distinct-append [] t h d = (tt, tt)
  Distinct-append (w ∷ ws) t (n, h) (a, d) =
      (All-append (λ v. g v ≢ g w) ws (t ∷ []) a (n, tt), Distinct-append ws t h d)

raised-IsDesktop :
    (id : Text) (s : Desktop)
    → IsDesktop s
    → IsDesktop
        (record s { windows = update id (raise (s.top_z + 1)) s.windows; top_z = s.top_z + 1 })
raised-IsDesktop id s h = record {
  below =
      All-update _ id _ s.windows (λ w l. omega arith)
        (All-imp _ (λ w. w.z ≤ s.top_z + 1) (λ w l. omega arith) s.windows h.below);
  issued = All-update (IsIssued s.seq) id _ s.windows (λ w l. l) h.issued;
  ids = Distinct-update _ id _ s.windows (λ w. refl) h.ids;
  apps = Distinct-update _ id _ s.windows (λ w. refl) h.apps;
}

-- A change of a window that keeps its place, its id and its app.
updated-IsDesktop :
    (id : Text) (f : WindowState → WindowState) (s : Desktop)
    → ((w : WindowState) → (f w).z ≡ w.z)
    → ((w : WindowState) → (f w).id ≡ w.id)
    → ((w : WindowState) → (f w).app_id ≡ w.app_id)
    → IsDesktop s
    → IsDesktop (record s { windows = update id f s.windows })
updated-IsDesktop id f s z i a h = record {
  below = All-update _ id f s.windows (λ w l. subst (λ n. n ≤ s.top_z) (sym (z w)) l) h.below;
  issued = All-update (IsIssued s.seq) id f s.windows (λ w (k, (l, e)). (k, (l, i w ∙ e))) h.issued;
  ids = Distinct-update _ id f s.windows i h.ids;
  apps = Distinct-update _ id f s.windows a h.apps;
}

fresh-IsIssued : (n : ℕ) (w : WindowState) → IsIssued n w → window_id (n + 1) ≢ w.id
fresh-IsIssued n w (k, (l, e)) q = not-suc (window_id-inj (n + 1) k (q ∙ e))
  where
    not-suc : n + 1 ≡ k → ⊥
    not-suc r = omega arith

other_app : (id : Text) (w : WindowState) → has_app id w ≡ false → id ≢ w.app_id
other_app id w h q = true-ne-false (sym (text_eq_refl id) ∙ ap (λ i. text_eq i id) q ∙ h)

launched-IsDesktop :
    (app : AppDefinition) (s : Desktop)
    → IsDesktop s
    → find (has_app app.id) s.windows ≡ none
    → IsDesktop (record {
      windows = s.windows ++ new_window app s.seq (s.top_z + 1) ∷ [];
      top_z = s.top_z + 1;
      seq = s.seq + 1;
    })
unfolding new_window
launched-IsDesktop app s h e = record {
  below =
      All-append _ s.windows _ (All-imp _ _ (λ w l. omega arith) s.windows h.below)
        (omega arith, tt);
  issued =
      All-append _ s.windows _
        (All-imp _ _ (λ w (k, (l, q)). (k, (omega arith, q))) s.windows h.issued)
        ((s.seq + 1, (omega arith, refl)), tt);
  ids = Distinct-append _ s.windows _ (All-imp _ _ (fresh-IsIssued s.seq) s.windows h.issued) h.ids;
  apps =
      Distinct-append _ s.windows _
        (All-imp _ _ (other_app app.id) s.windows (find-none-All _ s.windows e)) h.apps;
}

-- Every gesture keeps the invariant.
pub perform-IsDesktop : (g : Gesture) (s : Desktop) → IsDesktop s → IsDesktop (perform g s)
unfolding perform open_app focus close minimize toggle_maximize move resize
perform-IsDesktop (launch app) s h = elim (Option-cases (find (has_app app.id) s.windows)) [
  | inl e ↦ rw (e, open_app) (launched-IsDesktop app s h e)
  | inr (w, e) ↦ rw (e, open_app) (raised-IsDesktop w.id s h)
]
perform-IsDesktop (press id) s h = raised-IsDesktop id s h
perform-IsDesktop (dismiss id) s h = record {
  below = All-keep _ (is_other id) s.windows h.below;
  issued = All-keep _ (is_other id) s.windows h.issued;
  ids = Distinct-keep _ (is_other id) s.windows h.ids;
  apps = Distinct-keep _ (is_other id) s.windows h.apps;
}
perform-IsDesktop (hide id) s h = updated-IsDesktop id _ s (λ w. refl) (λ w. refl) (λ w. refl) h
perform-IsDesktop (zoom id) s h = updated-IsDesktop id _ s (λ w. refl) (λ w. refl) (λ w. refl) h
perform-IsDesktop (drag id x y) s h = updated-IsDesktop id _ s (λ w. refl) (λ w. refl) (λ w. refl) h
perform-IsDesktop (stretch id w h) s i =
    updated-IsDesktop id _ s (λ w. refl) (λ w. refl) (λ w. refl) i

perform_all-IsDesktop :
    (gs : List Gesture) (s : Desktop) → IsDesktop s → IsDesktop (perform_all gs s)
unfolding perform_all
perform_all-IsDesktop [] s h = h
perform_all-IsDesktop (g ∷ gs) s h =
    perform_all-IsDesktop gs (perform g s) (perform-IsDesktop g s h)

-- After every sequence of gestures on an empty desktop no window is above the counter, every id
-- was issued by a launch, the ids are different, and no app has two windows.
pub reached-IsDesktop : (gs : List Gesture) → IsDesktop (perform_all gs empty)
reached-IsDesktop gs =
    perform_all-IsDesktop gs empty (record { below = tt; issued = tt; ids = tt; apps = tt })
