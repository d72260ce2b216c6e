-- ===== src/Web/Files/Dialogs.antt =====
-- packages/web/src/features/desktop/apps/FilesApp.tsx: the dialog that asks for a name.
use desk_ssh.Base.{
  ℕ, Bool, true, false, not, ◌==◌, ◌||◌, [], ◌∷◌, Option, none, some, is_some, if◌then◌else◌, ◌≡◌,
  ◌≢◌, refl, arith, Bool-cases, inl, inr, All, sym, ◌∙◌, true-ne-false, ==_ne, ap,
}
use desk_ssh.Js.Text.{Text, trim, trim_start, trim_end, is_space, index_of, non_empty}
use desk_ssh.Js.Text.Split.{Lacks}
use desk_ssh.Web.Paths.{join_path, base_name}
use desk_ssh.Web.Paths.Laws.{base_name-join_path}
use desk_ssh.Web.Client.{ClientCall}
use desk_ssh.Web.Files.{
  Files, Mode, make_of, names, on_name, with_conflict, submit_dialog, submit_dialog_of, is_refused,
  is_same_name, dialog_valid,
}
use desk_ssh.Web.Files.Unique.{has}
use desk_ssh.Web.Files.Conflicts.{Creates, on_name-Creates}

holds : ℕ → Text → Bool
holds c s = is_some (index_of c s)

holds-cons : (c d : ℕ) (s : Text) → holds c (d ∷ s) ≡ ((d == c) || holds c s)
unfolding holds index_of
holds-cons c d s = ground arith

Lacks-of_holds : (c : ℕ) (s : Text) → holds c s ≡ false → Lacks c s
Lacks-of_holds c [] h = tt
Lacks-of_holds c (d ∷ s) h = ground (arith, holds-cons c d s, Lacks-of_holds c s)

trim_start_space : (d : ℕ) (s : Text) → is_space d ≡ true → trim_start (d ∷ s) ≡ trim_start s
unfolding trim_start is_space
trim_start_space d s h = rw (h, trim_start) refl

trim_start_other : (d : ℕ) (s : Text) → is_space d ≡ false → trim_start (d ∷ s) ≡ d ∷ s
unfolding trim_start is_space
trim_start_other d s h = rw (h, trim_start) refl

trimmed-cons : ℕ → Text → Text
trimmed-cons d [] = if is_space d then [] else d ∷ []
trimmed-cons d (e ∷ t) = d ∷ e ∷ t

trim_end-cons : (d : ℕ) (s : Text) → trim_end (d ∷ s) ≡ trimmed-cons d (trim_end s)
unfolding trim_end trimmed-cons is_space
trim_end-cons d s = refl

module _ (c : ℕ) (n : is_space c ≡ false) where
  space_differs : (d : ℕ) → is_space d ≡ true → (d == c) ≡ false
  space_differs d h = ==_ne d c (λ e. true-ne-false (sym h ∙ (ap is_space e ∙ n)))

  holds-space : (d : ℕ) (s : Text) → is_space d ≡ true → holds c (d ∷ s) ≡ holds c s
  holds-space d s h = rw (holds-cons c d s, space_differs d h) refl

  holds-trim_start : (s : Text) → holds c (trim_start s) ≡ holds c s
  holds-trim_start [] = unfold trim_start in refl
  holds-trim_start (d ∷ s) = elim (Bool-cases (is_space d)) [
    | inl e ↦ rw (trim_start_space d s e, holds-space d s e) (holds-trim_start s)
    | inr e ↦ rw (trim_start_other d s e) refl
  ]

  holds-trimmed-cons : (d : ℕ) (s : Text) → holds c (trimmed-cons d s) ≡ holds c (d ∷ s)
  unfolding trimmed-cons
  holds-trimmed-cons d [] = elim (Bool-cases (is_space d)) [
    | inl e ↦ rw (e, holds-space d [] e) refl
    | inr e ↦ rw e refl
  ]
  holds-trimmed-cons d (e ∷ t) = refl

  holds-trim_end : (s : Text) → holds c (trim_end s) ≡ holds c s
  holds-trim_end [] = unfold trim_end in refl
  holds-trim_end (d ∷ s) =
      rw
        (
          trim_end-cons d s,
          holds-trimmed-cons d (trim_end s),
          holds-cons c d (trim_end s),
          holds-trim_end s,
          holds-cons c d s,
        )
        refl

  holds-trim : (s : Text) → holds c (trim s) ≡ holds c s
  unfolding trim
  holds-trim s = holds-trim_end (trim_start s) ∙ holds-trim_start s

-- The button of the dialog is enabled exactly when the name that it holds is not refused.
pub dialog_valid-is_refused :
    (mode : Mode) (value : Text) → dialog_valid (some (mode, value)) ≡ not (is_refused value)
unfolding dialog_valid is_refused holds
dialog_valid-is_refused mode value = ground (arith, holds-trim b'/' (unfold is_space in refl) value)

-- A call that creates a path of the directory, under a name that is not empty and has no slash.
abbrev pub IsInside : Text → ClientCall → Type 0
IsInside path c =
    (name : Text) × ((name ≢ [])
      × (Lacks b'/' name
          × ((base_name (join_path path name) ≡ name) × Creates (join_path path name) c)))

accepted_slash : (name : Text) → is_refused name ≡ false → holds b'/' (trim name) ≡ false
unfolding is_refused holds
accepted_slash name h = ground arith

non_empty-ne : (s : Text) → non_empty s ≡ true → s ≢ []
non_empty-ne [] h = absurd (true-ne-false (sym h))
non_empty-ne (c ∷ s) h = λ e. cc

accepted_text : (name : Text) → is_refused name ≡ false → trim name ≢ []
unfolding is_refused
accepted_text name h = non_empty-ne (trim name) (ground arith)

inside :
    (path name : Text) (mode : Mode)
    → is_refused name ≡ false
    → IsInside path (on_name path (make_of mode (trim name)) (trim name))
inside path name mode h =
    let lacks = Lacks-of_holds b'/' (trim name) (accepted_slash name h) in
    (
      trim name,
      (
        accepted_text name h,
        (
          lacks,
          (
            base_name-join_path path (trim name) lacks,
            on_name-Creates path (make_of mode (trim name)) (trim name),
          ),
        ),
      ),
    )

with_conflict-IsInside :
    (mode : Mode) (value : Text) (s : Files)
    → is_refused value ≡ false
    → All (IsInside s.path) (with_conflict (make_of mode (trim value)) s).0
unfolding with_conflict
with_conflict-IsInside mode value s h = elim (Bool-cases (has (names s.entries) (trim value))) [
  | inl e ↦ rw e tt
  | inr e ↦ rw e (inside s.path value mode h, tt)
]

submitted-IsInside :
    (dialog : Option (Mode × Text)) (s : Files)
    → All (IsInside s.path) (submit_dialog_of dialog s).0
submitted-IsInside none s = tt
submitted-IsInside (some (mode, value)) s = elim (Bool-cases (is_refused value)) [
  | inl e ↦ rw e tt
  | inr e ↦ rw e (submitted (is_same_name mode (trim value)) e)
]
  where
    submitted :
        (same : Bool)
        → is_refused value ≡ false
        → All
            (IsInside s.path)
            (if same
              then ([], record s { dialog = none })
              else with_conflict (make_of mode (trim value)) (record s { dialog = none })).0
    submitted true e = tt
    submitted false e = with_conflict-IsInside mode value (record s { dialog = none }) e

-- Each call that the dialog starts creates a path of the directory, under a name that is not empty
-- and has no slash; the name is the base name of that path.
pub submit_dialog-IsInside : (s : Files) → All (IsInside s.path) (submit_dialog s).0
unfolding submit_dialog
submit_dialog-IsInside s = submitted-IsInside s.dialog s
