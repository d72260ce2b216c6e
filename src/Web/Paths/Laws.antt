-- ===== src/Web/Paths/Laws.antt =====
-- packages/web/src/features/desktop/apps/lib.ts: a joined path has the parts it was joined from.
use desk_ssh.Base.{
  ℕ, suc, ◌∷◌, [], ◌++◌, length, drop, take-append, none, some, ==_ne, ==_refl, ◌≡◌, ◌≢◌, refl, ap,
  Bool-cases, inl, inr,
}
use desk_ssh.Js.Text.{Text, codes, text_eq, text_or, last_index_of}
use desk_ssh.Js.Text.Equality.{text_eq→eq}
use desk_ssh.Js.Text.Split.{Lacks}
use desk_ssh.Js.Regex.{strip_slashes}
use desk_ssh.Web.Paths.{join_path, parent_path, base_name}

last_index_of-Lacks : (c : ℕ) (s : Text) → Lacks c s → last_index_of c s ≡ none
unfolding last_index_of
last_index_of-Lacks c [] h = refl
last_index_of-Lacks c (d ∷ s) (n, h) = rw (last_index_of-Lacks c s h, ==_ne d c n)

pub last_index_of-append :
    (c : ℕ) (s t : Text) → Lacks c t → last_index_of c (s ++ c ∷ t) ≡ some (length s)
unfolding last_index_of
last_index_of-append c [] t h = rw (last_index_of-Lacks c t h, ==_refl c)
last_index_of-append c (d ∷ s) t h = rw (last_index_of-append c s t h)

pub drop_after : (s : Text) (c : ℕ) (t : Text) → drop (suc (length s)) (s ++ c ∷ t) ≡ t
drop_after [] c t = refl
drop_after (d ∷ s) c t = drop_after s c t

strip_slashes-cons :
    (c : ℕ) (s : Text) → s ≢ [] → strip_slashes s ≡ s → strip_slashes (c ∷ s) ≡ c ∷ s
unfolding strip_slashes
strip_slashes-cons c [] n h = absurd (n refl)
strip_slashes-cons c (d ∷ s) n h = rw h refl

append-ne-nil : (s t : Text) → t ≢ [] → s ++ t ≢ []
append-ne-nil [] t n e = n e
append-ne-nil (d ∷ s) t n e = cc

strip_slashes-append : (s t : Text) → t ≢ [] → strip_slashes t ≡ t → strip_slashes (s ++ t) ≡ s ++ t
strip_slashes-append [] t n h = h
strip_slashes-append (c ∷ s) t n h =
    strip_slashes-cons c (s ++ t) (append-ne-nil s t n) (strip_slashes-append s t n h)

strip_slashes-Lacks : (s : Text) → Lacks b'/' s → strip_slashes s ≡ s
unfolding strip_slashes
strip_slashes-Lacks [] h = refl
strip_slashes-Lacks (c ∷ []) (n, h) = rw (==_ne c b'/' n)
strip_slashes-Lacks (c ∷ d ∷ s) (n, h) = rw (strip_slashes-Lacks (d ∷ s) h)

join_path_lem : (dir name : Text) → join_path dir name ≡ strip_slashes dir ++ b'/' ∷ name
unfolding join_path
join_path_lem dir name = elim (Bool-cases (text_eq dir (codes "/"))) [
  | inl e ↦ rw (text_eq→eq dir (codes "/") e) (unfold strip_slashes text_eq in refl)
  | inr e ↦ rw e refl
]

base_of : (d name : Text) → Lacks b'/' name → base_name (d ++ b'/' ∷ name) ≡ name
unfolding base_name
base_of d name h = rw (base_name, last_index_of-append b'/' d name h) (drop_after d b'/' name)

-- The base name of a path joined from any directory and a name without a slash is that name.
pub base_name-join_path :
    (dir name : Text) → Lacks b'/' name → base_name (join_path dir name) ≡ name
base_name-join_path dir name h = rw (join_path_lem dir name) (base_of (strip_slashes dir) name h)

module _ (name : Text) (n : name ≢ []) (h : Lacks b'/' name) where
  strip_slashes-joined : (d : Text) → strip_slashes (d ++ b'/' ∷ name) ≡ d ++ b'/' ∷ name
  strip_slashes-joined d =
      strip_slashes-append d (b'/' ∷ name) (λ e. cc)
        (strip_slashes-cons b'/' name n (strip_slashes-Lacks name h))

  parent_of : (d : Text) → parent_path (d ++ b'/' ∷ name) ≡ text_or d (codes "/")
  unfolding parent_path
  parent_of [] = rw (parent_path, strip_slashes-joined [], last_index_of-append b'/' [] name h)
  parent_of (c ∷ d) =
      rw
        (
          parent_path,
          strip_slashes-joined (c ∷ d),
          last_index_of-append b'/' (c ∷ d) name h,
          strip_slashes-joined (c ∷ d),
        )
        (ap (λ t. c ∷ t) (take-append d (b'/' ∷ name)))

-- The parent of a path joined from any directory and a name, not empty and without a slash, is the
-- directory without the slashes at its end, or the root if nothing else is left of it.
pub parent_path-join_path :
    (dir name : Text)
    → name ≢ []
    → Lacks b'/' name
    → parent_path (join_path dir name) ≡ text_or (strip_slashes dir) (codes "/")
parent_path-join_path dir name n h =
    rw (join_path_lem dir name) (parent_of name n h (strip_slashes dir))
