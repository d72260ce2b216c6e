-- ===== src/Server/Static/Inside.antt =====
-- packages/server/src/static.ts: which files can be read from outside.
use desk_ssh.Base.{
  true, false, [], ◌∷◌, ◌++◌, Option, none, some, ◌≡◌, ◌≢◌, ◌⊎◌, inl, inr, refl, sym, ◌∙◌, ap,
  Bool-cases, some_inj, none-ne-some, true-ne-false, length, ◌<◌, ◌≤◌, arith,
}
use desk_ssh.Js.Text.{Text, codes, starts_with, split, split_parts}
use mathlib.Core.Path.{subst}
use desk_ssh.Core.Exec.{done}
use desk_ssh.Server.Static.Upward.{HasNoUp, IsNormal, strip_up-HasNoUp}
use desk_ssh.Server.Static.{
  Node, Entry, absent, folder, file, strip_up, Served, is_file, is_absent, sent, serve_path,
  serve_static,
}

-- A path below a directory that does not lead out of it again.
abbrev pub IsBelow : Text → Text → Type 0
IsBelow dir path = (rest : Text) × (path ≡ dir ++ b'/' ∷ rest) × HasNoUp (b'/' ∷ rest)

-- The directory or a path below it.
abbrev pub IsIn : Text → Text → Type 0
IsIn dir path = (path ≡ dir) ⊎ IsBelow dir path

done_inj : {A : Type 0} {a b : A} → done a ≡ done b → a ≡ b
done_inj h = cc

folder-ne-file : folder ≢ file
folder-ne-file e = cc

is_file_eq : (e : Entry) → is_file e ≡ true → e ≡ file
is_file_eq absent h = cc
is_file_eq folder h = cc
is_file_eq file h = refl

-- What is sent is the file at the path, or the page that is sent for unknown paths.
abbrev IsSent : Node → Text → Text → Served → Type 0
IsSent n dir path s =
    ((s.file_path ≡ path) × (n.entry_at path ≡ file))
    ⊎ ((s.file_path ≡ n.join dir (codes "index.html"))
        × (n.entry_at (n.join dir (codes "index.html")) ≢ absent))

module _ (n : Node) (dir path : Text) (f : starts_with path dir ≡ true) where
  serve_path-file : is_file (n.entry_at path) ≡ true → serve_path n dir path ≡ some (sent n path)
  unfolding serve_path
  serve_path-file g = rw (f, g)

  serve_path-absent :
      is_file (n.entry_at path) ≡ false
      → is_absent (n.entry_at (n.join dir (codes "index.html"))) ≡ true
      → serve_path n dir path ≡ none
  unfolding serve_path
  serve_path-absent g h = rw (f, g, h)

  serve_path-index :
      is_file (n.entry_at path) ≡ false
      → is_absent (n.entry_at (n.join dir (codes "index.html"))) ≡ false
      → serve_path n dir path ≡ some (sent n (n.join dir (codes "index.html")))
  unfolding serve_path
  serve_path-index g h = rw (f, g, h)

serve_path-outside :
    (n : Node) (dir path : Text) → starts_with path dir ≡ false → serve_path n dir path ≡ none
unfolding serve_path
serve_path-outside n dir path f = rw f

path-sent :
    (n : Node) (path : Text) (s : Served) (o : Option Served)
    → o ≡ some s
    → o ≡ some (sent n path)
    → s.file_path ≡ path
unfolding sent
path-sent n path s o e k = ap (λ (x : Served). x.file_path) (some_inj (sym e ∙ k))

serve_path-IsSent :
    (n : Node) (dir path : Text) (s : Served) → serve_path n dir path ≡ some s → IsSent n dir path s
serve_path-IsSent n dir path s e = elim (Bool-cases (starts_with path dir)) [
  | inr f ↦ absurd (none-ne-some (sym (serve_path-outside n dir path f) ∙ e))
  | inl f ↦ elim (Bool-cases (is_file (n.entry_at path))) [
    | inl g ↦
        inl
          (path-sent n path s _ e (serve_path-file n dir path f g), is_file_eq (n.entry_at path) g)
    | inr g ↦ elim (Bool-cases (is_absent (n.entry_at (n.join dir (codes "index.html"))))) [
      | inl h ↦ absurd (none-ne-some (sym (serve_path-absent n dir path f g h) ∙ e))
      | inr h ↦ inr (
        path-sent n (n.join dir (codes "index.html")) s _ e (serve_path-index n dir path f g h),
        λ q. true-ne-false (sym (ap is_absent q) ∙ h),
      )
    ]
  ]
]

index-HasNoUp : HasNoUp (codes "/index.html")
unfolding split split_parts
index-HasNoUp = ((λ e. cc), ((λ e. cc), tt))

starts_with-length : (s p : Text) → starts_with s p ≡ true → length p ≤ length s
unfolding starts_with
starts_with-length s [] h = omega arith
starts_with-length [] (d ∷ p) h = cc
starts_with-length (c ∷ s) (d ∷ p) h = ground (arith, starts_with-length s p)

-- A shorter path does not begin with the directory.
shorter-outside : (path dir : Text) → length path < length dir → starts_with path dir ≡ false
shorter-outside path dir h = elim (Bool-cases (starts_with path dir)) [
  | inl e ↦ absurd (omega (arith, starts_with-length path dir e))
  | inr e ↦ e
]

serve_static-decoded :
    (n : Node) (dir url decoded : Text)
    → n.decode url ≡ some decoded
    → serve_static n dir url ≡ done (serve_path n dir (n.join dir (strip_up (n.normalize decoded))))
unfolding serve_static
serve_static-decoded n dir url decoded d = rw d

-- A file that is sent stands below the directory and is there, if the remainder that is joined to the
-- directory is `..` or holds no part `..`.
serve_path-IsBelow :
    (n : Node) (dir rel : Text) (s : Served)
    → ((rel ≡ codes "..") ⊎ HasNoUp rel)
    → ((r : Text) → HasNoUp r → IsIn dir (n.join dir r))
    → length (n.join dir (codes "..")) < length dir
    → n.join dir (codes "index.html") ≡ dir ++ codes "/index.html"
    → n.entry_at dir ≡ folder
    → serve_path n dir (n.join dir rel) ≡ some s
    → IsBelow dir s.file_path × (n.entry_at s.file_path ≢ absent)
serve_path-IsBelow n dir rel s (inl u) inside shorter i f e = absurd (
    none-ne-some (
      sym (
        serve_path-outside n dir (n.join dir rel) (
          shorter-outside _ dir
            (subst (λ (r : Text). length (n.join dir r) < length dir) (sym u) shorter)))
      ∙ e))
serve_path-IsBelow n dir rel s (inr u) inside shorter i f e =
    go (inside rel u) (serve_path-IsSent n dir (n.join dir rel) s e)
  where
    go :
        IsIn dir (n.join dir rel)
        → IsSent n dir (n.join dir rel) s
        → IsBelow dir s.file_path × (n.entry_at s.file_path ≢ absent)
    go below (inr (p, q)) =
        ((codes "index.html", p ∙ i, index-HasNoUp), λ r. q (sym (ap n.entry_at p) ∙ r))
    go (inl b) (inl (p, q)) = absurd (folder-ne-file (sym f ∙ (ap n.entry_at (sym b) ∙ q)))
    go (inr (rest, b, v)) (inl (p, q)) = ((rest, p ∙ b, v), λ r. cc)

-- Whatever path is asked for, if it decodes, `normalize` leaves parts `..` at the front only, `join`
-- leads into the directory for a remainder without parts `..`, to a shorter path for `..`, and to
-- the page for the page's name, and the directory is a folder: a file that is sent stands below the
-- directory, on a path without a part `..`, and is there.
pub serve_static-IsBelow :
    (n : Node) (dir url decoded : Text) (s : Served)
    → n.decode url ≡ some decoded
    → IsNormal (n.normalize decoded)
    → ((rel : Text) → HasNoUp rel → IsIn dir (n.join dir rel))
    → length (n.join dir (codes "..")) < length dir
    → n.join dir (codes "index.html") ≡ dir ++ codes "/index.html"
    → n.entry_at dir ≡ folder
    → serve_static n dir url ≡ done (some s)
    → IsBelow dir s.file_path × (n.entry_at s.file_path ≢ absent)
serve_static-IsBelow n dir url decoded s d m inside shorter i f e =
    serve_path-IsBelow n dir (strip_up (n.normalize decoded)) s
      (strip_up-HasNoUp (n.normalize decoded) m) inside shorter i f
      (done_inj (sym (serve_static-decoded n dir url decoded d) ∙ e))
