-- ===== src/Core/Debian/Sections/Marked.antt =====
-- packages/core/src/adapters/debian.ts: output that marker lines cut into sections is read back section by
-- section.
use desk_ssh.Base.{
  ℕ, List, [], ◌∷◌, ◌++◌, append_assoc, append-nil, none, some, or_else, ◌≡◌, ◌≢◌, refl, sym, ◌∙◌,
  ap, All, if◌then◌else◌, Bool-cases, inl, inr,
}
use desk_ssh.Js.Text.{Text, codes, text_eq}
use desk_ssh.Js.Text.Equality.{text_eq_refl, text_eq→eq}
use desk_ssh.Js.Map
use desk_ssh.Js.Map.{Map}
use desk_ssh.Js.Map.Laws.{get-set}
use desk_ssh.Js.Regex.{marker}
use desk_ssh.Core.Debian.Sections.{read_sections}

-- The table behind lines of one section.
abbrev pub pushes : Text → List Text → Map (List Text) → Map (List Text)
pushes name [] m = m
pushes name (l ∷ ls) m = pushes name ls (Map.set name (or_else (Map.get name m) [] ++ l ∷ []) m)

-- A line that is no marker.
abbrev pub IsContent : Text → Type 0
IsContent l = marker l ≡ none

read_sections-line :
    (c : ℕ) (r l : Text) (lines : List Text) (m : Map (List Text))
    → IsContent l
    → read_sections (c ∷ r) m (l ∷ lines)
      ≡ read_sections (c ∷ r) (Map.set (c ∷ r) (or_else (Map.get (c ∷ r) m) [] ++ l ∷ []) m) lines
unfolding read_sections
read_sections-line c r l lines m h = rw (h, read_sections)

read_sections-content :
    (c : ℕ) (r : Text) (ls more : List Text) (m : Map (List Text))
    → All IsContent ls
    → read_sections (c ∷ r) m (ls ++ more) ≡ read_sections (c ∷ r) (pushes (c ∷ r) ls m) more
read_sections-content c r [] more m h = refl
read_sections-content c r (l ∷ ls) more m (h, hs) =
    read_sections-line c r l (ls ++ more) m h ∙ read_sections-content c r ls more _ hs

read_sections-marker :
    (current name l : Text) (lines : List Text) (m : Map (List Text))
    → marker l ≡ some name
    → read_sections current m (l ∷ lines) ≡ read_sections name (Map.set name [] m) lines
unfolding read_sections
read_sections-marker current name l lines m h = rw (h, read_sections)

get-pushes :
    (k name : Text) (ls acc : List Text) (m : Map (List Text))
    → Map.get name m ≡ some acc
    → Map.get k (pushes name ls m) ≡ (if text_eq name k then some (acc ++ ls) else Map.get k m)
get-pushes k name [] acc m h = elim (Bool-cases (text_eq name k)) [
  | inl e ↦
      rw e (ap (λ j. Map.get j m) (sym (text_eq→eq name k e)) ∙ h ∙ ap some (sym (append-nil acc)))
  | inr e ↦ rw e
]
get-pushes k name (l ∷ ls) acc m h =
    let m' = Map.set name (or_else (Map.get name m) [] ++ l ∷ []) m in
    let here : Map.get name m' ≡ some (acc ++ l ∷ []) =
      get-set name name (or_else (Map.get name m) [] ++ l ∷ []) m ∙ rw (text_eq_refl name, h) in
    get-pushes k name ls (acc ++ l ∷ []) m' here ∙ go here
  where
    go :
        Map.get name (Map.set name (or_else (Map.get name m) [] ++ l ∷ []) m) ≡ some (acc ++ l ∷ [])
        → (if text_eq name k
            then some ((acc ++ l ∷ []) ++ ls)
            else Map.get k (Map.set name (or_else (Map.get name m) [] ++ l ∷ []) m))
          ≡ (if text_eq name k then some (acc ++ l ∷ ls) else Map.get k m)
    go here = elim (Bool-cases (text_eq name k)) [
      | inl e ↦ rw e (ap some (append_assoc acc (l ∷ []) ls))
      | inr e ↦ rw (e, get-set k name (or_else (Map.get name m) [] ++ l ∷ []) m) (rw e)
    ]

-- A section's name and its lines.
abbrev pub Section : Type 0
Section = Text × List Text

abbrev pub marked : Text → Text
marked name = codes "===" ++ (name ++ codes "===")

abbrev pub lines_of : List Section → List Text
lines_of [] = []
lines_of ((name, ls) ∷ rest) = marked name ∷ (ls ++ lines_of rest)

-- The table of the sections, where a later one of the same name replaces an earlier one.
abbrev pub added : Section → Map (List Text) → Map (List Text)
added (name, ls) m = pushes name ls (Map.set name [] m)

abbrev pub table : List Section → Map (List Text) → Map (List Text)
table [] m = m
table (sec ∷ rest) m = table rest (added sec m)

-- The marker is read as such, and no line of the section is one.
pub record IsSection (sec : Section) : Type 0 where
  pub named : sec.0 ≢ []
  pub marker_read : marker (marked sec.0) ≡ some sec.0
  pub content : All IsContent sec.1

pub get-added :
    (k name : Text) (ls : List Text) (m : Map (List Text))
    → Map.get k (added (name, ls) m) ≡ (if text_eq name k then some ls else Map.get k m)
get-added k name ls m =
    get-pushes k name ls [] (Map.set name [] m) (get-set name name [] m ∙ rw (text_eq_refl name))
    ∙ go
  where
    go :
        (if text_eq name k then some ls else Map.get k (Map.set name [] m))
        ≡ (if text_eq name k then some ls else Map.get k m)
    go = elim (Bool-cases (text_eq name k)) [
      | inl e ↦ rw e
      | inr e ↦ rw (e, get-set k name [] m) (rw e)
    ]

read_sections-nil : (current : Text) (m : Map (List Text)) → read_sections current m [] ≡ m
unfolding read_sections
read_sections-nil current m = refl

pub read_sections-lines_of :
    (current : Text) (secs : List Section) (m : Map (List Text))
    → All IsSection secs
    → read_sections current m (lines_of secs) ≡ table secs m
read_sections-lines_of current [] m h = read_sections-nil current m
read_sections-lines_of current (([], ls) ∷ rest) m (h, hs) = absurd (h.named refl)
read_sections-lines_of current ((c ∷ r, ls) ∷ rest) m (h, hs) =
    read_sections-marker current (c ∷ r) (marked (c ∷ r)) (ls ++ lines_of rest) m h.marker_read
    ∙ read_sections-content c r ls (lines_of rest) (Map.set (c ∷ r) [] m) h.content
    ∙ read_sections-lines_of (c ∷ r) rest (added (c ∷ r, ls) m) hs
