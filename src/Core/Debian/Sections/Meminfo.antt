-- ===== src/Core/Debian/Sections/Meminfo.antt =====
-- packages/core/src/adapters/debian.ts: the lines of `/proc/meminfo`, and the table they are read into.
use desk_ssh.Base.{
  ℕ, zero, suc, true, false, List, [], ◌∷◌, ◌++◌, map, ◌≡◌, ◌≢◌, refl, ◌∙◌, arith, All, All-append,
  ap, ◌*◌, none, some, Option, if◌then◌else◌,
}
use desk_ssh.Js.Text.{
  Text, codes, trim, trim_start, trim_end, is_space, is_word, is_digit, text_eq, span, starts_with,
}
use desk_ssh.Js.Text.Split.{Lacks}
use desk_ssh.Js.Number.{show, value}
use desk_ssh.Js.Number.Radix.{value-show}
use desk_ssh.Js.Map
use desk_ssh.Js.Map.{Map}
use desk_ssh.Js.Map.Laws.{get-set}
use desk_ssh.Js.Regex.{marker, kb_line, some_run, some_spaces, expect, ◌>>=◌}
use desk_ssh.Core.Debian.Files.{newline}
use desk_ssh.Core.Debian.Sections.{add_kb, add_kbs}
use desk_ssh.Core.Debian.Sections.Marked.{IsContent}
use desk_ssh.Core.Debian.Sections.Words.{trim_end-append, trim_start-BeginsWord}
use desk_ssh.Core.Debian.Processes.Columns.{
  spaces, column, IsRun, NoSpaceFirst-run, some_spaces-gap, some_run-column, some_run-stop,
  digit_not_space, show-IsRun, bind, IsRun-Lacks, column-Lacks,
}

-- A line of an amount, whose name is moved away from it by spaces, or any other line.
pub data MemLine : Type 0 where
  amount : (name : Text) (pad kbs : ℕ) → MemLine
  other : (line : Text) → MemLine

pub mem_text : MemLine → Text
mem_text (amount name pad kbs) = name ++ 58 ∷ column pad (show kbs) (codes " kB")
mem_text (other line) = line

-- An amount's name is of letters, digits and `_`; another line is no amount, no marker, and one line.
unfoldable pub IsMemLine : MemLine → Type 0
IsMemLine (amount name pad kbs) = IsRun is_word name
IsMemLine (other line) = (kb_line (trim line) ≡ none) × (IsContent line × Lacks newline line)

-- The bytes of a name: what its last line says, or else what was known before.
pub known : Text → Option ℕ → List MemLine → Option ℕ
known k o [] = o
known k o (amount name pad kbs ∷ es) = known k (if text_eq name k then some (kbs * 1024) else o) es
known k o (other line ∷ es) = known k o es

pub word_not_space : (c : ℕ) → is_word c ≡ true → is_space c ≡ false
unfolding is_word is_digit is_space
word_not_space c h = ground arith

word_not_mark : (c : ℕ) → is_word c ≡ true → c ≢ 61
unfolding is_word is_digit
word_not_mark c h = ground arith

-- Cut at both ends, the line is the same.
trim_end-behind : (s u : Text) → u ≢ [] → trim_end u ≡ u → trim_end (s ++ u) ≡ s ++ u
trim_end-behind s [] h k = absurd (h refl)
trim_end-behind s (d ∷ t) h k = trim_end-append s d t k

append-ne-nil : (s : Text) (d : ℕ) (t : Text) → s ++ d ∷ t ≢ []
append-ne-nil [] d t e = cc
append-ne-nil (c ∷ s) d t e = cc

spaces-ne-nil : (n : ℕ) (s : Text) (d : ℕ) (t : Text) → spaces n ++ (s ++ d ∷ t) ≢ []
spaces-ne-nil zero s d t e = append-ne-nil s d t e
spaces-ne-nil (suc n) s d t e = cc

trim_end-unit : trim_end (codes " kB") ≡ codes " kB"
unfolding trim_end is_space
trim_end-unit = refl

trim-amount :
    (name : Text) (pad kbs : ℕ)
    → IsRun is_word name
    → trim (mem_text (amount name pad kbs)) ≡ mem_text (amount name pad kbs)
unfolding trim mem_text
trim-amount [] pad kbs r = absurd (r.some_unit refl)
trim-amount (c ∷ name) pad kbs r =
    let number = show kbs ++ codes " kB" in
    let ended : trim_end number ≡ number =
      trim_end-append (show kbs) 32 (107 ∷ 66 ∷ []) trim_end-unit in
    let padded : trim_end (spaces pad ++ number) ≡ spaces pad ++ number =
      trim_end-behind (spaces pad) number (append-ne-nil (show kbs) 32 (107 ∷ 66 ∷ [])) ended in
    ap trim_end (trim_start-BeginsWord _ (c, (_, (refl, word_not_space c r.units.0))))
    ∙ trim_end-append (c ∷ name) 58 _ (
        trim_end-append (58 ∷ []) 32 _ (
          trim_end-behind (32 ∷ []) (spaces pad ++ number)
            (spaces-ne-nil pad (show kbs) 32 (107 ∷ 66 ∷ [])) padded))

-- The steps of the pattern behind each group.
abbrev after_number : Text → Text × Text → Option (Text × Text)
after_number name number =
    if text_eq (span is_space number.1).1 (codes "kB") then some (name, number.0) else none

abbrev after_gap : Text → Text → Option (Text × Text)
after_gap name body = some_run is_digit body >>= after_number name

abbrev after_colon : Text → Text → Option (Text × Text)
after_colon name rest = some_spaces rest >>= after_gap name

abbrev after_name : Text × Text → Option (Text × Text)
after_name name = expect b':' name.1 >>= after_colon name.0

colon_not_word : is_word 58 ≡ false
unfolding is_word is_digit
colon_not_word = refl

space_not_digit : is_digit 32 ≡ false
unfolding is_digit
space_not_digit = refl

unit_read : (name number : Text) → after_number name (number, codes " kB") ≡ some (name, number)
unfolding span is_space text_eq
unit_read name number = refl

kb_line-amount :
    (name : Text) (pad kbs : ℕ)
    → IsRun is_word name
    → kb_line (mem_text (amount name pad kbs)) ≡ some (name, show kbs)
unfolding kb_line mem_text
kb_line-amount name pad kbs r = bind after_name (some_run-stop is_word name 58 _ colon_not_word r) (
    bind (after_gap name)
      (some_spaces-gap pad (show kbs ++ codes " kB")
        (NoSpaceFirst-run is_digit (show kbs) (codes " kB") digit_not_space (show-IsRun kbs)))
      (bind (after_number name)
        (some_run-column is_digit (show kbs) (107 ∷ 66 ∷ []) space_not_digit (show-IsRun kbs))
        (unit_read name (show kbs))))

abbrev stored : Map ℕ → Option (Text × Text) → Map ℕ
stored m o = elim o [ none ↦ m | some g ↦ Map.set g.0 (value 10 0 g.1 * 1024) m ]

add_kb-amount :
    (m : Map ℕ) (name : Text) (pad kbs : ℕ)
    → IsRun is_word name
    → add_kb m (mem_text (amount name pad kbs)) ≡ Map.set name (kbs * 1024) m
unfolding add_kb
add_kb-amount m name pad kbs r =
    ap (λ (s : Text). stored m (kb_line s)) (trim-amount name pad kbs r)
    ∙ ap (stored m) (kb_line-amount name pad kbs r)
    ∙ ap (λ (v : ℕ). Map.set name (v * 1024) m) (value-show kbs)

add_kb-other : (m : Map ℕ) (line : Text) → kb_line (trim line) ≡ none → add_kb m line ≡ m
unfolding add_kb
add_kb-other m line h = ap (stored m) h

kb_line-nil : kb_line (trim []) ≡ none
unfolding kb_line trim trim_start trim_end some_run span
kb_line-nil = refl

-- The table that the lines are read into holds the bytes of each name.
pub get-add_kbs :
    (k : Text) (es : List MemLine) (m : Map ℕ)
    → All IsMemLine es
    → Map.get k (add_kbs m (map mem_text es ++ [] ∷ [])) ≡ known k (Map.get k m) es
unfolding add_kbs known IsMemLine mem_text
get-add_kbs k [] m h = ap (Map.get k) (add_kb-other m [] kb_line-nil)
get-add_kbs k (amount name pad kbs ∷ es) m (r, hs) =
    ap (λ n. Map.get k (add_kbs n (map mem_text es ++ [] ∷ []))) (add_kb-amount m name pad kbs r)
    ∙ get-add_kbs k es (Map.set name (kbs * 1024) m) hs
    ∙ ap (λ o. known k o es) (get-set k name (kbs * 1024) m)
get-add_kbs k (other line ∷ es) m (h, hs) =
    ap (λ n. Map.get k (add_kbs n (map mem_text es ++ [] ∷ []))) (add_kb-other m line h.0)
    ∙ get-add_kbs k es m hs

-- A line that does not begin with `=` is no marker.
pub not_mark-IsContent : (c : ℕ) (s : Text) → c ≢ 61 → IsContent (c ∷ s)
unfolding marker starts_with
not_mark-IsContent c s h = ground arith

pub mem_text-IsContent : (e : MemLine) → IsMemLine e → IsContent (mem_text e)
unfolding IsMemLine mem_text
mem_text-IsContent (amount [] pad kbs) r = absurd (r.some_unit refl)
mem_text-IsContent (amount (c ∷ name) pad kbs) r =
    not_mark-IsContent c _ (word_not_mark c r.units.0)
mem_text-IsContent (other line) h = h.1.0

pub mem_text-Lacks : (e : MemLine) → IsMemLine e → Lacks newline (mem_text e)
unfolding IsMemLine mem_text
mem_text-Lacks (amount name pad kbs) r =
    All-append _ name _ (IsRun-Lacks is_word name word_not_space r) (
      (omega arith),
      column-Lacks pad (show kbs) (codes " kB")
          (IsRun-Lacks is_digit (show kbs) digit_not_space (show-IsRun kbs))
          ((omega arith), ((omega arith), ((omega arith), tt))),
    )
mem_text-Lacks (other line) h = h.1.1
