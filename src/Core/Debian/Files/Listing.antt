-- ===== src/Core/Debian/Files/Listing.antt =====
-- packages/core/src/adapters/debian.ts: `parseListDir` reads back what `find` prints.
use desk_ssh.Base.{
  ℕ, true, List, [], ◌∷◌, ◌++◌, map, append_assoc, ◌≡◌, ◌≢◌, refl, arith, All, All-append, keep, ap,
  ◌<◌, ◌^◌, length, Bool, false,
}
use desk_ssh.Js.Text.{
  Text, codes, text_eq, Parts, parts, to_list, split, split_parts, join, non_empty,
}
use desk_ssh.Js.Text.Split.{Lacks, split-append, split-ended, join-split}
use desk_ssh.Js.Number.{ratio, value, round, scale, to_radix, show, is_digit_of}
use desk_ssh.Js.Number.Radix.{AllDigits, AllDigits-to_radix, parse_int-to_radix}
use desk_ssh.Js.Number.Decimal.{decimal, parse_float-decimal}
use desk_ssh.Js.Text.Equality.{text_eq_ne}
use desk_ssh.Core.Exec.{done}
use desk_ssh.Core.Debian.Files.{
  file_type_from_find_code, epoch_seconds_to_ms, find_entry, parse_find_line, map_parse,
  parse_list_dir, tab, newline,
}
use desk_ssh.Core.Debian.Files.Found.{
  Kind, regular, folder, link, special, code_of, type_of, Found, time_text, nearest_ms, find_line,
  find_output, entry_of, IsKind, IsPlain,
}

Lacks-of_AllDigits : (radix c : ℕ) (s : Text) → c < 48 → AllDigits radix s → Lacks c s
Lacks-of_AllDigits radix c [] h d = tt
Lacks-of_AllDigits radix c (e ∷ s) h (d, ds) =
    (unfold is_digit_of in ground arith, Lacks-of_AllDigits radix c s h ds)

Lacks-to_radix : (radix c n : ℕ) → 0 < radix → c < 48 → Lacks c (to_radix radix n)
Lacks-to_radix radix c n h k =
    Lacks-of_AllDigits radix c (to_radix radix n) k (AllDigits-to_radix radix n h)

Lacks-show : (c n : ℕ) → c < 48 → Lacks c (show n)
unfolding show
Lacks-show c n h = Lacks-to_radix 10 c n (omega arith) h

-- A letter, or another code, lacks what it may not hold.
code-Lacks : (k : Kind) → IsKind k → Lacks tab (code_of k) × Lacks newline (code_of k)
unfolding code_of
code-Lacks regular h = (((omega arith), tt), ((omega arith), tt))
code-Lacks folder h = (((omega arith), tt), ((omega arith), tt))
code-Lacks link h = (((omega arith), tt), ((omega arith), tt))
code-Lacks (special code) (e, f, g, h, k) = (h, k)

decimal-Lacks :
    (c : ℕ) (before : Bool) (n : ℕ) (s : Text)
    → c < 45
    → AllDigits 10 s
    → Lacks c (decimal before n s)
unfolding decimal
decimal-Lacks c true n s h k = (
  (omega arith),
  All-append (λ d. d ≢ c) (show n) (46 ∷ s) (Lacks-show c n (omega arith))
      ((omega arith), Lacks-of_AllDigits 10 c s (omega arith) k),
)
decimal-Lacks c false n s h k =
    All-append (λ d. d ≢ c) (show n) (46 ∷ s) (Lacks-show c n (omega arith))
      ((omega arith), Lacks-of_AllDigits 10 c s (omega arith) k)

file_type_from_find_code_lem :
    (k : Kind) → IsKind k → file_type_from_find_code (code_of k) ≡ type_of k
unfolding file_type_from_find_code code_of type_of text_eq
file_type_from_find_code_lem regular h = refl
file_type_from_find_code_lem folder h = refl
file_type_from_find_code_lem link h = refl
file_type_from_find_code_lem (special code) (e, f, g, h, k) =
    rw (text_eq_ne code (codes "f") e, text_eq_ne code (codes "d") f, text_eq_ne code (codes "l") g)

epoch_seconds_to_ms_lem :
    (before : Bool) (n : ℕ) (s : Text)
    → AllDigits 10 s
    → epoch_seconds_to_ms (decimal before n s)
      ≡ ratio before (nearest_ms before (value 10 n s) (10 ^ length s)) 1
unfolding epoch_seconds_to_ms round scale nearest_ms
epoch_seconds_to_ms_lem true n s k = ap (λ x. round (scale 1000 x)) (parse_float-decimal true n s k)
epoch_seconds_to_ms_lem false n s k =
    ap (λ x. round (scale 1000 x)) (parse_float-decimal false n s k)

find_entry-parts :
    (line : Text) (f : Found) (ps : Parts)
    → IsPlain f
    → find_entry line (
        code_of f.kind
        ∷ show f.size
        ∷ to_radix 8 f.mode
        ∷ f.owner
        ∷ f.group
        ∷ time_text f
        ∷ to_list ps)
      ≡ done (record (entry_of f) { name = join (tab ∷ []) (to_list ps) })
unfolding find_entry entry_of show
find_entry-parts line f (parts p ps) h = rw (
  file_type_from_find_code_lem f.kind h.known,
  epoch_seconds_to_ms_lem f.before f.seconds f.digits h.fraction,
  parse_int-to_radix 10 f.size (omega arith) (omega arith),
  parse_int-to_radix 8 f.mode (omega arith) (omega arith),
)

split-find_line :
    (f : Found)
    → IsPlain f
    → split tab (find_line f)
      ≡ code_of f.kind
        ∷ show f.size
        ∷ to_radix 8 f.mode
        ∷ f.owner
        ∷ f.group
        ∷ time_text f
        ∷ split tab f.name
unfolding find_line
split-find_line f h = simp (append_assoc) (
    rw (
      split-append tab (code_of f.kind) _ (code-Lacks f.kind h.known).0,
      split-append tab (show f.size) _ (Lacks-show tab f.size (omega arith)),
      split-append tab (to_radix 8 f.mode) _
          (Lacks-to_radix 8 tab f.mode (omega arith) (omega arith)),
      split-append tab f.owner _ h.owner_tab,
      split-append tab f.group _ h.group_tab,
      split-append tab (time_text f) _
          (decimal-Lacks tab f.before f.seconds f.digits (omega arith) h.fraction),
    ))

parse_find_line_lem : (line : Text) → parse_find_line line ≡ find_entry line (split tab line)
unfolding parse_find_line
parse_find_line_lem line = refl

to_list-split_parts : (s : Text) → split tab s ≡ to_list (split_parts tab s)
unfolding split
to_list-split_parts s = refl

parse_find_line-find_line :
    (f : Found) → IsPlain f → parse_find_line (find_line f) ≡ done (entry_of f)
parse_find_line-find_line f h =
    rw
      (
        parse_find_line_lem,
        split-find_line f h,
        to_list-split_parts,
        find_entry-parts (find_line f) f (split_parts tab f.name) h,
        ← to_list-split_parts,
        join-split,
      )
      (unfold entry_of in refl)

non_empty-append : (s : Text) (c : ℕ) (t : Text) → non_empty (s ++ c ∷ t) ≡ true
non_empty-append [] c t = refl
non_empty-append (d ∷ s) c t = refl

find_line-ne-nil : (f : Found) → non_empty (find_line f) ≡ true
unfolding find_line
find_line-ne-nil f = non_empty-append _ tab f.name

Lacks-field : (s t : Text) → Lacks newline s → Lacks newline t → Lacks newline (s ++ tab ∷ t)
Lacks-field s t h k = All-append (λ d. d ≢ newline) s (tab ∷ t) h (omega arith, k)

find_line-Lacks : (f : Found) → IsPlain f → Lacks newline (find_line f)
unfolding find_line
find_line-Lacks f h =
    let size = Lacks-show newline f.size (omega arith) in
    let mode = Lacks-to_radix 8 newline f.mode (omega arith) (omega arith) in
    Lacks-field _ _
      (Lacks-field _ _
        (Lacks-field _ _
          (Lacks-field _ _
            (Lacks-field _ _ (Lacks-field _ _ (code-Lacks f.kind h.known).1 size) mode)
            h.owner_line)
          h.group_line)
        (decimal-Lacks newline f.before f.seconds f.digits (omega arith) h.fraction))
      h.name_line

-- The lines that are not empty, where the last part alone is.
keep-lines : (fs : List Found) → keep non_empty (map find_line fs ++ [] ∷ []) ≡ map find_line fs
keep-lines [] = refl
keep-lines (f ∷ fs) = rw (find_line-ne-nil f, keep) (ap (λ ls. find_line f ∷ ls) (keep-lines fs))

map_find_line-Lacks : (fs : List Found) → All IsPlain fs → All (Lacks newline) (map find_line fs)
map_find_line-Lacks [] h = tt
map_find_line-Lacks (f ∷ fs) (h, hs) = (find_line-Lacks f h, map_find_line-Lacks fs hs)

map_parse-find_line :
    (fs : List Found)
    → All IsPlain fs
    → map_parse parse_find_line (map find_line fs) ≡ done (map entry_of fs)
unfolding map_parse
map_parse-find_line [] h = refl
map_parse-find_line (f ∷ fs) (h, hs) = rw (parse_find_line-find_line f h, map_parse-find_line fs hs)

parse_list_dir_lem :
    (stdout : Text)
    → parse_list_dir stdout ≡ map_parse parse_find_line (keep non_empty (split newline stdout))
unfolding parse_list_dir
parse_list_dir_lem stdout = refl

-- The output of `find` for entries whose fields hold no line end, and no tab but in the name, is
-- read back as exactly these entries, in order: sizes and octal modes of any magnitude, and names
-- that hold tabs, quotes or spaces.
pub parse_list_dir-find_output :
    (fs : List Found) → All IsPlain fs → parse_list_dir (find_output fs) ≡ done (map entry_of fs)
unfolding find_output
parse_list_dir-find_output fs h =
    rw
      (
        parse_list_dir_lem,
        split-ended newline (map find_line fs) (map_find_line-Lacks fs h),
        keep-lines fs,
      )
      (map_parse-find_line fs h)
