-- ===== src/Core/Debian/Files.antt =====
-- packages/core/src/adapters/debian.ts: the parsers of `find` and `stat` output.
pub mod Found
pub mod Listing
use desk_ssh.Base.{
  ℕ, zero, suc, ◌*◌, List, [], ◌∷◌, ◌++◌, map, Option, none, some, ◌==◌, if◌then◌else◌, or_else,
  keep, Bool, true, false, ◌≡◌, refl,
}
use desk_ssh.Js.Text.{Text, codes, text_eq, ends_with, split, join, non_empty}
use desk_ssh.Js.Number.{ℤ, pos, negsuc, Num, ratio, parse_int, parse_float, scale, round}
use desk_ssh.Js.Regex.{strip_slashes}
use desk_ssh.Core.Exec.{Outcome, done, threw}
use desk_ssh.Core.Types.{FileType, FileEntry, file, directory, symlink, other}

unfoldable pub file_type_from_find_code : Text → FileType
unfolding text_eq
file_type_from_find_code code =
    if text_eq code (codes "f")
    then file
    else if text_eq code (codes "d")
    then directory
    else if text_eq code (codes "l")
    then symlink
    else other

unfoldable pub file_type_from_stat_word : Text → FileType
unfolding text_eq ends_with
file_type_from_stat_word word =
    if text_eq word (codes "directory")
    then directory
    else if text_eq word (codes "symbolic link")
    then symlink
    else if ends_with word (codes "file")
    then file
    else other

unfoldable pub epoch_seconds_to_ms : Text → Num
unfolding parse_float scale round
epoch_seconds_to_ms value = round (scale 1000 (parse_float value))

abbrev pub tab : ℕ
tab = 9

abbrev pub newline : ℕ
newline = 10

-- One line of `find -printf`, cut at its tabs.
unfoldable pub find_entry : Text → List Text → Outcome FileEntry
unfolding file_type_from_find_code epoch_seconds_to_ms parse_int join
find_entry line (type ∷ size ∷ mode ∷ owner ∷ group ∷ mtime ∷ name ∷ more) = done (record {
  name = join (tab ∷ []) (name ∷ more);
  type = file_type_from_find_code type;
  size = or_else (parse_int 10 size) (pos 0);
  mode = or_else (parse_int 8 mode) (pos 0);
  owner = owner;
  group = group;
  mtime = epoch_seconds_to_ms mtime;
})
find_entry line _ = threw (codes "Unexpected find output: " ++ line)

unfoldable pub parse_find_line : Text → Outcome FileEntry
unfolding find_entry split
parse_find_line line = find_entry line (split tab line)

abbrev pub cons_done {ℓ} : {A : Type ℓ} → Outcome A → Outcome (List A) → Outcome (List A)
cons_done (done a) (done r) = done (a ∷ r)
cons_done (done a) (threw e) = threw e
cons_done (threw e) r = threw e

-- `lines.map(parse)` of a parser that may throw.
unfoldable pub map_parse {ℓ} : {A : Type ℓ} → (Text → Outcome A) → List Text → Outcome (List A)
map_parse parse [] = done []
map_parse parse (line ∷ lines) = cons_done (parse line) (map_parse parse lines)

unfoldable pub parse_list_dir : Text → Outcome (List FileEntry)
unfolding parse_find_line map_parse split
parse_list_dir stdout = map_parse parse_find_line (keep non_empty (split newline stdout))

-- `parts.pop()` of a list that is not empty.
unfoldable pub pop : List Text → Text
pop [] = []
pop (p ∷ []) = p
pop (p ∷ q ∷ ps) = pop (q ∷ ps)

-- `ms * 1000` of an integer.
abbrev pub thousand_times : ℤ → Num
thousand_times (pos n) = ratio false (n * 1000) 1
thousand_times (negsuc n) = ratio true (suc n * 1000) 1

unfoldable pub stat_entry : Text → List Text → Outcome FileEntry
unfolding file_type_from_stat_word parse_int join pop strip_slashes split
stat_entry stdout (type ∷ size ∷ mode ∷ owner ∷ group ∷ mtime ∷ path ∷ more) = done (record {
  name = pop (split b'/' (strip_slashes (join (tab ∷ []) (path ∷ more))));
  type = file_type_from_stat_word type;
  size = or_else (parse_int 10 size) (pos 0);
  mode = or_else (parse_int 8 mode) (pos 0);
  owner = owner;
  group = group;
  mtime = thousand_times (or_else (parse_int 10 mtime) (pos 0));
})
stat_entry stdout _ = threw (codes "Unexpected stat output: " ++ stdout)

unfoldable pub parse_stat : Text → Outcome FileEntry
unfolding stat_entry split
parse_stat stdout = stat_entry stdout (split tab stdout)
