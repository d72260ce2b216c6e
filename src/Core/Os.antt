-- ===== src/Core/Os.antt =====
-- packages/core/src/adapters/os.ts: which family of system a host belongs to.
pub mod Laws
use desk_ssh.Base.{
  ℕ, zero, suc, ◌-◌, List, [], ◌∷◌, ◌++◌, Bool, true, false, ◌&&◌, ◌||◌, not, Option, none, some,
  or_else, ◌==◌, leb, if◌then◌else◌, take, drop, length,
}
use desk_ssh.Js.Text.{
  Text, codes, trim, split, starts_with, ends_with, index_of, non_empty, to_lower_case,
}
use desk_ssh.Js.Map
use desk_ssh.Js.Map.{Map}
use desk_ssh.Js.Regex.{has_word}
use desk_ssh.Core.Exec.{
  Outcome, done, threw, Action, pure, after, ◌>>=◌, ExecResult, CommandExecutor,
}

pub data OsFamily : Type 0 where
  debian rhel arch posix unknown : OsFamily

pub record OsInfo : Type 0 where
  pub family : OsFamily
  pub id : Option Text
  pub id_like : Option Text
  pub kernel : Option Text
  pub pretty_name : Option Text

-- `value.slice(1, -1)`.
abbrev inner : Text → Text
inner value = take (length value - 2) (drop 1 value)

unfoldable pub unquote : Text → Text
unfolding starts_with ends_with
unquote value =
    if leb 2 (length value)
      && (starts_with value (codes "\"") && ends_with value (codes "\"")
          || starts_with value (codes "'") && ends_with value (codes "'"))
    then inner value
    else value

-- One round of the loop of `parseOsRelease`.
unfoldable pub release_line : Map Text → Text → Map Text
unfolding trim starts_with index_of unquote Map.set
release_line out line =
    let trimmed = trim line in
    if not (non_empty trimmed) || starts_with trimmed (codes "#")
    then out
    else elim (index_of b'=' trimmed) [
      | none ↦ out
      | some eq ↦ Map.set (take eq trimmed) (unquote (trim (drop (suc eq) trimmed))) out
    ]

unfoldable pub release_lines : Map Text → List Text → Map Text
unfolding release_line
release_lines out [] = out
release_lines out (line ∷ lines) = release_lines (release_line out line) lines

unfoldable pub parse_os_release : Text → Map Text
unfolding release_lines split
parse_os_release raw = release_lines [] (split 10 raw)

abbrev pub debian_words : List Text
debian_words =
    codes "debian"
    ∷ codes "ubuntu"
    ∷ codes "linuxmint"
    ∷ codes "mint"
    ∷ codes "raspbian"
    ∷ codes "pop"
    ∷ []

abbrev pub rhel_words : List Text
rhel_words = codes "rhel" ∷ codes "fedora" ∷ codes "centos" ∷ codes "rocky" ∷ codes "almalinux" ∷ []

abbrev pub arch_words : List Text
arch_words = codes "arch" ∷ codes "manjaro" ∷ []

unfoldable pub family_for : Option Text → Option Text → OsFamily
unfolding to_lower_case has_word
family_for id id_like =
    let haystack = to_lower_case (or_else id [] ++ (codes " " ++ or_else id_like [])) in
    if has_word debian_words haystack
    then debian
    else if has_word rhel_words haystack
    then rhel
    else if has_word arch_words haystack
    then arch
    else unknown

-- `text.trim() || undefined`.
abbrev pub some_text : Text → Option Text
some_text [] = none
some_text (c ∷ s) = some (c ∷ s)

abbrev pub known_or_posix : OsFamily → OsFamily
known_or_posix unknown = posix
known_or_posix debian = debian
known_or_posix rhel = rhel
known_or_posix arch = arch
known_or_posix posix = posix

abbrev pub is_zero : Option ℕ → Bool
is_zero none = false
is_zero (some n) = n == 0

-- What `detectOs` makes of the two outputs.
unfoldable pub os_info : ExecResult → ExecResult → OsInfo
unfolding trim parse_os_release family_for Map.get
os_info release uname =
    let kernel = some_text (trim uname.stdout) in
    let fields = parse_os_release release.stdout in
    let id = Map.get (codes "ID") fields in
    let id_like = Map.get (codes "ID_LIKE") fields in
    if not (is_zero release.exit_code) || not (non_empty (trim release.stdout))
    then record {
      family = elim kernel [ none ↦ unknown | some k ↦ posix ];
      id = none;
      id_like = none;
      kernel = kernel;
      pretty_name = none;
    }
    else record {
      family = known_or_posix (family_for id id_like);
      id = id;
      id_like = id_like;
      kernel = kernel;
      pretty_name = Map.get (codes "PRETTY_NAME") fields;
    }

unfoldable pub detect_os : {W : Type 0} → CommandExecutor W → Action W OsInfo
unfolding os_info
detect_os executor = do
  release ← executor (codes "cat /etc/os-release 2>/dev/null") none
  uname ← executor (codes "uname -s 2>/dev/null") none
  pure (os_info release uname)
