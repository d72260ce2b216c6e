-- ===== src/Core/Debian/Files/Found.antt =====
-- What `find -printf '%y\t%s\t%m\t%u\t%g\t%T@\t%f\n'` prints of the entries of a directory, and the entries.
use desk_ssh.Base.{ℕ, true, List, ◌∷◌, ◌++◌, map, ◌≢◌, ◌*◌, ◌+◌, ◌-◌, ◌/◌, ◌^◌, length, Bool, false}
use desk_ssh.Js.Text.{Text, codes}
use desk_ssh.Js.Text.Split.{Lacks, ended}
use desk_ssh.Js.Number.{pos, ratio, value, to_radix, show}
use desk_ssh.Js.Number.Radix.{AllDigits}
use desk_ssh.Js.Number.Decimal.{decimal}
use desk_ssh.Core.Types.{FileEntry, FileType, file, directory, symlink, other}
use desk_ssh.Core.Debian.Files.{tab, newline}

-- The types that `find` prints: `f`, `d`, `l`, or another code.
pub data Kind : Type 0 where
  regular folder link : Kind
  special : (code : Text) → Kind

unfoldable pub code_of : Kind → Text
code_of regular = codes "f"
code_of folder = codes "d"
code_of link = codes "l"
code_of (special code) = code

unfoldable pub type_of : Kind → FileType
type_of regular = file
type_of folder = directory
type_of link = symlink
type_of (special code) = other

-- What `find` knows of an entry. The time is in seconds from the epoch, or before it, with the digits
-- of a fraction.
pub record Found : Type 0 where
  pub kind : Kind
  pub size : ℕ
  pub mode : ℕ
  pub owner : Text
  pub group : Text
  pub before : Bool
  pub seconds : ℕ
  pub digits : Text
  pub name : Text

abbrev pub time_text : Found → Text
time_text f = decimal f.before f.seconds f.digits

-- The milliseconds of n / d seconds, as the nearest integer, halves towards later times.
unfoldable pub nearest_ms : Bool → ℕ → ℕ → ℕ
nearest_ms true n d = (2 * (n * 1000) + d - 1) / (2 * d)
nearest_ms false n d = (2 * (n * 1000) + d) / (2 * d)

-- The line of an entry, without its line end.
unfoldable pub find_line : Found → Text
find_line f =
    code_of f.kind
    ++ (tab ∷ show f.size)
    ++ (tab ∷ to_radix 8 f.mode)
    ++ (tab ∷ f.owner)
    ++ (tab ∷ f.group)
    ++ (tab ∷ time_text f)
    ++ (tab ∷ f.name)

unfoldable pub find_output : List Found → Text
find_output fs = ended newline (map find_line fs)

unfoldable pub entry_of : Found → FileEntry
entry_of f = record {
  name = f.name;
  type = type_of f.kind;
  size = pos f.size;
  mode = pos f.mode;
  owner = f.owner;
  group = f.group;
  mtime =
      ratio f.before (nearest_ms f.before (value 10 f.seconds f.digits) (10 ^ length f.digits)) 1;
}

-- Another code is none of the three, and holds neither a tab nor a line end.
abbrev pub IsKind : Kind → Type 0
IsKind (special code) =
    (code ≢ codes "f")
    × (code ≢ codes "d")
    × (code ≢ codes "l")
    × Lacks tab code
    × Lacks newline code
IsKind other_kind = Unit

-- No field holds a line end, and none but the name holds a tab; the fraction is digits.
pub record IsPlain (f : Found) : Type 0 where
  pub known : IsKind f.kind
  pub fraction : AllDigits 10 f.digits
  pub owner_tab : Lacks tab f.owner
  pub group_tab : Lacks tab f.group
  pub owner_line : Lacks newline f.owner
  pub group_line : Lacks newline f.group
  pub name_line : Lacks newline f.name
