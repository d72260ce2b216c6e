-- ===== src/Js/Text.antt =====
-- JavaScript strings as lists of UTF-16 code units, and the methods of `String` that the source uses.
pub mod Equality
pub mod Split
pub mod Search
use Prim.Native.Char.{code}
use desk_ssh.Base.{
  ℕ, suc, ◌+◌, String, Bool, true, false, ◌&&◌, ◌||◌, List, [], ◌∷◌, ◌++◌, map, Option, none, some,
  leb, ◌==◌, if◌then◌else◌,
}

abbrev pub Text : Type 0
Text = List ℕ

-- The code units of a literal, all of which stand in the basic plane.
abbrev pub codes : String → Text
codes String.[] = []
codes (String.◌∷◌ c s) = code c ∷ codes s

-- `a === b`.
unfoldable pub text_eq : Text → Text → Bool
text_eq [] [] = true
text_eq [] (d ∷ t) = false
text_eq (c ∷ s) [] = false
text_eq (c ∷ s) (d ∷ t) = (c == d) && text_eq s t

-- `s.length > 0`, which is also whether a string is truthy.
abbrev pub non_empty : Text → Bool
non_empty [] = false
non_empty (c ∷ s) = true

-- `a || b` on strings.
abbrev pub text_or : Text → Text → Text
text_or [] t = t
text_or (c ∷ s) t = c ∷ s

unfoldable pub starts_with : Text → Text → Bool
starts_with s [] = true
starts_with [] (d ∷ p) = false
starts_with (c ∷ s) (d ∷ p) = (c == d) && starts_with s p

-- `s.includes(p)`.
unfoldable pub includes : Text → Text → Bool
unfolding starts_with
includes [] p = starts_with [] p
includes (c ∷ s) p = starts_with (c ∷ s) p || includes s p

-- `s.endsWith(p)`.
unfoldable pub ends_with : Text → Text → Bool
unfolding text_eq
ends_with [] p = text_eq [] p
ends_with (c ∷ s) p = text_eq (c ∷ s) p || ends_with s p

-- `s.indexOf(c)` of one code unit, `none` for -1.
unfoldable pub index_of : ℕ → Text → Option ℕ
index_of c [] = none
index_of c (d ∷ s) = elim (d == c) [
  | true ↦ some 0
  | false ↦ elim (index_of c s) [ none ↦ none | some i ↦ some (suc i) ]
]

-- `s.lastIndexOf(c)` of one code unit, `none` for -1.
unfoldable pub last_index_of : ℕ → Text → Option ℕ
last_index_of c [] = none
last_index_of c (d ∷ s) = elim (last_index_of c s) [
  | some i ↦ some (suc i)
  | none ↦ if d == c then some 0 else none
]

-- `s.split(c)` at one code unit. The result is never empty.
pub data Parts : Type 0 where
  parts : Text → List Text → Parts

abbrev pub to_list : Parts → List Text
to_list (parts p ps) = p ∷ ps

abbrev pub cons_part : ℕ → Parts → Parts
cons_part c (parts p ps) = parts (c ∷ p) ps

abbrev pub new_part : Parts → Parts
new_part (parts p ps) = parts [] (p ∷ ps)

unfoldable pub split_parts : ℕ → Text → Parts
split_parts sep [] = parts [] []
split_parts sep (c ∷ s) =
    let rest = split_parts sep s in if c == sep then new_part rest else cons_part c rest

unfoldable pub split : ℕ → Text → List Text
unfolding split_parts
split sep s = to_list (split_parts sep s)

-- `ps.join(sep)`.
unfoldable pub join : Text → List Text → Text
join sep [] = []
join sep (p ∷ []) = p
join sep (p ∷ q ∷ ps) = p ++ (sep ++ join sep (q ∷ ps))

-- The white space of `trim` and of `\s`: tab to carriage return, space, and the Unicode spaces.
unfoldable pub is_space : ℕ → Bool
is_space c =
    leb 9 c && leb c 13
    || c == 32
    || c == 0xa0
    || c == 0x1680
    || leb 0x2000 c && leb c 0x200a
    || c == 0x2028
    || c == 0x2029
    || c == 0x202f
    || c == 0x205f
    || c == 0x3000
    || c == 0xfeff

unfoldable pub trim_start : Text → Text
unfolding is_space
trim_start [] = []
trim_start (c ∷ s) = elim (is_space c) [ true ↦ trim_start s | false ↦ c ∷ s ]

-- A space is dropped if only spaces follow it.
unfoldable pub trim_end : Text → Text
unfolding is_space
trim_end [] = []
trim_end (c ∷ s) = elim (trim_end s) [ [] ↦ if is_space c then [] else c ∷ [] | d ∷ t ↦ c ∷ d ∷ t ]

unfoldable pub trim : Text → Text
unfolding trim_start trim_end
trim s = trim_end (trim_start s)

-- `[0-9]`, `\w` and the letters, as the source's regular expressions read them.
unfoldable pub is_digit : ℕ → Bool
is_digit c = leb b'0' c && leb c b'9'

unfoldable pub is_word : ℕ → Bool
unfolding is_digit
is_word c = is_digit c || leb b'a' c && leb c b'z' || leb b'A' c && leb c b'Z' || c == b'_'

-- The case folding of `/i` against a pattern in ASCII: no other unit folds into ASCII.
unfoldable pub fold_unit : ℕ → ℕ
fold_unit c = if leb b'A' c && leb c b'Z' then c + 32 else c

unfoldable pub fold_case : Text → Text
unfolding fold_unit
fold_case s = map fold_unit s

-- `s.toLowerCase()`: ASCII, and the two other units whose lower case begins in ASCII (U+0130 and
-- the Kelvin sign). Any other unit is left as it is; its lower case is not ASCII either.
unfoldable pub lower_unit : ℕ → Text
unfolding fold_unit
lower_unit c =
    if c == 0x130 then 0x69 ∷ 0x307 ∷ [] else if c == 0x212a then b'k' ∷ [] else fold_unit c ∷ []

unfoldable pub to_lower_case : Text → Text
unfolding lower_unit
to_lower_case [] = []
to_lower_case (c ∷ s) = lower_unit c ++ to_lower_case s

-- The longest prefix whose units pass a test, and what follows it: a greedy `[…]*`.
unfoldable pub span : (ℕ → Bool) → Text → Text × Text
span p [] = ([], [])
span p (c ∷ s) = elim (p c) [ true ↦ (c ∷ (span p s).0, (span p s).1) | false ↦ ([], c ∷ s) ]
