-- ===== src/Js/Regex.antt =====
-- The regular expressions of the parsers, as functions. In each the runs are of disjoint classes of
-- units, so that a greedy run is the only one that can match.
use desk_ssh.Base.{
  ℕ, Bool, true, false, ◌&&◌, ◌||◌, not, List, [], ◌∷◌, Option, none, some, ◌==◌, if◌then◌else◌,
  drop, any, length,
}
use desk_ssh.Js.Text.{
  Text, Parts, parts, cons_part, new_part, to_list, codes, text_eq, starts_with, span, is_space,
  is_digit, is_word, non_empty,
}

-- `s.split(/\s+/)`; the flag tells whether the unit before was a space.
unfoldable pub space_parts : Bool → Text → Parts
unfolding is_space
space_parts after [] = parts [] []
space_parts after (c ∷ s) =
    let rest = space_parts (is_space c) s in
    if is_space c then (if after then rest else new_part rest) else cons_part c rest

unfoldable pub split_spaces : Text → List Text
unfolding space_parts
split_spaces s = to_list (space_parts false s)

-- `/^===(\w+)===$/`: the name of a marker line.
unfoldable pub marker : Text → Option Text
unfolding span is_word text_eq starts_with
marker line =
    let name = span is_word (drop 3 line) in
    if starts_with line (codes "===") && (non_empty name.0 && text_eq name.1 (codes "==="))
    then some name.0
    else none

-- `\s+`: what follows a run of spaces, which must not be empty.
unfoldable pub some_spaces : Text → Option Text
unfolding span is_space
some_spaces [] = none
some_spaces (c ∷ s) = if is_space c then some (span is_space s).1 else none

-- A group of a run that must not be empty, and what follows it.
unfoldable pub some_run : (ℕ → Bool) → Text → Option (Text × Text)
unfolding span
some_run p s = elim (span p s).0 [ [] ↦ none | c ∷ r ↦ some (c ∷ r, (span p s).1) ]

infixl 5 ◌>>=◌
abbrev pub ◌>>=◌ {ℓ κ} : {A : Type ℓ} {B : Type κ} → Option A → (A → Option B) → Option B
none >>= k = none
some a >>= k = k a

abbrev pub expect : ℕ → Text → Option Text
expect c [] = none
expect c (d ∷ s) = if d == c then some s else none

-- `/^(\w+):\s+(\d+)\s*kB$/`: a name and a number.
unfoldable pub kb_line : Text → Option (Text × Text)
unfolding some_run some_spaces is_word is_digit span is_space text_eq
kb_line line = do
  name ← some_run is_word line
  rest ← expect b':' name.1
  body ← some_spaces rest
  number ← some_run is_digit body
  (if text_eq (span is_space number.1).1 (codes "kB") then some (name.0, number.0) else none)

-- The units that `.` does not match.
unfoldable pub is_line_end : ℕ → Bool
is_line_end c = c == 10 || c == 13 || c == 0x2028 || c == 0x2029

unfoldable pub is_float_unit : ℕ → Bool
unfolding is_digit
is_float_unit c = is_digit c || c == b'.'

abbrev pub is_not_space : ℕ → Bool
is_not_space c = not (is_space c)

-- `/^\s*(\d+)\s+(\S+)\s+([\d.]+)\s+([\d.]+)\s+(.*)$/`: the five groups.
pub record PsGroups : Type 0 where
  pub pid : Text
  pub user : Text
  pub cpu : Text
  pub mem : Text
  pub args : Text

unfoldable pub ps_line : Text → Option PsGroups
unfolding some_run some_spaces is_digit is_float_unit is_line_end span is_space
ps_line line = do
  pid ← some_run is_digit (span is_space line).1
  user_text ← some_spaces pid.1
  user ← some_run is_not_space user_text
  cpu_text ← some_spaces user.1
  cpu ← some_run is_float_unit cpu_text
  mem_text ← some_spaces cpu.1
  mem ← some_run is_float_unit mem_text
  args ← some_spaces mem.1
  (if any is_line_end args
      then none
      else some (record { pid = pid.0; user = user.0; cpu = cpu.0; mem = mem.0; args = args }))

-- The maximal runs of `\w`, with empty texts between them.
unfoldable pub word_parts : Text → Parts
unfolding is_word
word_parts [] = parts [] []
word_parts (c ∷ s) =
    let rest = word_parts s in if is_word c then cons_part c rest else new_part rest

-- `/\b(a|b|…)\b/` of words: a maximal run of `\w` is one of them.
unfoldable pub has_word : List Text → Text → Bool
unfolding word_parts text_eq
has_word words s = any (λ run. any (text_eq run) words) (to_list (word_parts s))

-- What follows the first occurrence of a text.
unfoldable pub find_after : Text → Text → Option Text
unfolding starts_with
find_after p [] = if starts_with [] p then some [] else none
find_after p (c ∷ s) =
    let rest = find_after p s in
    if starts_with (c ∷ s) p then some (drop (length p) (c ∷ s)) else rest

abbrev ends_word : Text → Bool
ends_word [] = true
ends_word (c ∷ s) = not (is_word c)

-- `/p\b/` for a text `p` that ends in a word unit.
unfoldable pub has_ended : Text → Text → Bool
unfolding starts_with is_word
has_ended p [] = false
has_ended p (c ∷ s) = starts_with (c ∷ s) p && ends_word (drop (length p) (c ∷ s)) || has_ended p s

-- `/p(.*)/`: the rest of the line behind the first occurrence of `p`.
unfoldable pub line_after : Text → Text → Option Text
unfolding find_after span is_line_end
line_after p s = elim (find_after p s) [
  | none ↦ none
  | some t ↦ some (span (λ c. not (is_line_end c)) t).0
]

-- `path.replace(/\/+$/, '')`: the slashes at the end are dropped.
unfoldable pub strip_slashes : Text → Text
strip_slashes [] = []
strip_slashes (c ∷ s) = elim (strip_slashes s) [
  | [] ↦ if c == b'/' then [] else c ∷ []
  | d ∷ t ↦ c ∷ d ∷ t
]
