-- ===== src/Core/Shell/Lexer.antt =====
-- How a POSIX shell cuts a command line into words and operators (IEEE 1003.1, section 2.3), as far
-- as no expansion takes place: text that a shell would expand, or leave unfinished, gives `none`.
use desk_ssh.Base.{
  ℕ, Bool, true, false, ◌||◌, List, [], ◌∷◌, ◌++◌, Option, none, some, ◌==◌, if◌then◌else◌,
}
use desk_ssh.Js.Text.{Text, is_word}

pub data Token : Type 0 where
  word : Text → Token
  operator : ℕ → Token

-- What a unit means outside quotes.
pub data Class : Type 0 where
  separator single_quote backslash control expansion literal : Class

-- The units that stand for themselves outside quotes.
is_literal : ℕ → Bool
unfolding is_word
is_literal c =
    is_word c
    || c == b'-'
    || c == b'/'
    || c == b'.'
    || c == b'%'
    || c == b','
    || c == b'='
    || c == b'+'
    || c == b':'
    || c == b'@'

unfoldable pub class_of : ℕ → Class
unfolding is_literal
class_of c =
    if c == b' ' || c == 9
    then separator
    else if c == b'\''
    then single_quote
    else if c == b'\\'
    then backslash
    else if c == b'|' || c == b'&' || c == b';' || c == b'<' || c == b'>' || c == 10
    then control
    else if is_literal c
    then literal
    else expansion

-- Between words, in a word, between single quotes in a word, behind a backslash in a word.
pub data Mode : Type 0 where
  between : Mode
  bare quoted escaped : Text → Mode

abbrev pub emit : Token → Option (List Token) → Option (List Token)
emit t none = none
emit t (some ts) = some (t ∷ ts)

unfoldable pub lex : Mode → Text → Option (List Token)
unfolding class_of
lex between [] = some []
lex (bare w) [] = some (word w ∷ [])
lex (quoted w) [] = none
lex (escaped w) [] = none
lex between (c ∷ s) = elim (class_of c) [
  | separator ↦ lex between s
  | single_quote ↦ lex (quoted []) s
  | backslash ↦ lex (escaped []) s
  | control ↦ emit (operator c) (lex between s)
  | expansion ↦ none
  | literal ↦ lex (bare (c ∷ [])) s
]
lex (bare w) (c ∷ s) = elim (class_of c) [
  | separator ↦ emit (word w) (lex between s)
  | single_quote ↦ lex (quoted w) s
  | backslash ↦ lex (escaped w) s
  | control ↦ emit (word w) (emit (operator c) (lex between s))
  | expansion ↦ none
  | literal ↦ lex (bare (w ++ c ∷ [])) s
]
lex (quoted w) (c ∷ s) = elim (c == b'\'') [
  | true ↦ lex (bare w) s
  | false ↦ lex (quoted (w ++ c ∷ [])) s
]
lex (escaped w) (c ∷ s) = elim (c == 10) [ true ↦ none | false ↦ lex (bare (w ++ c ∷ [])) s ]

-- A whole command line.
unfoldable pub tokens : Text → Option (List Token)
unfolding lex
tokens s = lex between s
