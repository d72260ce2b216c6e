-- ===== src/Core/Shell/Safety.antt =====
-- A quoted argument is one word to the shell, whatever it holds.
use desk_ssh.Base.{[], ◌∷◌, ◌++◌, some, ◌≡◌, arith, append_assoc, append-nil}
use desk_ssh.Js.Text.{Text}
use desk_ssh.Core.Shell.{replace_quotes, quote}
use desk_ssh.Core.Shell.Lexer.{word, between, bare, quoted, lex, tokens}

lex-replace_quotes :
    (w a rest : Text)
    → lex (quoted w) (replace_quotes a ++ (b'\'' ∷ rest)) ≡ lex (bare (w ++ a)) rest
unfolding lex replace_quotes
lex-replace_quotes w [] rest = rw append-nil
lex-replace_quotes w (c ∷ a) rest = ground (
  arith,
  lex-replace_quotes (w ++ c ∷ []) a rest,
  lex-replace_quotes (w ++ b'\'' ∷ []) a rest,
  append_assoc w (c ∷ []) a,
)

-- Behind a quoted argument the shell is inside a word that holds exactly the argument.
pub lex-quote : (a rest : Text) → lex between (quote a ++ rest) ≡ lex (bare a) rest
unfolding quote lex
lex-quote a rest =
    rw (append_assoc (replace_quotes a) (b'\'' ∷ []) rest) (lex-replace_quotes [] a rest)

-- A quoted argument is read as one word, the argument itself, whatever text it is: it can hold
-- quotes, operators or line ends without leaving its word.
pub tokens-quote : (a : Text) → tokens (quote a) ≡ some (word a ∷ [])
unfolding tokens lex
tokens-quote a = rw (← append-nil (quote a)) (lex-quote a [])
