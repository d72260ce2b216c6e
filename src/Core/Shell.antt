-- ===== src/Core/Shell.antt =====
-- packages/core/src/adapters/shell.ts, and its copy in packages/web/src/features/desktop/apps/lib.ts.
-- `Lexer` describes how a POSIX shell reads a command line; `Safety` has the proofs.
pub mod Lexer
pub mod Safety
use desk_ssh.Base.{ℕ, List, [], ◌∷◌, ◌++◌, ◌==◌, if◌then◌else◌}
use desk_ssh.Js.Text.{Text, codes}

-- `arg.replace(/'/g, `'\\''`)`: each single quote becomes a quote, a backslash, and two quotes.
unfoldable pub replace_quotes : Text → Text
replace_quotes [] = []
replace_quotes (c ∷ s) = (if c == b'\'' then codes "'\\''" else c ∷ []) ++ replace_quotes s

unfoldable pub quote : Text → Text
unfolding replace_quotes
quote arg = codes "'" ++ (replace_quotes arg ++ codes "'")

-- The web's copy of `quote`.
unfoldable pub shell_quote : Text → Text
unfolding replace_quotes
shell_quote arg = codes "'" ++ (replace_quotes arg ++ codes "'")
