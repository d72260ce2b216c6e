-- ===== src/Core/Debian/Adapter/Words.antt =====
-- What a shell reads in the commands of the adapter (packages/core/src/adapters/debian.ts).
use desk_ssh.Base.{
  ℕ, List, [], ◌∷◌, ◌++◌, ◌≡◌, ◌≢◌, refl, arith, some, true, suc, append_assoc, append-nil,
}
use desk_ssh.Js.Text.{Text, codes}
use desk_ssh.Js.Number.{ℤ, pos, negsuc, show_int, show, is_digit_of}
use desk_ssh.Js.Number.Radix.{AllDigits, AllDigits-show, show-ne-nil}
use desk_ssh.Core.Shell.{quote}
use desk_ssh.Core.Shell.Lexer.{Token, word, operator, between, bare, lex, tokens, emit}
use desk_ssh.Core.Shell.Safety.{lex-quote}
use desk_ssh.Core.Types.{ProcessSignal, term, kill, hup, ServiceAction, start, stop, restart}
use desk_ssh.Core.Debian.Adapter.{
  list_dir_command, stat_command, read_file_command, write_file_command, make_dir_command,
  create_file_command, move_command, copy_command, remove_command, systemctl_command, show_command,
  find_printf, stat_printf, action_name, signal_command, signal_name,
}

-- A quoted argument at its end.
pub lex-quote_end : (a : Text) → lex between (quote a) ≡ some (word a ∷ [])
lex-quote_end a = rw (← append-nil (quote a), lex-quote a []) (unfold lex in refl)

-- A quoted argument with another word behind it.
lex-quote_space : (a s : Text) → lex between (quote a ++ b' ' ∷ s) ≡ emit (word a) (lex between s)
lex-quote_space a s = rw (lex-quote a (b' ' ∷ s)) (unfold lex in refl)

-- A shell reads the command as these tokens.
abbrev pub Reads : Text → List Token → Type 0
Reads command ts = tokens command ≡ some ts

pub list_dir_tokens :
    (path : Text)
    → Reads (list_dir_command path) (
        word (codes "find")
        ∷ word path
        ∷ word (codes "-maxdepth")
        ∷ word (codes "1")
        ∷ word (codes "-mindepth")
        ∷ word (codes "1")
        ∷ word (codes "-printf")
        ∷ word find_printf
        ∷ [])
unfolding tokens list_dir_command
list_dir_tokens path = rw lex-quote_space (rw lex-quote_end refl)

pub stat_tokens :
    (path : Text)
    → Reads
        (stat_command path)
        (word (codes "stat") ∷ word (codes "--printf") ∷ word stat_printf ∷ word path ∷ [])
unfolding tokens stat_command
stat_tokens path = rw (lex-quote_space, lex-quote_end)

pub write_file_tokens :
    (b64 path : Text)
    → Reads (write_file_command b64 path) (
        word (codes "printf")
        ∷ word (codes "%s")
        ∷ word b64
        ∷ operator b'|'
        ∷ word (codes "base64")
        ∷ word (codes "-d")
        ∷ operator b'>'
        ∷ word path
        ∷ [])
unfolding tokens write_file_command
write_file_tokens b64 path = rw (lex-quote_space, lex-quote_end)

module _ (path : Text) where
  pub read_file_tokens :
      Reads (read_file_command path) (word (codes "base64") ∷ word (codes "-w0") ∷ word path ∷ [])
  unfolding tokens read_file_command
  read_file_tokens = rw lex-quote_end

  pub make_dir_tokens :
      Reads (make_dir_command path) (word (codes "mkdir") ∷ word (codes "-p") ∷ word path ∷ [])
  unfolding tokens make_dir_command
  make_dir_tokens = rw lex-quote_end

  pub create_file_tokens : Reads (create_file_command path) (word (codes "touch") ∷ word path ∷ [])
  unfolding tokens create_file_command
  create_file_tokens = rw lex-quote_end

  pub remove_tokens :
      Reads (remove_command path) (word (codes "rm") ∷ word (codes "-rf") ∷ word path ∷ [])
  unfolding tokens remove_command
  remove_tokens = rw lex-quote_end

module _ (from to : Text) where
  pub move_tokens :
      Reads
        (move_command from to)
        (word (codes "mv") ∷ word (codes "-n") ∷ word from ∷ word to ∷ [])
  unfolding tokens move_command
  move_tokens = rw (lex-quote_space, lex-quote_end)

  pub copy_tokens :
      Reads
        (copy_command from to)
        (word (codes "cp") ∷ word (codes "-a") ∷ word (codes "-n") ∷ word from ∷ word to ∷ [])
  unfolding tokens copy_command
  copy_tokens = rw (lex-quote_space, lex-quote_end)

pub systemctl_tokens :
    (action : ServiceAction) (name : Text)
    → Reads
        (systemctl_command action name)
        (word (codes "systemctl") ∷ word (action_name action) ∷ word name ∷ [])
unfolding tokens systemctl_command
systemctl_tokens start name = rw lex-quote_end
systemctl_tokens stop name = rw lex-quote_end
systemctl_tokens restart name = rw lex-quote_end

pub show_tokens :
    (name : Text)
    → Reads (show_command name) (
        word (codes "systemctl")
        ∷ word (codes "show")
        ∷ word name
        ∷ word (codes "--property=ActiveState,UnitFileState,SubState")
        ∷ [])
unfolding tokens show_command
show_tokens name = rw lex-quote_space

lex_digit :
    (w : Text) (c : ℕ) (s : Text)
    → is_digit_of 10 c ≡ true
    → lex (bare w) (c ∷ s) ≡ lex (bare (w ++ c ∷ [])) s
unfolding lex is_digit_of
lex_digit w c s h = ground arith

lex_between_digit :
    (c : ℕ) (s : Text) → is_digit_of 10 c ≡ true → lex between (c ∷ s) ≡ lex (bare (c ∷ [])) s
unfolding lex is_digit_of
lex_between_digit c s h = ground arith

lex-bare_digits : (w s : Text) → AllDigits 10 s → lex (bare w) s ≡ some (word (w ++ s) ∷ [])
lex-bare_digits w [] h = rw append-nil (unfold lex in refl)
lex-bare_digits w (c ∷ s) (h, hs) =
    rw (lex_digit w c s h, lex-bare_digits (w ++ c ∷ []) s hs, append_assoc w (c ∷ []) s)

lex-between_digits : (s : Text) → s ≢ [] → AllDigits 10 s → lex between s ≡ some (word s ∷ [])
lex-between_digits [] h d = absurd (h refl)
lex-between_digits (c ∷ s) h (d, ds) = rw (lex_between_digit c s d) (lex-bare_digits (c ∷ []) s ds)

lex-show_int : (pid : ℤ) → lex between (show_int pid) ≡ some (word (show_int pid) ∷ [])
unfolding show_int
lex-show_int (pos n) = lex-between_digits (show n) (show-ne-nil n) (AllDigits-show n)
lex-show_int (negsuc n) =
    unfold lex in lex-bare_digits (b'-' ∷ []) (show (suc n)) (AllDigits-show (suc n))

pub signal_tokens :
    (pid : ℤ) (signal : ProcessSignal)
    → Reads (signal_command pid signal) (
        word (codes "kill")
        ∷ word (codes "-s")
        ∷ word (signal_name signal)
        ∷ word (show_int pid)
        ∷ [])
unfolding tokens signal_command
signal_tokens pid term = rw lex-show_int
signal_tokens pid kill = rw lex-show_int
signal_tokens pid hup = rw lex-show_int
