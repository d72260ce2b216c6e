-- ===== src/Core/Elevation/Commands.antt =====
-- What an elevated adapter sends: packages/core/src/privilege/elevation.ts over adapters/debian.ts.
use desk_ssh.Base.{ℕ, List, [], ◌∷◌, All, All-append}
use desk_ssh.Js.Text.{Text, codes}
use desk_ssh.Core.Shell.Lexer.{Token, word, tokens}
use desk_ssh.Core.Exec.{CommandExecutor, noting}
use desk_ssh.Core.Types.{Call}
use desk_ssh.Core.Elevation.{elevated_command, with_elevation}
use desk_ssh.Core.Debian.Adapter.{debian_adapter}
use desk_ssh.Core.Debian.Adapter.Words.{Reads, lex-quote_end}
use desk_ssh.Core.Debian.Adapter.Commands.{Allowed, debian_adapter-Keeps}

-- `sudo`, which reads the password from its input and shows no prompt, and one command for `sh -c`.
abbrev pub sudo_words : Text → List Token
sudo_words command =
    word (codes "sudo")
    ∷ word (codes "-S")
    ∷ word (codes "-p")
    ∷ word []
    ∷ word (codes "sh")
    ∷ word (codes "-c")
    ∷ word command
    ∷ []

pub elevated_command_tokens :
    (command : Text) → Reads (elevated_command command) (sudo_words command)
unfolding tokens elevated_command
elevated_command_tokens command = rw lex-quote_end

-- A command that the elevated adapter may send for a call.
abbrev pub IsElevated : (List ℕ → Text) → Call → Text → Type 0
IsElevated encode c sent = (cmd : Text) × (Allowed encode c cmd × Reads sent (sudo_words cmd))

-- For every call, every world and every answer of the host, a shell reads each command that an
-- elevated adapter sends as `sudo -S -p '' sh -c` with one word, which is a command that the plain
-- adapter may send for the call.
pub debian_adapter-IsElevated :
    {W : Type 0} (encode : List ℕ → Text) (decode : Text → List ℕ) (executor : CommandExecutor W)
    (password : Text) (c : Call) (w : W)
    → All
        (IsElevated encode c)
        (debian_adapter encode decode (with_elevation (noting executor) password) c ([], w)).1.0
debian_adapter-IsElevated encode decode executor password c w =
    debian_adapter-Keeps (λ s. All (IsElevated encode c) s.0) encode decode
      (with_elevation (noting executor) password) c
      (λ cmd allowed (sent, v) h.
        unfold noting with_elevation in
        All-append (IsElevated encode c) sent (elevated_command cmd ∷ []) h
          ((cmd, (allowed, elevated_command_tokens cmd)), tt))
      ([], w) tt
