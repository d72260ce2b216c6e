-- ===== src/Server/Opener/Entry.antt =====
-- packages/server/src/opener.ts: the session entry that is built once the connection is open.
use desk_ssh.Base.{ℕ, List, [], none, or_else, refl}
use desk_ssh.Js.Text.{Text, codes, trim, text_or}
use desk_ssh.Core.Exec.{Action, pure, ◌>>=◌, CommandExecutor, noting, Keeps, Keeps-bind}
use desk_ssh.Core.Capabilities.{Capabilities}
use desk_ssh.Core.Os.{detect_os}
use desk_ssh.Core.Registry.{select_adapter}
use desk_ssh.Core.Log.{TransparencyLog, new_log, with_transparency}
use desk_ssh.Core.Log.Numbering.{new_log-IsNumbered}
use desk_ssh.Core.Audit.{IsAudited, logged-Keeps}
use desk_ssh.Server.Manager.{NewEntry}
use desk_ssh.Server.Opener.{ConnectRequest}

-- What an entry holds of its connection.
pub record Opened (W : Type 0) : Type 0 where
  pub adapter : Capabilities (TransparencyLog × W)
  pub executor : CommandExecutor (TransparencyLog × W)

abbrev pub home_command : Text
home_command = codes "echo \"$HOME\""

module _ {W : Type 0} (encode : List ℕ → Text) (decode : Text → List ℕ) (now : W → ℕ) where
  -- The entry, given the executor of the open session and its label; the log starts empty.
  unfoldable pub open_entry :
      CommandExecutor W → Text → ConnectRequest → Action (TransparencyLog × W) (NewEntry (Opened W))
  unfolding with_transparency detect_os select_adapter trim
  open_entry session label req = do
    os ← detect_os (with_transparency now session label)
    answer ← with_transparency now session label home_command none
    pure (record {
      host = label;
      home = text_or (trim answer.stdout) (codes "/");
      os = os;
      endpoint = record { host = req.host; port = or_else req.port 22 };
      connection = record {
        adapter = select_adapter encode decode os (with_transparency now session label);
        executor = with_transparency now session label;
      };
    })

detect_os-Keeps :
    {W : Type 0} (P : W → Type 0) (executor : CommandExecutor W)
    → ((cmd : Text) → Keeps P (executor cmd none))
    → Keeps P (detect_os executor)
unfolding detect_os
detect_os-Keeps P executor h =
    Keeps-bind P (executor (codes "cat /etc/os-release 2>/dev/null") none) _ (h _) (λ release.
      Keeps-bind P (executor (codes "uname -s 2>/dev/null") none) _ (h _) (λ uname w p. p))

-- While an entry is built, every command that is sent to the host is recorded as it was sent and in
-- the same order, also if the host throws and no entry comes of it.
pub open_entry-IsAudited :
    {W : Type 0} (encode : List ℕ → Text) (decode : Text → List ℕ) (now : List Text × W → ℕ)
    (session : CommandExecutor W) (label : Text) (req : ConnectRequest) (w : W)
    → IsAudited (open_entry encode decode now (noting session) label req (new_log, ([], w))).1
unfolding open_entry
open_entry-IsAudited encode decode now session label req w =
    Keeps-bind IsAudited (detect_os (with_transparency now (noting session) label)) _
      (detect_os-Keeps IsAudited (with_transparency now (noting session) label)
        (λ cmd. logged-Keeps now session label cmd none))
      (λ os.
        Keeps-bind IsAudited (with_transparency now (noting session) label home_command none) _
          (logged-Keeps now session label home_command none) (λ answer s p. p))
      (new_log, ([], w)) (new_log-IsNumbered, refl)
