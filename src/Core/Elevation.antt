-- ===== src/Core/Elevation.antt =====
-- packages/core/src/privilege/elevation.ts: privilege errors, `sudo`, and what the user may do.
pub mod Detection
pub mod Commands
use desk_ssh.Base.{ℕ, List, [], ◌∷◌, ◌++◌, Bool, ◌&&◌, ◌||◌, Option, none, some, or_else, any, keep}
use desk_ssh.Js.Text.{Text, codes, text_eq, includes, fold_case, trim, non_empty}
use desk_ssh.Js.Regex.{has_word, has_ended, line_after, split_spaces}
use desk_ssh.Core.Shell.{quote}
use desk_ssh.Core.Exec.{
  Outcome, done, threw, Action, pure, after, ◌>>=◌, ExecResult, CommandExecutor,
}

-- The alternatives of `PERMISSION_RE`.
abbrev pub permission_phrases : List Text
permission_phrases =
    codes "permission denied"
    ∷ codes "operation not permitted"
    ∷ codes "must be root"
    ∷ codes "authentication is required"
    ∷ codes "access denied"
    ∷ codes "not in the sudoers"
    ∷ codes "are not allowed to"
    ∷ codes "you must have"
    ∷ codes "insufficient privileg"
    ∷ codes "not permitted"
    ∷ []

unfoldable pub is_permission_denied : Text → Bool
unfolding includes fold_case
is_permission_denied text = any (includes (fold_case text)) permission_phrases

unfoldable pub elevated_command : Text → Text
elevated_command command = codes "sudo -S -p '' sh -c " ++ quote command

-- The input that the caller gives is not passed on: `exec` takes the command alone.
unfoldable pub with_elevation : {W : Type 0} → CommandExecutor W → Text → CommandExecutor W
unfolding elevated_command
with_elevation executor password command input =
    executor (elevated_command command) (some (password ++ codes "\n"))

pub record PrivilegeInfo : Type 0 where
  pub is_root : Bool
  pub can_sudo : Bool
  pub escalation_available : Bool

abbrev pub sudo_groups : List Text
sudo_groups = codes "sudo" ∷ codes "wheel" ∷ codes "admin" ∷ codes "root" ∷ []

abbrev pub probe_command : Text
probe_command =
    codes "echo \"UID=$(id -u)\"; echo \"GROUPS=$(id -nG 2>/dev/null)\"; "
    ++ codes "command -v sudo >/dev/null 2>&1 && echo HAVE_SUDO; "
    ++ codes "command -v su >/dev/null 2>&1 && echo HAVE_SU"

unfoldable pub groups_of : Text → List Text
unfolding line_after split_spaces trim
groups_of stdout =
    keep non_empty (split_spaces (trim (or_else (line_after (codes "GROUPS=") stdout) [])))

abbrev pub is_sudo_group : Text → Bool
is_sudo_group g = any (text_eq g) sudo_groups

unfoldable pub privilege_of : Text → PrivilegeInfo
unfolding has_ended has_word groups_of text_eq
privilege_of stdout =
    let is_root = has_ended (codes "UID=0") stdout in
    let have_sudo = has_word (codes "HAVE_SUDO" ∷ []) stdout in
    let have_su = has_word (codes "HAVE_SU" ∷ []) stdout in
    record {
      is_root = is_root;
      can_sudo = is_root || have_sudo && any is_sudo_group (groups_of stdout);
      escalation_available = have_sudo || have_su;
    }

unfoldable pub detect_privilege : {W : Type 0} → CommandExecutor W → Action W PrivilegeInfo
unfolding privilege_of
detect_privilege executor = do r ← executor probe_command none; pure (privilege_of r.stdout)
