-- ===== src/Core/Debian/Adapter.antt =====
-- packages/core/src/adapters/debian.ts: the commands of the adapter and the class `DebianAdapter`.
-- `Buffer`'s base64 is a parameter: `encode` of bytes, and `decode` of text.
pub mod Words
pub mod Commands
pub mod Reading
use desk_ssh.Base.{ℕ, zero, suc, List, [], ◌∷◌, ◌++◌, Option, none, some}
use desk_ssh.Js.Text.{Text, codes, trim, text_or}
use desk_ssh.Js.Number.{ℤ, show_int}
use desk_ssh.Core.Shell.{quote}
use desk_ssh.Core.Exec.{Outcome, done, Action, pure, after, ◌>>=◌, ExecResult, CommandExecutor}
use desk_ssh.Core.Result.{CapabilityResult, ok, failed, unsupported, run_parsed}
use desk_ssh.Core.Types.{
  ProcessSignal, term, kill, hup, ServiceAction, start, stop, restart, ServiceState, Call, list_dir,
  stat, read_file, write_file, make_dir, create_file, move, copy, remove, system_metrics,
  system_info, list_processes, signal_process, service_action, list_services,
}
use desk_ssh.Core.Capabilities.{Capabilities}
use desk_ssh.Core.Debian.Files.{parse_list_dir, parse_stat}
use desk_ssh.Core.Debian.Sections.{parse_system_metrics, parse_system_info}
use desk_ssh.Core.Debian.Processes.{parse_processes}
use desk_ssh.Core.Debian.Services.{parse_service_state}

-- `String.raw`: the backslashes are in the text.
abbrev pub find_printf : Text
find_printf = codes "%y\\t%s\\t%m\\t%u\\t%g\\t%T@\\t%f\\n"

abbrev pub stat_printf : Text
stat_printf = codes "%F\\t%s\\t%a\\t%U\\t%G\\t%Y\\t%n"

abbrev pub metrics_command : Text
metrics_command =
    codes "echo ===UPTIME===; cat /proc/uptime; echo ===LOAD===; cat /proc/loadavg; "
    ++ codes "echo ===MEM===; cat /proc/meminfo"

abbrev pub ps_command : Text
ps_command = codes "ps -eo pid=,user=,pcpu=,pmem=,args="

abbrev pub sysinfo_command : Text
sysinfo_command =
    codes "echo ===HOST===; hostname; "
    ++ codes "echo ===OS===; . /etc/os-release 2>/dev/null; echo \"$PRETTY_NAME\"; "
    ++ codes "echo ===KERNEL===; uname -r; echo ===UPTIME===; cat /proc/uptime; "
    ++ codes "echo ===PKGS===; dpkg --list 2>/dev/null | grep -c \"^ii\"; "
    ++ codes "echo ===SHELL===; echo \"${SHELL##*/}\"; "
    ++ codes "echo ===CPU===; grep -m1 \"model name\" /proc/cpuinfo | cut -d: -f2; "
    ++ codes "grep -c \"^processor\" /proc/cpuinfo; "
    ++ codes "echo ===MEM===; grep -E \"MemTotal|MemAvailable\" /proc/meminfo; "
    ++ codes "echo ===DISK===; df -P / | tail -1; echo ===IP===; hostname -I 2>/dev/null"

unfoldable pub list_dir_command : Text → Text
list_dir_command path =
    codes "find "
    ++ (quote path ++ (codes " -maxdepth 1 -mindepth 1 -printf " ++ quote find_printf))

unfoldable pub stat_command : Text → Text
stat_command path = codes "stat --printf " ++ (quote stat_printf ++ (codes " " ++ quote path))

unfoldable pub read_file_command : Text → Text
read_file_command path = codes "base64 -w0 " ++ quote path

unfoldable pub write_file_command : Text → Text → Text
write_file_command b64 path =
    codes "printf %s " ++ (quote b64 ++ (codes " | base64 -d > " ++ quote path))

unfoldable pub make_dir_command : Text → Text
make_dir_command path = codes "mkdir -p " ++ quote path

unfoldable pub create_file_command : Text → Text
create_file_command path = codes "touch " ++ quote path

unfoldable pub move_command : Text → Text → Text
move_command from to = codes "mv -n " ++ (quote from ++ (codes " " ++ quote to))

unfoldable pub copy_command : Text → Text → Text
copy_command from to = codes "cp -a -n " ++ (quote from ++ (codes " " ++ quote to))

unfoldable pub remove_command : Text → Text
remove_command path = codes "rm -rf " ++ quote path

abbrev pub signal_name : ProcessSignal → Text
signal_name term = codes "TERM"
signal_name kill = codes "KILL"
signal_name hup = codes "HUP"

-- `Math.trunc` leaves an integer as it is.
unfoldable pub signal_command : ℤ → ProcessSignal → Text
unfolding show_int
signal_command pid signal = codes "kill -s " ++ (signal_name signal ++ (codes " " ++ show_int pid))

abbrev pub action_name : ServiceAction → Text
action_name start = codes "start"
action_name stop = codes "stop"
action_name restart = codes "restart"

unfoldable pub systemctl_command : ServiceAction → Text → Text
systemctl_command action name =
    codes "systemctl " ++ (action_name action ++ (codes " " ++ quote name))

unfoldable pub show_command : Text → Text
show_command name =
    codes "systemctl show "
    ++ (quote name ++ codes " --property=ActiveState,UnitFileState,SubState")

-- What `runVoid` returns for a finished command.
unfoldable pub void_result : ExecResult → CapabilityResult Unit
unfolding trim
void_result r = elim r.exit_code [
  | none ↦
      failed (text_or r.stderr r.stdout) none (text_or (trim r.stderr) (codes "command failed"))
  | some zero ↦ ok tt r.stdout
  | some (suc n) ↦
      failed (text_or r.stderr r.stdout) (some (suc n))
        (text_or (trim r.stderr) (codes "command failed"))
]

unfoldable pub run_void : {W : Type 0} → CommandExecutor W → Text → Action W (CapabilityResult Unit)
unfolding void_result
run_void exec command = do r ← exec command none; pure (void_result r)

-- The reason of a failed `systemctl`.
unfoldable pub service_failed : ServiceAction → ExecResult → Text
unfolding trim
service_failed action r =
    text_or (trim r.stderr) (codes "service " ++ (action_name action ++ codes " failed"))

-- What `serviceAction` does when `systemctl` has finished.
unfoldable pub after_systemctl :
    {W : Type 0}
    → CommandExecutor W
    → Text
    → ServiceAction
    → ExecResult
    → Option ℕ
    → Action W (CapabilityResult ServiceState)
unfolding run_parsed service_failed
after_systemctl exec name action act none =
    pure (failed (text_or act.stderr act.stdout) none (service_failed action act))
after_systemctl exec name action act (some zero) =
    run_parsed exec (show_command name) (parse_service_state name)
after_systemctl exec name action act (some (suc n)) =
    pure (failed (text_or act.stderr act.stdout) (some (suc n)) (service_failed action act))

unfoldable pub run_service :
    {W : Type 0}
    → CommandExecutor W
    → Text
    → ServiceAction
    → Action W (CapabilityResult ServiceState)
unfolding after_systemctl
run_service exec name action = do
  act ← exec (systemctl_command action name) none
  after_systemctl exec name action act act.exit_code

-- The parser of `readFile`.
unfoldable pub parse_base64 : (Text → List ℕ) → Text → Outcome (List ℕ)
unfolding trim
parse_base64 decode b64 = done (decode (trim b64))

module _ (encode : List ℕ → Text) (decode : Text → List ℕ) {W : Type 0} where
  -- `new DebianAdapter(exec)`.
  unfoldable pub debian_adapter : CommandExecutor W → Capabilities W
  unfolding run_parsed run_void run_service parse_base64
  debian_adapter exec (list_dir path) = run_parsed exec (list_dir_command path) parse_list_dir
  debian_adapter exec (stat path) = run_parsed exec (stat_command path) parse_stat
  debian_adapter exec (read_file path) =
      run_parsed exec (read_file_command path) (parse_base64 decode)
  debian_adapter exec (write_file path contents) =
      run_void exec (write_file_command (encode contents) path)
  debian_adapter exec (make_dir path) = run_void exec (make_dir_command path)
  debian_adapter exec (create_file path) = run_void exec (create_file_command path)
  debian_adapter exec (move from to) = run_void exec (move_command from to)
  debian_adapter exec (copy from to) = run_void exec (copy_command from to)
  debian_adapter exec (remove path) = run_void exec (remove_command path)
  debian_adapter exec system_metrics = run_parsed exec metrics_command parse_system_metrics
  debian_adapter exec system_info = run_parsed exec sysinfo_command parse_system_info
  debian_adapter exec list_processes = run_parsed exec ps_command parse_processes
  debian_adapter exec (signal_process pid signal) = run_void exec (signal_command pid signal)
  debian_adapter exec (service_action name action) = run_service exec name action
  debian_adapter exec list_services =
      pure (unsupported (codes "listServices is a post-v1 capability"))
