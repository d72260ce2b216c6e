-- ===== src/Core/Debian/Adapter/Reading.antt =====
-- From the host's answer to the value of a call: packages/core/src/adapters/debian.ts.
use desk_ssh.Base.{ℕ, List, map, ◌≡◌, some, none, All}
use desk_ssh.Js.Text.{Text}
use desk_ssh.Core.Exec.{done, CommandExecutor}
use desk_ssh.Core.Types.{list_processes, system_metrics}
use desk_ssh.Js.Text.Split.{ended}
use desk_ssh.Core.Result.{ok, Parser, read_result, run_parsed, parsed}
use desk_ssh.Core.Debian.Files.{newline}
use desk_ssh.Core.Debian.Processes.{parse_processes}
use desk_ssh.Core.Debian.Processes.Output.{
  Listed, IsListed, ps_text, process_of, parse_processes-ps_output,
}
use desk_ssh.Core.Debian.Sections.{parse_system_metrics}
use desk_ssh.Core.Debian.Sections.Report.{Report, IsReport, metrics_output, metrics_read}
use desk_ssh.Core.Debian.Sections.Metrics.{parse_system_metrics-metrics_output}
use desk_ssh.Core.Debian.Files.Found.{Found}
use desk_ssh.Core.Debian.Adapter.{ps_command, metrics_command, debian_adapter}

-- A command that exits with zero and whose output the parser reads is reported with its value.
run_parsed_ok :
    {W A : Type 0} (executor : CommandExecutor W) (command : Text) (parser : Parser A) (w w' : W)
    (stdout stderr : Text) (a : A)
    → executor command none w
      ≡ (done (record { stdout = stdout; stderr = stderr; exit_code = some 0 }), w')
    → parser stdout ≡ done a
    → run_parsed executor command parser w ≡ (done (ok a stdout), w')
unfolding run_parsed read_result parsed
run_parsed_ok executor command parser w w' stdout stderr a e p = rw (e, p)

-- If `ps` exits with zero and prints its processes, each on a line with columns of any width, whose
-- users' names hold no space, whose loads are digits and points, and whose command lines begin with
-- no space and hold no line end, then `listProcesses` returns exactly these processes, in order.
pub list_processes_listed :
    {W : Type 0} (encode : List ℕ → Text) (decode : Text → List ℕ) (executor : CommandExecutor W)
    (stderr : Text) (ps : List Listed) (w w' : W)
    → All IsListed ps
    → executor ps_command none w ≡ (
      done
          (record { stdout = ended newline (map ps_text ps); stderr = stderr; exit_code = some 0 }),
      w',
    )
    → debian_adapter encode decode executor list_processes w
      ≡ (done (ok (map process_of ps) (ended newline (map ps_text ps))), w')
unfolding debian_adapter
list_processes_listed encode decode executor stderr ps w w' h e =
    run_parsed_ok executor ps_command parse_processes w w' (ended newline (map ps_text ps)) stderr
      (map process_of ps) e (parse_processes-ps_output ps h)

-- If the metrics command exits with zero and prints a report whose uptime and loads are digits and
-- points, whose further words hold no space, and whose memory lines are amounts under a name of
-- letters, digits and `_` or lines that are neither an amount nor a marker, then `systemMetrics`
-- returns the uptime rounded, the three loads, and from the amounts in bytes of the last lines of
-- that name, or zero, the memory's total, what is available and, if it is not negative, the
-- difference.
pub system_metrics_reported :
    {W : Type 0} (encode : List ℕ → Text) (decode : Text → List ℕ) (executor : CommandExecutor W)
    (stderr : Text) (r : Report) (w w' : W)
    → IsReport r
    → executor metrics_command none w
      ≡ (done (record { stdout = metrics_output r; stderr = stderr; exit_code = some 0 }), w')
    → debian_adapter encode decode executor system_metrics w
      ≡ (done (ok (metrics_read r) (metrics_output r)), w')
unfolding debian_adapter
system_metrics_reported encode decode executor stderr r w w' h e =
    run_parsed_ok executor metrics_command parse_system_metrics w w' (metrics_output r) stderr
      (metrics_read r) e (parse_system_metrics-metrics_output r h)
