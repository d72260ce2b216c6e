-- ===== src/Tests/Core.antt =====
-- Concrete inputs for packages/core.
use desk_ssh.Base.{false, ℕ, List, [], ◌∷◌, none, some, true, ◌≡◌, refl, ◌+◌, All, map}
use desk_ssh.Js.Text.{
  Text, codes, is_space, is_digit, fold_case, fold_unit, includes, starts_with, is_word, trim,
  trim_start, trim_end, text_eq, span,
}
use desk_ssh.Js.Text.Split.{Lacks-of_test, ended}
use desk_ssh.Core.Shell.{quote}
use desk_ssh.Core.Shell.Lexer.{word, tokens}
use desk_ssh.Core.Shell.Safety.{tokens-quote}
use desk_ssh.Core.Exec.{done, CommandExecutor, noting}
use desk_ssh.Core.Types.{service_action, restart, remove, list_processes, system_metrics}
use desk_ssh.Core.Result.{ok}
use desk_ssh.Core.Debian.Adapter.{debian_adapter}
use desk_ssh.Core.Debian.Adapter.Commands.{Allowed, debian_adapter-Allowed}
use desk_ssh.Core.Debian.Adapter.Reading.{list_processes_listed, system_metrics_reported}
use desk_ssh.Core.Debian.Sections.Report.{Report, IsReport, metrics_output, metrics_read}
use desk_ssh.Core.Debian.Sections.Meminfo.{amount, other, IsMemLine}
use desk_ssh.Core.Debian.Sections.Words.{IsWord-of_test}
use desk_ssh.Core.Debian.Processes.Columns.{IsRun-of_test}
use desk_ssh.Core.Debian.Processes.Output.{Listed, IsListed, ps_text, process_of}
use desk_ssh.Js.Number.{ratio, value}
use desk_ssh.Js.Regex.{is_float_unit, is_line_end, kb_line, marker, some_run, some_spaces}
use desk_ssh.Core.Debian.Files.{newline}
use desk_ssh.Core.Debian.Files.Found.{Found, nearest_ms, regular, find_output, entry_of}
use desk_ssh.Core.Elevation.{with_elevation, is_permission_denied}
use desk_ssh.Core.Elevation.Commands.{IsElevated, debian_adapter-IsElevated}
use desk_ssh.Core.Os.{OsInfo, debian}
use desk_ssh.Core.Registry.{select_adapter}
use desk_ssh.Core.Log.{new_log, with_transparency}
use desk_ssh.Core.Log.Numbering.{new_log-IsNumbered}
use desk_ssh.Core.Audit.{IsAudited, session_executor, select_adapter-IsAudited, elevated_call_same}

-- A host that answers each command with its own text, and counts the commands.
abbrev echoing : CommandExecutor ℕ
echoing command input n =
    (done (record { stdout = command; stderr = []; exit_code = some 0 }), n + 1)

abbrev same_bytes : List ℕ → Text
same_bytes bytes = bytes

-- A path that tries to leave its argument.
abbrev hostile : Text
hostile = codes "a'; rm -rf / #"

abbrev debian_os : OsInfo
debian_os = record {
  family = debian;
  id = some (codes "debian");
  id_like = none;
  kernel = some (codes "Linux");
  pretty_name = none;
}

tokens-quote_example : tokens (quote hostile) ≡ some (word hostile ∷ [])
tokens-quote_example = tokens-quote hostile

debian_adapter-Allowed_example :
    All
      (Allowed same_bytes (service_action hostile restart))
      (debian_adapter same_bytes same_bytes
        (noting echoing)
        (service_action hostile restart)
        ([], 0)).1.0
debian_adapter-Allowed_example =
    debian_adapter-Allowed same_bytes same_bytes echoing (service_action hostile restart) 0

debian_adapter-IsElevated_example :
    All
      (IsElevated same_bytes (remove hostile))
      (debian_adapter same_bytes same_bytes
        (with_elevation (noting echoing) (codes "pw"))
        (remove hostile)
        ([], 0)).1.0
debian_adapter-IsElevated_example =
    debian_adapter-IsElevated same_bytes same_bytes echoing (codes "pw") (remove hostile) 0

abbrev clock : List Text × ℕ → ℕ
clock w = w.1

select_adapter-IsAudited_example :
    IsAudited
      (select_adapter same_bytes same_bytes debian_os
        (session_executor
          (with_transparency clock (noting echoing) (codes "h"))
          (some (codes "pw")))
        (service_action hostile restart)
        (new_log, ([], 0))).1
select_adapter-IsAudited_example =
    select_adapter-IsAudited clock echoing (codes "h") same_bytes same_bytes debian_os
      (some (codes "pw")) (service_action hostile restart) (new_log, ([], 0))
      (new_log-IsNumbered, refl)

elevated_call_same_example :
    select_adapter same_bytes same_bytes debian_os
      (with_elevation (with_transparency (λ n. n) echoing (codes "h")) (codes "pw"))
      (remove hostile)
      (new_log, 0)
    ≡ select_adapter same_bytes same_bytes debian_os
        (with_elevation (with_transparency (λ n. n) echoing (codes "h")) (codes "secret"))
        (remove hostile)
        (new_log, 0)
elevated_call_same_example =
    elevated_call_same (λ n. n) echoing (codes "h") (codes "pw") (codes "secret") (λ cmd w. refl)
      same_bytes same_bytes debian_os (remove hostile) (new_log, 0)

-- A file whose name holds a tab.
abbrev found : Found
found = record {
  kind = regular;
  size = 12;
  mode = 420;
  owner = codes "root";
  group = codes "adm";
  before = false;
  seconds = 1700000000;
  digits = codes "5005000000";
  name = codes "a\tb c";
}

permission_run : is_permission_denied (codes "mkdir: Permission Denied") ≡ true
unfolding is_permission_denied includes starts_with fold_case fold_unit
permission_run = refl

-- Half a millisecond is rounded up, towards later times.
found_run : (entry_of found).mtime ≡ ratio false 1700000000501 1
unfolding entry_of nearest_ms value
found_run = refl

-- A host on which `find` prints the one entry.
abbrev listing : CommandExecutor ℕ
listing command input n =
    (done (record { stdout = find_output (found ∷ []); stderr = []; exit_code = some 0 }), n + 1)

abbrev listed : Listed
listed = record {
  indent = 6;
  pid = 1;
  user_pad = 0;
  user = codes "root";
  cpu_pad = 4;
  cpu = codes "0.0";
  mem_pad = 2;
  mem = codes "0.1";
  args = codes "/sbin/init splash";
}

listed-IsListed : IsListed listed
unfolding is_float_unit is_digit is_line_end is_space
listed-IsListed = record {
  user_run = record { some_unit = λ e. cc; units = (refl, (refl, (refl, (refl, tt)))) };
  cpu_run = record { some_unit = λ e. cc; units = (refl, (refl, (refl, tt))) };
  mem_run = record { some_unit = λ e. cc; units = (refl, (refl, (refl, tt))) };
  args_first = refl;
  args_line = refl;
}

-- A host that lists one process.
abbrev process_host : CommandExecutor ℕ
process_host command input n = (
  done (record {
    stdout = ended newline (map ps_text (listed ∷ []));
    stderr = [];
    exit_code = some 0;
  }),
  n + 1,
)

list_processes_listed_example :
    debian_adapter same_bytes same_bytes process_host list_processes 0
    ≡ (done (ok (map process_of (listed ∷ [])) (ended newline (map ps_text (listed ∷ [])))), 1)
list_processes_listed_example =
    list_processes_listed same_bytes same_bytes process_host [] (listed ∷ []) 0 1
      (listed-IsListed, tt) refl

-- What a host of one gibibyte says, with a line that names no amount.
abbrev report : Report
report = record {
  uptime = codes "81234.56";
  idle = codes "160000.00" ∷ [];
  one = codes "0.52";
  five = codes "0.58";
  fifteen = codes "0.59";
  more = codes "1/389" ∷ codes "4211" ∷ [];
  memory =
      amount (codes "MemTotal") 7 1048576
      ∷ amount (codes "MemAvailable") 4 524288
      ∷ other (codes "HugePages_Total:       0")
      ∷ [];
}

report-IsReport : IsReport report
unfolding is_float_unit is_digit is_word is_space IsMemLine kb_line marker trim trim_start trim_end
    starts_with text_eq span some_run some_spaces
report-IsReport = record {
  uptime_run = IsRun-of_test is_float_unit _ _ refl;
  idle_words = (IsWord-of_test (codes "160000.00") refl, tt);
  one_run = IsRun-of_test is_float_unit _ _ refl;
  five_run = IsRun-of_test is_float_unit _ _ refl;
  fifteen_run = IsRun-of_test is_float_unit _ _ refl;
  more_words = (IsWord-of_test (codes "1/389") refl, (IsWord-of_test (codes "4211") refl, tt));
  memory_lines = (
    IsRun-of_test is_word _ _ refl,
    (
      IsRun-of_test is_word _ _ refl,
      ((refl, (refl, Lacks-of_test newline (codes "HugePages_Total:       0") refl)), tt),
    ),
  );
}

-- A host that prints the report.
abbrev metrics_host : CommandExecutor ℕ
metrics_host command input n =
    (done (record { stdout = metrics_output report; stderr = []; exit_code = some 0 }), n + 1)

system_metrics_reported_example :
    debian_adapter same_bytes same_bytes metrics_host system_metrics 0
    ≡ (done (ok (metrics_read report) (metrics_output report)), 1)
system_metrics_reported_example =
    system_metrics_reported same_bytes same_bytes metrics_host [] report 0 1 report-IsReport refl
