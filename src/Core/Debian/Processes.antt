-- ===== src/Core/Debian/Processes.antt =====
-- packages/core/src/adapters/debian.ts: the parser of `ps -eo pid=,user=,pcpu=,pmem=,args=`.
pub mod Columns
pub mod Output
use desk_ssh.Base.{List, ◌++◌, none, some, or_else, keep, Bool}
use desk_ssh.Js.Text.{Text, codes, split, trim, non_empty}
use desk_ssh.Js.Number.{pos, parse_int, parse_float, num_or_zero}
use desk_ssh.Js.Regex.{ps_line}
use desk_ssh.Core.Exec.{Outcome, done, threw}
use desk_ssh.Core.Types.{Process}
use desk_ssh.Core.Debian.Files.{newline, map_parse}

unfoldable pub parse_process_line : Text → Outcome Process
unfolding ps_line parse_int parse_float num_or_zero
parse_process_line line = elim (ps_line line) [
  | none ↦ threw (codes "Unexpected ps output: " ++ line)
  | some g ↦ done (record {
    pid = or_else (parse_int 10 g.pid) (pos 0);
    user = g.user;
    cpu = num_or_zero (parse_float g.cpu);
    mem = num_or_zero (parse_float g.mem);
    command = g.args;
  })
]

abbrev pub is_not_blank : Text → Bool
is_not_blank line = non_empty (trim line)

unfoldable pub parse_processes : Text → Outcome (List Process)
unfolding parse_process_line map_parse split trim
parse_processes stdout = map_parse parse_process_line (keep is_not_blank (split newline stdout))
