-- ===== src/Core/Debian/Processes/Output.antt =====
-- What `ps -eo pid=,user=,pcpu=,pmem=,args=` prints, and that `parseProcesses` reads it back.
use desk_ssh.Base.{
  ℕ, zero, true, false, List, [], ◌∷◌, ◌++◌, map, ◌≡◌, refl, ◌∙◌, arith, All, All-append, keep, ap,
  none, some, any, Option, or_else, if◌then◌else◌,
}
use desk_ssh.Js.Text.{Text, span, is_space, is_digit, codes}
use desk_ssh.Js.Text.Split.{Lacks, split-ended, ended}
use desk_ssh.Js.Number.{pos, show, parse_int, parse_float, num_or_zero}
use desk_ssh.Js.Regex.{
  some_run, some_spaces, ps_line, PsGroups, is_float_unit, is_line_end, is_not_space, ◌>>=◌,
}
use desk_ssh.Core.Exec.{Outcome, done, threw}
use desk_ssh.Core.Types.{Process}
use desk_ssh.Core.Debian.Files.{map_parse, newline}
use desk_ssh.Core.Debian.Processes.{parse_process_line, parse_processes, is_not_blank}
use desk_ssh.Core.Debian.Processes.Columns.{
  spaces, column, IsRun, NoSpaceFirst, span-spaces, NoSpaceFirst-run, some_spaces-gap,
  some_run-column, digit_not_space, float_not_space, not_space, show-IsRun, bind, parse_int-show,
  spaces-Lacks, IsRun-Lacks, Lacks-of_line, column-Lacks, is_not_blank-spaces, blank_end,
}

-- What `ps` knows of a process, and how far it moves each column. The loads are texts.
pub record Listed : Type 0 where
  pub indent : ℕ
  pub pid : ℕ
  pub user_pad : ℕ
  pub user : Text
  pub cpu_pad : ℕ
  pub cpu : Text
  pub mem_pad : ℕ
  pub mem : Text
  pub args : Text

pub ps_text : Listed → Text
ps_text p =
    spaces p.indent
    ++ (show p.pid
        ++ column p.user_pad p.user (column p.cpu_pad p.cpu (column p.mem_pad p.mem (32 ∷ p.args))))

pub process_of : Listed → Process
process_of p = record {
  pid = pos p.pid;
  user = p.user;
  cpu = num_or_zero (parse_float p.cpu);
  mem = num_or_zero (parse_float p.mem);
  command = p.args;
}

-- The user's name holds no space, the loads are digits and points, and the command line begins with
-- no space and holds no line end.
pub record IsListed (p : Listed) : Type 0 where
  pub user_run : IsRun is_not_space p.user
  pub cpu_run : IsRun is_float_unit p.cpu
  pub mem_run : IsRun is_float_unit p.mem
  pub args_first : NoSpaceFirst p.args
  pub args_line : any is_line_end p.args ≡ false

groups_of : Listed → PsGroups
groups_of p = record { pid = show p.pid; user = p.user; cpu = p.cpu; mem = p.mem; args = p.args }

-- The steps of the pattern behind each group.
abbrev after_args : Text → Text → Text → Text → Text → Option PsGroups
after_args pid user cpu mem args =
    if any is_line_end args
    then none
    else some (record { pid = pid; user = user; cpu = cpu; mem = mem; args = args })

abbrev after_mem : Text → Text → Text → Text × Text → Option PsGroups
after_mem pid user cpu m = some_spaces m.1 >>= after_args pid user cpu m.0

abbrev mem_group : Text → Text → Text → Text → Option PsGroups
mem_group pid user cpu t = some_run is_float_unit t >>= after_mem pid user cpu

abbrev after_cpu : Text → Text → Text × Text → Option PsGroups
after_cpu pid user c = some_spaces c.1 >>= mem_group pid user c.0

abbrev cpu_group : Text → Text → Text → Option PsGroups
cpu_group pid user t = some_run is_float_unit t >>= after_cpu pid user

abbrev after_user : Text → Text × Text → Option PsGroups
after_user pid u = some_spaces u.1 >>= cpu_group pid u.0

abbrev user_group : Text → Text → Option PsGroups
user_group pid t = some_run is_not_space t >>= after_user pid

abbrev after_pid : Text × Text → Option PsGroups
after_pid p = some_spaces p.1 >>= user_group p.0

ps_line-ps_text : (p : Listed) → IsListed p → ps_line (ps_text p) ≡ some (groups_of p)
unfolding ps_line ps_text groups_of
ps_line-ps_text p h =
    let mem_rest : Text = 32 ∷ p.args in
    let cpu_rest : Text = column p.mem_pad p.mem mem_rest in
    let user_rest : Text = column p.cpu_pad p.cpu cpu_rest in
    let pid_rest : Text = column p.user_pad p.user user_rest in
    let start : (span is_space (ps_text p)).1 ≡ show p.pid ++ pid_rest =
      ap (λ (x : Text × Text). x.1)
        (span-spaces p.indent (show p.pid ++ pid_rest)
          (NoSpaceFirst-run is_digit (show p.pid) pid_rest digit_not_space (show-IsRun p.pid))) in
    let last : (if any is_line_end p.args then none else some (groups_of p)) ≡ some (groups_of p) =
      rw h.args_line in
    bind after_pid
      (ap (some_run is_digit) start
        ∙ some_run-column is_digit (show p.pid) (spaces p.user_pad ++ (p.user ++ user_rest)) refl
            (show-IsRun p.pid))
      (bind (user_group (show p.pid))
        (some_spaces-gap p.user_pad (p.user ++ user_rest)
          (NoSpaceFirst-run is_not_space p.user user_rest not_space h.user_run))
        (bind (after_user (show p.pid))
          (some_run-column is_not_space p.user (spaces p.cpu_pad ++ (p.cpu ++ cpu_rest)) refl
            h.user_run)
          (bind (cpu_group (show p.pid) p.user)
            (some_spaces-gap p.cpu_pad (p.cpu ++ cpu_rest)
              (NoSpaceFirst-run is_float_unit p.cpu cpu_rest float_not_space h.cpu_run))
            (bind (after_cpu (show p.pid) p.user)
              (some_run-column is_float_unit p.cpu (spaces p.mem_pad ++ (p.mem ++ mem_rest)) refl
                h.cpu_run)
              (bind (mem_group (show p.pid) p.user p.cpu)
                (some_spaces-gap p.mem_pad (p.mem ++ mem_rest)
                  (NoSpaceFirst-run is_float_unit p.mem mem_rest float_not_space h.mem_run))
                (bind (after_mem (show p.pid) p.user p.cpu)
                  (some_run-column is_float_unit p.mem p.args refl h.mem_run)
                  (bind (after_args (show p.pid) p.user p.cpu p.mem)
                    (some_spaces-gap zero p.args h.args_first) last)))))))

abbrev from_groups : Text → Option PsGroups → Outcome Process
from_groups line o = elim o [
  | none ↦ threw (codes "Unexpected ps output: " ++ line)
  | some g ↦ done (record {
    pid = or_else (parse_int 10 g.pid) (pos 0);
    user = g.user;
    cpu = num_or_zero (parse_float g.cpu);
    mem = num_or_zero (parse_float g.mem);
    command = g.args;
  })
]

parse_process_line-ps_text :
    (p : Listed) → IsListed p → parse_process_line (ps_text p) ≡ done (process_of p)
unfolding parse_process_line process_of groups_of
parse_process_line-ps_text p h =
    ap (from_groups (ps_text p)) (ps_line-ps_text p h)
    ∙ ap (λ o. done (record (process_of p) { pid = or_else o (pos 0) })) (parse_int-show p.pid)

ps_text-Lacks : (p : Listed) → IsListed p → Lacks newline (ps_text p)
unfolding ps_text
ps_text-Lacks p h = All-append _ (spaces p.indent) _ (spaces-Lacks p.indent) (
    All-append _ (show p.pid) _
      (IsRun-Lacks is_digit (show p.pid) digit_not_space (show-IsRun p.pid))
      (column-Lacks p.user_pad p.user _ (IsRun-Lacks is_not_space p.user not_space h.user_run) (
        column-Lacks p.cpu_pad p.cpu _ (IsRun-Lacks is_float_unit p.cpu float_not_space h.cpu_run) (
          column-Lacks p.mem_pad p.mem _ (IsRun-Lacks is_float_unit p.mem float_not_space h.mem_run)
            ((omega arith), Lacks-of_line p.args h.args_line)))))

ps_text-is_not_blank : (p : Listed) → is_not_blank (ps_text p) ≡ true
unfolding ps_text
ps_text-is_not_blank p =
    is_not_blank-spaces p.indent is_digit (show p.pid) _ digit_not_space (show-IsRun p.pid)

keep-ps_texts : (ps : List Listed) → keep is_not_blank (map ps_text ps ++ [] ∷ []) ≡ map ps_text ps
keep-ps_texts [] = rw (blank_end, keep)
keep-ps_texts (p ∷ ps) =
    rw (ps_text-is_not_blank p, keep) (ap (λ ls. ps_text p ∷ ls) (keep-ps_texts ps))

ps_texts-Lacks : (ps : List Listed) → All IsListed ps → All (Lacks newline) (map ps_text ps)
ps_texts-Lacks [] h = tt
ps_texts-Lacks (p ∷ ps) (h, hs) = (ps_text-Lacks p h, ps_texts-Lacks ps hs)

map_parse-ps_text :
    (ps : List Listed)
    → All IsListed ps
    → map_parse parse_process_line (map ps_text ps) ≡ done (map process_of ps)
unfolding map_parse
map_parse-ps_text [] h = refl
map_parse-ps_text (p ∷ ps) (h, hs) = rw (parse_process_line-ps_text p h, map_parse-ps_text ps hs)

-- The output of `ps` for processes whose users' names are not empty and hold no space, whose loads
-- are digits and points, and whose command lines begin with no space and hold no line end: however
-- wide the columns are, it is read back as exactly these processes, in order.
pub parse_processes-ps_output :
    (ps : List Listed)
    → All IsListed ps
    → parse_processes (ended newline (map ps_text ps)) ≡ done (map process_of ps)
unfolding parse_processes
parse_processes-ps_output ps h =
    rw (split-ended newline (map ps_text ps) (ps_texts-Lacks ps h), keep-ps_texts ps)
      (map_parse-ps_text ps h)
