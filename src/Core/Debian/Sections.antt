-- ===== src/Core/Debian/Sections.antt =====
-- packages/core/src/adapters/debian.ts: the parsers of output that marker lines cut into sections,
-- for the metrics and for the system information.
pub mod Words
pub mod Marked
pub mod Meminfo
pub mod Report
pub mod Metrics
use desk_ssh.Base.{
  ℕ, zero, suc, ◌*◌, ◌-◌, ◌++◌, List, [], ◌∷◌, Option, none, some, or_else, get_elem?, true, ◌&&◌,
  not, ◌==◌, if◌then◌else◌,
}
use desk_ssh.Js.Text.{Text, codes, split, join, trim, non_empty}
use desk_ssh.Js.Number.{ℤ, pos, negsuc, signed, parse_int, value, parse_float, round, num_or_zero}
use desk_ssh.Js.Map
use desk_ssh.Js.Map.{Map}
use desk_ssh.Js.Regex.{marker, kb_line, split_spaces}
use desk_ssh.Core.Exec.{Outcome, done, threw}
use desk_ssh.Core.Types.{SystemInfo, SystemMetrics}
use desk_ssh.Core.Debian.Files.{newline}

-- One line into a table of sizes in bytes.
unfoldable pub add_kb : Map ℕ → Text → Map ℕ
unfolding kb_line Map.set value trim
add_kb m line = elim (kb_line (trim line)) [
  | none ↦ m
  | some g ↦ Map.set g.0 (value 10 0 g.1 * 1024) m
]

unfoldable pub add_kbs : Map ℕ → List Text → Map ℕ
unfolding add_kb
add_kbs m [] = m
add_kbs m (line ∷ lines) = add_kbs (add_kb m line) lines

unfoldable pub kv_from_meminfo : Text → Map ℕ
unfolding add_kbs split
kv_from_meminfo meminfo = add_kbs [] (split newline meminfo)

-- The loop of `sectionsOf` and of `parseSystemMetrics`: `current` is the section's name, empty before
-- the first marker; a marker empties its section.
unfoldable pub read_sections : Text → Map (List Text) → List Text → Map (List Text)
unfolding marker Map.set Map.get
read_sections current m [] = m
read_sections current m (line ∷ lines) = elim (marker line) [
  | some name ↦ read_sections name (Map.set name [] m) lines
  | none ↦ elim current [
    | [] ↦ read_sections [] m lines
    | c ∷ r ↦
        read_sections (c ∷ r) (Map.set (c ∷ r) (or_else (Map.get (c ∷ r) m) [] ++ line ∷ []) m)
          lines
  ]
]

unfoldable pub sections_of : Text → Map (List Text)
unfolding read_sections split
sections_of stdout = read_sections [] [] (split newline stdout)

-- The first of the parts of a split, which is never empty.
abbrev pub first : List Text → Text
first [] = []
first (p ∷ ps) = p

unfoldable pub metrics_of : Option Text → List Text → Map ℕ → Outcome SystemMetrics
unfolding Map.get parse_float round
metrics_of (some uptime) (one ∷ five ∷ fifteen ∷ more) mem =
    let total = or_else (Map.get (codes "MemTotal") mem) 0 in
    let available = or_else (Map.get (codes "MemAvailable") mem) 0 in
    done (record {
      uptime_seconds = round (parse_float uptime);
      load_average = (parse_float one, parse_float five, parse_float fifteen);
      memory = record {
        total_bytes = total;
        used_bytes = total - available;
        available_bytes = available;
      };
    })
metrics_of _ _ mem = threw (codes "Incomplete metrics output")

-- `sections.get(k)`, the lines joined again.
unfoldable pub section : Text → Map (List Text) → Option Text
unfolding Map.get join
section k m = elim (Map.get k m) [ none ↦ none | some ls ↦ some (join (newline ∷ []) ls) ]

unfoldable pub words_of : Option Text → List Text
unfolding split_spaces trim
words_of none = []
words_of (some s) = split_spaces (trim s)

unfoldable pub uptime_of : Option Text → Option Text
unfolding split_spaces trim
uptime_of none = none
uptime_of (some s) = some (first (split_spaces (trim s)))

unfoldable pub parse_system_metrics : Text → Outcome SystemMetrics
unfolding sections_of section words_of uptime_of kv_from_meminfo metrics_of
parse_system_metrics stdout =
    let m = sections_of stdout in
    metrics_of (uptime_of (section (codes "UPTIME") m)) (words_of (section (codes "LOAD") m))
      (kv_from_meminfo (or_else (section (codes "MEM") m) []))

-- The `line` helper of `parseSystemInfo`: the i-th line of a section, trimmed.
unfoldable pub section_line : Map (List Text) → Text → ℕ → Text
unfolding Map.get trim
section_line s k i = trim (or_else (get_elem? (or_else (Map.get k s) []) i) [])

-- `n || d` on what `parseInt` gives: zero and NaN both yield the default.
unfoldable pub int_or : Option ℤ → ℕ → ℤ
int_or none d = pos d
int_or (some (pos zero)) d = pos d
int_or (some (pos (suc n))) d = pos (suc n)
int_or (some (negsuc n)) d = negsuc n

-- `n * 1024`.
unfoldable pub kib : ℤ → ℤ
unfolding signed
kib (pos n) = pos (n * 1024)
kib (negsuc n) = signed true (suc n * 1024)

unfoldable pub info_of : Map (List Text) → Map ℕ → SystemInfo
unfolding section_line int_or kib parse_int parse_float round num_or_zero split_spaces Map.get
info_of s mem =
    let total = or_else (Map.get (codes "MemTotal") mem) 0 in
    let available = or_else (Map.get (codes "MemAvailable") mem) 0 in
    let disk = split_spaces (section_line s (codes "DISK") 0) in
    record {
      hostname = section_line s (codes "HOST") 0;
      pretty_name = section_line s (codes "OS") 0;
      kernel = section_line s (codes "KERNEL") 0;
      uptime_seconds =
          round
            (num_or_zero (parse_float (first (split_spaces (section_line s (codes "UPTIME") 0)))));
      packages = int_or (parse_int 10 (section_line s (codes "PKGS") 0)) 0;
      shell = section_line s (codes "SHELL") 0;
      cpu_model = section_line s (codes "CPU") 0;
      cpu_count = int_or (parse_int 10 (section_line s (codes "CPU") 1)) 1;
      mem_total_bytes = total;
      mem_used_bytes = total - available;
      disk_total_bytes = kib (int_or (parse_int 10 (or_else (get_elem? disk 1) (codes "0"))) 0);
      disk_used_bytes = kib (int_or (parse_int 10 (or_else (get_elem? disk 2) (codes "0"))) 0);
      local_ip = first (split_spaces (section_line s (codes "IP") 0));
    }

unfoldable pub parse_system_info : Text → Outcome SystemInfo
unfolding sections_of add_kbs info_of section_line Map.get
parse_system_info stdout =
    let s = sections_of stdout in
    let mem = add_kbs [] (or_else (Map.get (codes "MEM") s) []) in
    if not (non_empty (section_line s (codes "HOST") 0))
      && (or_else (Map.get (codes "MemTotal") mem) 0 == 0)
    then threw (codes "Empty system-info output")
    else done (info_of s mem)
