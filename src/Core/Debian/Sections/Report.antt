-- ===== src/Core/Debian/Sections/Report.antt =====
-- packages/core/src/adapters/debian.ts: what the metrics command prints, and the lines it is split into.
use desk_ssh.Base.{
  ℕ, true, List, [], ◌∷◌, ◌++◌, append-nil, map, ◌≡◌, ◌≢◌, refl, sym, ◌∙◌, arith, All, All-append,
  ap, ◌-◌, none, or_else,
}
use desk_ssh.Js.Text.{Text, codes, join, split, text_eq, is_word, is_digit, span, starts_with}
use desk_ssh.Js.Text.Split.{Lacks, ended, split-ended, Lacks-of_test}
use desk_ssh.Js.Number.{parse_float, round}
use desk_ssh.Js.Regex.{marker, is_float_unit}
use desk_ssh.Core.Types.{SystemMetrics}
use desk_ssh.Core.Debian.Files.{newline}
use desk_ssh.Core.Debian.Sections.Marked.{Section, marked, lines_of, IsSection, IsContent}
use desk_ssh.Core.Debian.Sections.Words.{IsWord, AreWords, join-Lacks, IsWord-run}
use desk_ssh.Core.Debian.Sections.Meminfo.{
  MemLine, mem_text, IsMemLine, known, not_mark-IsContent, mem_text-IsContent, mem_text-Lacks,
}
use desk_ssh.Core.Debian.Processes.Columns.{IsRun, float_not_space}

-- What the host has to say: the uptime and what follows it in its file, the loads and what follows
-- them, and the lines of the memory.
pub record Report : Type 0 where
  pub uptime : Text
  pub idle : List Text
  pub one : Text
  pub five : Text
  pub fifteen : Text
  pub more : List Text
  pub memory : List MemLine

-- The uptime and the loads are digits and points, what follows them are words, and the lines of the
-- memory are amounts or other lines.
pub record IsReport (r : Report) : Type 0 where
  pub uptime_run : IsRun is_float_unit r.uptime
  pub idle_words : All IsWord r.idle
  pub one_run : IsRun is_float_unit r.one
  pub five_run : IsRun is_float_unit r.five
  pub fifteen_run : IsRun is_float_unit r.fifteen
  pub more_words : All IsWord r.more
  pub memory_lines : All IsMemLine r.memory

abbrev pub uptime_words : Report → List Text
uptime_words r = r.uptime ∷ r.idle

abbrev pub load_words : Report → List Text
load_words r = r.one ∷ r.five ∷ r.fifteen ∷ r.more

-- The sections, with the lines that the memory's section holds.
abbrev pub sections : Report → List Text → List Section
sections r mem =
    (codes "UPTIME", join (32 ∷ []) (uptime_words r) ∷ [])
    ∷ (codes "LOAD", join (32 ∷ []) (load_words r) ∷ [])
    ∷ (codes "MEM", mem)
    ∷ []

-- What the command prints: each line with a line end behind it.
pub metrics_output : Report → Text
metrics_output r = ended newline (lines_of (sections r (map mem_text r.memory)))

unfoldable pub metrics_read : Report → SystemMetrics
metrics_read r =
    let total = or_else (known (codes "MemTotal") none r.memory) 0 in
    let available = or_else (known (codes "MemAvailable") none r.memory) 0 in
    record {
      uptime_seconds = round (parse_float r.uptime);
      load_average = (parse_float r.one, parse_float r.five, parse_float r.fifteen);
      memory = record {
        total_bytes = total;
        used_bytes = total - available;
        available_bytes = available;
      };
    }

float-IsWord : (s : Text) → IsRun is_float_unit s → IsWord s
float-IsWord s h = IsWord-run is_float_unit s float_not_space h

pub uptime-AreWords : (r : Report) → IsReport r → AreWords (uptime_words r)
uptime-AreWords r h = (float-IsWord r.uptime h.uptime_run, h.idle_words)

pub load-AreWords : (r : Report) → IsReport r → AreWords (load_words r)
load-AreWords r h = (
  float-IsWord r.one h.one_run,
  (float-IsWord r.five h.five_run, (float-IsWord r.fifteen h.fifteen_run, h.more_words)),
)

float_not_mark : (c : ℕ) → is_float_unit c ≡ true → c ≢ 61
unfolding is_float_unit is_digit
float_not_mark c h = ground arith

-- A line of words whose first is digits and points is no marker.
words-IsContent :
    (w : Text) (ws : List Text) → IsRun is_float_unit w → IsContent (join (32 ∷ []) (w ∷ ws))
unfolding join
words-IsContent [] ws h = absurd (h.some_unit refl)
words-IsContent (c ∷ w) [] h = not_mark-IsContent c w (float_not_mark c h.units.0)
words-IsContent (c ∷ w) (v ∷ vs) h = not_mark-IsContent c _ (float_not_mark c h.units.0)

blank-IsContent : IsContent []
unfolding marker starts_with span
blank-IsContent = refl

mem-IsContent : (es : List MemLine) → All IsMemLine es → All IsContent (map mem_text es)
mem-IsContent [] h = tt
mem-IsContent (e ∷ es) (h, hs) = (mem_text-IsContent e h, mem-IsContent es hs)

pub mem-Lacks : (es : List MemLine) → All IsMemLine es → All (Lacks newline) (map mem_text es)
mem-Lacks [] h = tt
mem-Lacks (e ∷ es) (h, hs) = (mem_text-Lacks e h, mem-Lacks es hs)

-- The lines of the memory with the empty part behind the last line end.
abbrev pub mem_lines : Report → List Text
mem_lines r = map mem_text r.memory ++ [] ∷ []

pub sections-AreSections : (r : Report) → IsReport r → All IsSection (sections r (mem_lines r))
unfolding marker span is_word is_digit text_eq starts_with
sections-AreSections r h = (
  record {
    named = λ e. cc;
    marker_read = refl;
    content = (words-IsContent r.uptime r.idle h.uptime_run, tt);
  },
  (
    record {
      named = λ e. cc;
      marker_read = refl;
      content = (words-IsContent r.one (r.five ∷ r.fifteen ∷ r.more) h.one_run, tt);
    },
    (
      record {
        named = λ e. cc;
        marker_read = refl;
        content = All-append _ _ _ (mem-IsContent r.memory h.memory_lines) (blank-IsContent, tt);
      },
      tt,
    ),
  ),
)

lines-Lacks :
    (r : Report) → IsReport r → All (Lacks newline) (lines_of (sections r (map mem_text r.memory)))
lines-Lacks r h = (
  Lacks-of_test newline (marked (codes "UPTIME")) refl,
  (
    join-Lacks (uptime_words r) (uptime-AreWords r h),
    (
      Lacks-of_test newline (marked (codes "LOAD")) refl,
      (
        join-Lacks (load_words r) (load-AreWords r h),
        (
          Lacks-of_test newline (marked (codes "MEM")) refl,
          All-append _ _ _ (mem-Lacks r.memory h.memory_lines) tt,
        ),
      ),
    ),
  ),
)

-- Split at its line ends, the output is the sections' lines, where the empty part at the end falls to
-- the memory.
pub split-metrics_output :
    (r : Report)
    → IsReport r
    → split newline (metrics_output r) ≡ lines_of (sections r (mem_lines r))
unfolding metrics_output
split-metrics_output r h =
    split-ended newline (lines_of (sections r (map mem_text r.memory))) (lines-Lacks r h)
    ∙ ap
        (λ (ls : List Text).
          marked (codes "UPTIME")
          ∷ join (32 ∷ []) (uptime_words r)
          ∷ marked (codes "LOAD")
          ∷ join (32 ∷ []) (load_words r)
          ∷ marked (codes "MEM")
          ∷ ls)
        (ap (λ (ls : List Text). ls ++ [] ∷ []) (append-nil (map mem_text r.memory))
          ∙ sym (append-nil (mem_lines r)))
