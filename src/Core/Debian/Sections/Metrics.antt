-- ===== src/Core/Debian/Sections/Metrics.antt =====
-- packages/core/src/adapters/debian.ts: `parseSystemMetrics` reads back what the metrics command prints.
use desk_ssh.Base.{ℕ, List, [], ◌∷◌, map, ◌≡◌, sym, ◌∙◌, ap, none, some, Option}
use desk_ssh.Js.Text.{Text, codes, join, text_eq}
use desk_ssh.Js.Text.Split.{ended, split-ended, join-split}
use desk_ssh.Js.Map
use desk_ssh.Js.Map.{Map}
use desk_ssh.Core.Exec.{done}
use desk_ssh.Core.Debian.Files.{newline}
use desk_ssh.Core.Debian.Sections.{
  add_kbs, read_sections, sections_of, section, words_of, uptime_of, kv_from_meminfo, metrics_of,
  parse_system_metrics, first,
}
use desk_ssh.Core.Debian.Sections.Marked.{table, added, get-added, read_sections-lines_of}
use desk_ssh.Core.Debian.Sections.Words.{AreWords, split_spaces-join, trim-join}
use desk_ssh.Core.Debian.Sections.Meminfo.{mem_text, known, get-add_kbs}
use desk_ssh.Core.Debian.Sections.Report.{
  Report, IsReport, metrics_output, metrics_read, uptime_words, load_words, sections, mem_lines,
  mem-Lacks, uptime-AreWords, load-AreWords, sections-AreSections, split-metrics_output,
}

abbrev found : Report → Map (List Text)
found r = table (sections r (mem_lines r)) []

sections_of-metrics_output : (r : Report) → IsReport r → sections_of (metrics_output r) ≡ found r
unfolding sections_of
sections_of-metrics_output r h =
    ap (read_sections [] []) (split-metrics_output r h)
    ∙ read_sections-lines_of [] (sections r (mem_lines r)) [] (sections-AreSections r h)

-- The table behind each section but the last.
abbrev of_uptime : Report → Map (List Text)
of_uptime r = added (codes "UPTIME", join (32 ∷ []) (uptime_words r) ∷ []) []

abbrev of_load : Report → Map (List Text)
of_load r = added (codes "LOAD", join (32 ∷ []) (load_words r) ∷ []) (of_uptime r)

abbrev joined : Option (List Text) → Option Text
joined o = elim o [ none ↦ none | some ls ↦ some (join (newline ∷ []) ls) ]

uptime-found :
    (r : Report) → section (codes "UPTIME") (found r) ≡ some (join (32 ∷ []) (uptime_words r))
unfolding section text_eq join
uptime-found r =
    let k = codes "UPTIME" in
    ap joined (
      get-added k (codes "MEM") (mem_lines r) (of_load r)
      ∙ get-added k (codes "LOAD") (join (32 ∷ []) (load_words r) ∷ []) (of_uptime r)
      ∙ get-added k k (join (32 ∷ []) (uptime_words r) ∷ []) [])

load-found : (r : Report) → section (codes "LOAD") (found r) ≡ some (join (32 ∷ []) (load_words r))
unfolding section text_eq join
load-found r =
    let k = codes "LOAD" in
    ap joined (
      get-added k (codes "MEM") (mem_lines r) (of_load r)
      ∙ get-added k k (join (32 ∷ []) (load_words r) ∷ []) (of_uptime r))

mem-found :
    (r : Report)
    → IsReport r
    → section (codes "MEM") (found r) ≡ some (ended newline (map mem_text r.memory))
unfolding section text_eq
mem-found r h =
    let ls = map mem_text r.memory in
    ap joined (get-added (codes "MEM") (codes "MEM") (mem_lines r) (of_load r))
    ∙ ap (λ (ps : List Text). some (join (newline ∷ []) ps))
        (sym (split-ended newline ls (mem-Lacks r.memory h.memory_lines)))
    ∙ ap some (join-split newline (ended newline ls))

uptime_of-join :
    (ws : List Text) → AreWords ws → uptime_of (some (join (32 ∷ []) ws)) ≡ some (first ws)
unfolding uptime_of
uptime_of-join ws h = rw (trim-join ws h, split_spaces-join ws h)

words_of-join : (ws : List Text) → AreWords ws → words_of (some (join (32 ∷ []) ws)) ≡ ws
unfolding words_of
words_of-join ws h = rw (trim-join ws h, split_spaces-join ws h)

get-meminfo :
    (k : Text) (r : Report)
    → IsReport r
    → Map.get k (kv_from_meminfo (ended newline (map mem_text r.memory))) ≡ known k none r.memory
unfolding kv_from_meminfo Map.get
get-meminfo k r h =
    ap (λ ls. Map.get k (add_kbs [] ls))
      (split-ended newline (map mem_text r.memory) (mem-Lacks r.memory h.memory_lines))
    ∙ get-add_kbs k r.memory [] h.memory_lines

metrics_of-known :
    (r : Report) (mem : Map ℕ)
    → Map.get (codes "MemTotal") mem ≡ known (codes "MemTotal") none r.memory
    → Map.get (codes "MemAvailable") mem ≡ known (codes "MemAvailable") none r.memory
    → metrics_of (some r.uptime) (load_words r) mem ≡ done (metrics_read r)
unfolding metrics_of metrics_read
metrics_of-known r mem t a = rw (t, a)

-- What the metrics command prints, for an uptime and loads of digits and points, is read back as
-- that uptime and these loads, with the amounts of the last lines that name the memory's total and
-- what is available of it.
pub parse_system_metrics-metrics_output :
    (r : Report) → IsReport r → parse_system_metrics (metrics_output r) ≡ done (metrics_read r)
unfolding parse_system_metrics
parse_system_metrics-metrics_output r h =
    rw
      (
        sections_of-metrics_output r h,
        uptime-found r,
        load-found r,
        mem-found r h,
        uptime_of-join (uptime_words r) (uptime-AreWords r h),
        words_of-join (load_words r) (load-AreWords r h),
      )
      (metrics_of-known r (kv_from_meminfo (ended newline (map mem_text r.memory)))
        (get-meminfo (codes "MemTotal") r h) (get-meminfo (codes "MemAvailable") r h))
