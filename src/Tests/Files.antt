-- ===== src/Tests/Files.antt =====
-- Concrete inputs for the file manager, the monitor and the elevation dialogs of packages/web.
use desk_ssh.Base.{
  List, ℕ, ◌≤◌, ◌<◌, true, false, [], ◌∷◌, ◌++◌, none, some, inl, ◌≡◌, ◌⊎◌, refl, arith, All,
}
use desk_ssh.Js.Text.{Text, codes, text_eq, fold_case, includes, last_index_of}
use desk_ssh.Js.Number.{pos, negsuc, nan, show, to_radix, digits}
use desk_ssh.Core.Types.{FileType, FileEntry, file, directory}
use desk_ssh.Core.Result.{CapabilityResult, failed}
use desk_ssh.Core.Elevation.{PrivilegeInfo}
use desk_ssh.Web.Elevation.{
  Dialogs, ran, cancelled, initial, step, Reached, looks_like_permission_error, run, run_threw,
}
use desk_ssh.Web.Elevation.Invariant.{IsWellFormed, Reached-IsWellFormed}
use desk_ssh.Web.Elevation.Once.{Reached-Distinct}
use desk_ssh.Web.Elevation.Settling.{Settled, Distinct}
use desk_ssh.Web.Elevation.Endings.{cancel_twice, run_threw_unsettled, run_all}
use desk_ssh.Web.Files.{Files, copied, new_folder, names, paste, submit_dialog, upload_file}
use desk_ssh.Web.Files.Unique.{has, first_free, candidate, stem, extension, unique_name}
use desk_ssh.Web.Windows.{empty, window_id}
use desk_ssh.Web.Windows.Pointer.{
  Grip, Action, launched, resized, act_all, IsPlaced, act_all-IsPlaced,
}
use desk_ssh.Web.Files.Loading
use desk_ssh.Web.Files.Loading.{Loader, new_loader, answered, listed, went_to, Reached-origin}
use desk_ssh.Web.Files.Names.{unique_name_total}
use desk_ssh.Web.Files.Conflicts.{IsFresh, started-IsFresh}

abbrev entry_of : Text → FileType → FileEntry
entry_of name type = record {
  name = name;
  type = type;
  size = pos 0;
  mode = pos 420;
  owner = codes "root";
  group = codes "root";
  mtime = nan;
}

abbrev notes : FileEntry
notes = entry_of (codes "a.txt") file

abbrev files : Files
files = record {
  path = codes "/tmp";
  entries = notes ∷ entry_of (codes "d") directory ∷ [];
  clipboard = some (record { from = codes "/srv/a.txt"; name = codes "a.txt"; op = copied });
  dialog = some (new_folder, codes " sub ");
  conflict = none;
}

unique_name_total_example :
    let name = codes "a.txt" in
    let existing = codes "a.txt" ∷ codes "a (2).txt" ∷ [] in
    (result : Text) × ((unique_name name existing ≡ some result)
      × ((has existing result ≡ false)
          × ((has existing name ≡ false) × (result ≡ name)
              ⊎ (has existing name ≡ true)
                × ((n : ℕ) × ((result ≡ candidate (stem name) (extension name) n)
                      × ((2 ≤ n)
                          × ((k : ℕ)
                              → 2 ≤ k
                              → k < n
                              → has existing (candidate (stem name) (extension name) k)
                                ≡ true)))))))
unique_name_total_example =
    unique_name_total (codes "a.txt") (codes "a.txt" ∷ codes "a (2).txt" ∷ [])

third_name :
    unique_name (codes "a.txt") (codes "a.txt" ∷ codes "a (2).txt" ∷ []) ≡ some (codes "a (3).txt")
unfolding unique_name has first_free candidate show to_radix digits stem extension last_index_of
    text_eq
third_name = refl

started-IsFresh_example :
    IsFresh files.path (names files.entries) (paste files).0
    × (IsFresh files.path (names files.entries) (submit_dialog files).0
        × IsFresh files.path (names files.entries) (upload_file (codes "b") (codes "AA==") files).0)
started-IsFresh_example = started-IsFresh files (codes "b") (codes "AA==")

abbrev denied : CapabilityResult ℕ
denied = failed [] (some 1) (codes "Permission denied")

abbrev sudoer : PrivilegeInfo
sudoer = record { is_root = false; can_sudo = true; escalation_available = true }

abbrev waiting : Dialogs ℕ
waiting = step (codes "failed") (ran denied (some sudoer)) initial

waiting-Reached : Reached (codes "failed") waiting
waiting-Reached = Reached.next_event (ran denied (some sudoer)) (Reached.start refl) tt refl

Reached-IsWellFormed_example : IsWellFormed waiting
Reached-IsWellFormed_example = Reached-IsWellFormed (codes "failed") waiting waiting-Reached

Reached-Distinct_example :
    Distinct waiting.settled × ((k : ℕ) → waiting.resolve ≡ some k → ¬ Settled k waiting.settled)
Reached-Distinct_example = Reached-Distinct (codes "failed") waiting waiting-Reached

waiting_ticket : (waiting.resolve ≡ some 0) × (waiting.last ≡ some denied)
unfolding step run looks_like_permission_error includes fold_case
waiting_ticket = (refl, refl)

cancel_twice_example :
    let t = step (codes "failed") cancelled (step (codes "failed") cancelled waiting) in
    (t.settled ≡ waiting.settled ++ (0, denied) ∷ []) × (t.stage ≡ none)
cancel_twice_example =
    cancel_twice (codes "failed") waiting 0 denied waiting_ticket.0 waiting_ticket.1

run_threw_unsettled_example :
    ¬ Settled waiting.next
      (run_all (codes "failed") (cancelled ∷ []) (step (codes "failed") run_threw waiting)).settled
run_threw_unsettled_example =
    run_threw_unsettled (codes "failed") waiting (cancelled ∷ []) waiting-Reached

abbrev elsewhere : Loader
elsewhere =
    Loading.step (answered 1 (codes "/tmp") (listed (notes ∷ [])))
      (Loading.step (went_to (codes "/tmp")) (new_loader (codes "/root")))

elsewhere-Reached : Loading.Reached (codes "/root") elsewhere
unfolding Loading.step new_loader text_eq
elsewhere-Reached =
    Loading.Reached.next_event (answered 1 (codes "/tmp") (listed (notes ∷ [])))
      (Loading.Reached.next_event (went_to (codes "/tmp")) (Loading.Reached.start refl) tt refl)
      (inl (refl, refl)) refl

elsewhere_loaded : elsewhere.loaded ≡ true
unfolding Loading.step new_loader text_eq
elsewhere_loaded = refl

Reached-origin_example : elsewhere.origin ≡ some elsewhere.path
Reached-origin_example = Reached-origin (codes "/root") elsewhere elsewhere-Reached elsewhere_loaded

abbrev grip : Grip
grip = record { px = pos 100; py = pos 100; first = pos 560; second = pos 420 }

abbrev shrunk : List Action
shrunk =
    launched (record { id = codes "files"; title = codes "Files"; default_size = none })
    ∷ resized (window_id 1) (some grip) (negsuc 900) (negsuc 900)
    ∷ []

act_all-IsPlaced_example : All IsPlaced (act_all shrunk empty).windows
act_all-IsPlaced_example = act_all-IsPlaced shrunk ((omega arith, omega arith), (tt, tt))
