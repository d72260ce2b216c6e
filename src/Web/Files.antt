-- ===== src/Web/Files.antt =====
-- packages/web/src/features/desktop/apps/FilesApp.tsx: the file manager. A call of the gateway is a
-- `ClientCall`, without the elevation, which `runElevated` adds.
pub mod Unique
pub mod Names
pub mod Conflicts
pub mod Dialogs
pub mod Sorting
pub mod Loading
use desk_ssh.Base.{
  ℕ, zero, suc, Bool, true, false, not, ◌&&◌, List, [], ◌∷◌, ◌++◌, any, length, take, drop, Option,
  none, some, is_some, if◌then◌else◌, ◌||◌,
}
use desk_ssh.Js.Text.{Text, codes, text_eq, last_index_of, trim, non_empty, index_of}
use desk_ssh.Js.Number.{show}
use desk_ssh.Core.Types.{FileType, FileEntry, file, directory, symlink, other}
use desk_ssh.Web.Paths.{join_path}
use desk_ssh.Web.Mime.{image_mime_for, is_pdf}
use desk_ssh.Web.Files.Unique.{has, unique_name}
use desk_ssh.Web.Client.{
  ClientCall, write_file, make_dir, create_file, remove_path, move_path, copy_path,
}

pub data Operation : Type 0 where
  cut copied : Operation

pub record Clipboard : Type 0 where
  pub from : Text
  pub name : Text
  pub op : Operation

pub data Mode : Type 0 where
  new_folder new_file : Mode
  rename : (target : Text) → Mode

-- What `withConflict` is called for: its two continuations.
pub data Intent : Type 0 where
  paste_of : Clipboard → Intent
  make_of : (mode : Mode) (value : Text) → Intent
  upload_of : (name base64 : Text) → Intent

-- A name that is taken: the two continuations with what they close over.
pub record Conflict : Type 0 where
  pub intent : Intent
  pub path : Text
  pub existing : List Text

-- The state that the operations read and write. The path is fixed while a call runs.
pub record Files : Type 0 where
  pub path : Text
  pub entries : List FileEntry
  pub clipboard : Option Clipboard
  pub dialog : Option (Mode × Text)
  pub conflict : Option Conflict

-- What was shown for an entry that was activated.
pub data Opened : Type 0 where
  folder image pdf editor : (path : Text) → Opened

unfoldable pub activate : Text → FileEntry → Option Opened
unfolding join_path image_mime_for is_pdf
activate path entry =
    let full = join_path path entry.name in
    elim entry.type [
      | directory ↦ some (folder full)
      | file ↦ some (
          if is_some (image_mime_for entry.name)
          then image full
          else if is_pdf entry.name
          then pdf full
          else editor full)
      | symlink ↦ none
      | other ↦ none
    ]

unfoldable pub bring : Text → Text → Text → Operation → ClientCall
unfolding join_path
bring path from final_name cut = move_path from (join_path path final_name) none
bring path from final_name copied = copy_path from (join_path path final_name) none

unfoldable pub make : Text → Mode → Text → ClientCall
unfolding join_path
make path new_folder name = make_dir (join_path path name) none
make path new_file name = create_file (join_path path name) none
make path (rename target) name = move_path (join_path path target) (join_path path name) none

-- The name that an intent is about.
abbrev pub intent_name : Intent → Text
intent_name (paste_of cb) = cb.name
intent_name (make_of mode value) = value
intent_name (upload_of name base64) = name

-- `onName`: the call for a name that was settled on.
unfoldable pub on_name : Text → Intent → Text → ClientCall
unfolding bring make join_path
on_name path (paste_of cb) name = bring path cb.from name cb.op
on_name path (make_of mode value) name = make path mode name
on_name path (upload_of original base64) name = write_file (join_path path name) base64 none

-- `onReplace`: calls of which each is made if the one before it succeeded.
unfoldable pub on_replace : Text → Intent → List ClientCall
unfolding bring make join_path
on_replace path (paste_of cb) =
    remove_path (join_path path cb.name) none ∷ bring path cb.from cb.name cb.op ∷ []
on_replace path (make_of mode value) =
    remove_path (join_path path value) none ∷ make path mode value ∷ []
on_replace path (upload_of name base64) = write_file (join_path path name) base64 none ∷ []

abbrev pub names : List FileEntry → List Text
names [] = []
names (e ∷ es) = e.name ∷ names es

-- The calls that start at once, and the state behind it.
unfoldable pub with_conflict : Intent → Files → List ClientCall × Files
unfolding has on_name
with_conflict intent s =
    let existing = names s.entries in
    let asked : Conflict = record { intent = intent; path = s.path; existing = existing } in
    if not (has existing (intent_name intent))
    then (on_name s.path intent (intent_name intent) ∷ [], s)
    else ([], record s { conflict = some asked })

-- A number is always found (`unique_name_total`), so that the other branch is not taken.
abbrev pub call_of : Text → Intent → Option Text → List ClientCall
call_of path intent none = []
call_of path intent (some name) = on_name path intent name ∷ []

-- The buttons of the dialog.
abbrev pub keep_both_of : Option Conflict → Files → List ClientCall × Files
keep_both_of none s = ([], s)
keep_both_of (some c) s = (
  call_of c.path c.intent (unique_name (intent_name c.intent) c.existing),
  record s { conflict = none },
)

unfoldable pub keep_both : Files → List ClientCall × Files
unfolding unique_name on_name
keep_both s = keep_both_of s.conflict s

abbrev pub replace_of : Option Conflict → Files → List ClientCall × Files
replace_of none s = ([], s)
replace_of (some c) s = (on_replace c.path c.intent, record s { conflict = none })

unfoldable pub replace : Files → List ClientCall × Files
unfolding on_replace
replace s = replace_of s.conflict s

abbrev pub without_cut : Operation → Files → Files
without_cut cut s = record s { clipboard = none }
without_cut copied s = s

abbrev pub paste_of_clipboard : Option Clipboard → Files → List ClientCall × Files
paste_of_clipboard none s = ([], s)
paste_of_clipboard (some cb) s = with_conflict (paste_of cb) (without_cut cb.op s)

unfoldable pub paste : Files → List ClientCall × Files
unfolding with_conflict
paste s = paste_of_clipboard s.clipboard s

-- `setClipboard` of the menu of an entry.
unfoldable pub take_entry : Operation → FileEntry → Files → Files
unfolding join_path
take_entry op entry s = record s {
  clipboard = some (record { from = join_path s.path entry.name; name = entry.name; op = op });
}

-- A name that the dialog refuses.
unfoldable pub is_refused : Text → Bool
unfolding trim index_of
is_refused value = not (non_empty (trim value)) || is_some (index_of b'/' (trim value))

abbrev pub is_same_name : Mode → Text → Bool
is_same_name (rename target) value = text_eq target value
is_same_name _ value = false

abbrev pub submit_dialog_of : Option (Mode × Text) → Files → List ClientCall × Files
submit_dialog_of none s = ([], s)
submit_dialog_of (some (mode, value)) s =
    let submitted = with_conflict (make_of mode (trim value)) (record s { dialog = none }) in
    if is_refused value
    then ([], s)
    else if is_same_name mode (trim value)
    then ([], record s { dialog = none })
    else submitted

unfoldable pub submit_dialog : Files → List ClientCall × Files
unfolding with_conflict is_refused text_eq trim
submit_dialog s = submit_dialog_of s.dialog s

-- `dialogValid`, which enables the button.
unfoldable pub dialog_valid : Option (Mode × Text) → Bool
unfolding trim index_of
dialog_valid none = false
dialog_valid (some (mode, value)) = non_empty (trim value) && not (is_some (index_of b'/' value))

-- `uploadFile`, once the browser has read the file.
unfoldable pub upload_file : Text → Text → Files → List ClientCall × Files
unfolding with_conflict
upload_file name base64 s = with_conflict (upload_of name base64) s

-- The confirmed deletion of an entry.
unfoldable pub delete_entry : Text → Text → ClientCall
unfolding join_path
delete_entry path name = remove_path (join_path path name) none

module _ {W : Type 0} (run_void : ClientCall → W → Bool × W) where
  -- `runVoid` of a call tells whether it succeeded.
  unfoldable pub run_calls : List ClientCall → W → Bool × W
  run_calls [] w = (true, w)
  run_calls (c ∷ cs) w =
      let ran = run_void c w in
      let rest = run_calls cs ran.1 in if ran.0 then rest else (false, ran.1)
