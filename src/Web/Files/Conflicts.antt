-- ===== src/Web/Files/Conflicts.antt =====
-- packages/web/src/features/desktop/apps/FilesApp.tsx: what the operations do about a name that is
-- taken.
use desk_ssh.Base.{
  Bool, true, false, List, [], ◌∷◌, Option, none, some, if◌then◌else◌, ◌≡◌, refl, Bool-cases, inl,
  inr, All,
}
use desk_ssh.Js.Text.{Text, trim}
use desk_ssh.Core.Types.{FileEntry}
use desk_ssh.Web.Paths.{join_path}
use desk_ssh.Web.Client.{
  ClientCall, write_file, make_dir, create_file, remove_path, move_path, copy_path,
}
use desk_ssh.Web.Files.{
  Files, Conflict, Intent, Clipboard, Operation, cut, copied, Mode, new_folder, new_file, rename,
  paste_of, make_of, upload_of, intent_name, names, on_name, on_replace, bring, make, with_conflict,
  keep_both, paste, submit_dialog, upload_file, take_entry, replace, paste_of_clipboard,
  submit_dialog_of, without_cut, is_refused, is_same_name,
}
use desk_ssh.Web.Files.Unique.{has}
use desk_ssh.Web.Files.Names.{unique_name_total}

-- The call writes only to one path, which it does not remove.
abbrev pub Creates : Text → ClientCall → Type 0
Creates path (write_file p base64 e) = p ≡ path
Creates path (make_dir p e) = p ≡ path
Creates path (create_file p e) = p ≡ path
Creates path (move_path from to e) = to ≡ path
Creates path (copy_path from to e) = to ≡ path
Creates path other = ⊥

pub on_name-Creates :
    (path : Text) (intent : Intent) (name : Text)
    → Creates (join_path path name) (on_name path intent name)
unfolding on_name bring make
on_name-Creates path (paste_of cb) name = brought cb.op
  where
    brought : (op : Operation) → Creates (join_path path name) (bring path cb.from name op)
    brought cut = refl
    brought copied = refl
on_name-Creates path (make_of new_folder value) name = refl
on_name-Creates path (make_of new_file value) name = refl
on_name-Creates path (make_of (rename target) value) name = refl
on_name-Creates path (upload_of original base64) name = refl

-- Every call creates a path of the directory whose name is not among the names.
abbrev pub IsFresh : Text → List Text → List ClientCall → Type 0
IsFresh path existing =
    All (λ c. (name : Text) × ((has existing name ≡ false) × Creates (join_path path name) c))

-- What is started without asking creates a path under a name that the listing does not have.
with_conflict-IsFresh :
    (intent : Intent) (s : Files) → IsFresh s.path (names s.entries) (with_conflict intent s).0
unfolding with_conflict
with_conflict-IsFresh intent s = elim (Bool-cases (has (names s.entries) (intent_name intent))) [
  | inl e ↦ rw e tt
  | inr e ↦ rw e ((intent_name intent, (e, on_name-Creates s.path intent (intent_name intent))), tt)
]

pasted-IsFresh :
    (clipboard : Option Clipboard) (s : Files)
    → IsFresh s.path (names s.entries) (paste_of_clipboard clipboard s).0
pasted-IsFresh none s = tt
pasted-IsFresh (some cb) s = pasted cb.op
  where
    pasted :
        (op : Operation)
        → IsFresh s.path (names s.entries) (with_conflict (paste_of cb) (without_cut op s)).0
    pasted cut = with_conflict-IsFresh (paste_of cb) (record s { clipboard = none })
    pasted copied = with_conflict-IsFresh (paste_of cb) s

submitted-IsFresh :
    (dialog : Option (Mode × Text)) (s : Files)
    → IsFresh s.path (names s.entries) (submit_dialog_of dialog s).0
submitted-IsFresh none s = tt
submitted-IsFresh (some (mode, value)) s =
    submitted (is_refused value) (is_same_name mode (trim value))
  where
    submitted :
        (refused same : Bool)
        → IsFresh s.path
            (names s.entries)
            (if refused
              then ([], s)
              else if same
              then ([], record s { dialog = none })
              else with_conflict (make_of mode (trim value)) (record s { dialog = none })).0
    submitted true same = tt
    submitted false true = tt
    submitted false false =
        with_conflict-IsFresh (make_of mode (trim value)) (record s { dialog = none })

-- Whatever the state: what pasting, the name dialog and an upload start without a question creates
-- only paths of the directory under names that its listing does not have.
pub started-IsFresh :
    (s : Files) (name base64 : Text)
    → IsFresh s.path (names s.entries) (paste s).0
      × (IsFresh s.path (names s.entries) (submit_dialog s).0
          × IsFresh s.path (names s.entries) (upload_file name base64 s).0)
unfolding upload_file paste submit_dialog
started-IsFresh s name base64 = (
  pasted-IsFresh s.clipboard s,
  (submitted-IsFresh s.dialog s, with_conflict-IsFresh (upload_of name base64) s),
)

-- If a name is taken, then to keep both makes one call, which creates a path of the same directory
-- under a name that the listing did not have, and closes the dialog.
pub keep_both-IsFresh :
    (s : Files) (c : Conflict)
    → s.conflict ≡ some c
    → (name : Text) × ((has c.existing name ≡ false)
        × ((keep_both s ≡ (on_name c.path c.intent name ∷ [], record s { conflict = none }))
            × Creates (join_path c.path name) (on_name c.path c.intent name)))
unfolding keep_both
keep_both-IsFresh s c e =
    let (name, (u, (free, how))) = unique_name_total (intent_name c.intent) c.existing in
    (name, (free, (rw (e, u) refl, on_name-Creates c.path c.intent name)))

-- If an entry is cut or copied and pasted into the directory where it is, and its name is in the
-- listing, then to replace removes the entry itself first.
pub paste-replace_same_folder :
    (s : Files) (entry : FileEntry) (op : Operation)
    → has (names s.entries) entry.name ≡ true
    → let source = join_path s.path entry.name in
      (replace (paste (take_entry op entry s)).1).0
      ≡ remove_path source none ∷ bring s.path source entry.name op ∷ []
unfolding replace paste take_entry with_conflict on_replace
paste-replace_same_folder s entry cut h = rw h refl
paste-replace_same_folder s entry copied h = rw h refl
