-- ===== src/Server/Manager/Registry.antt =====
-- What the registry of packages/server/src/session-manager.ts promises.
use desk_ssh.Base.{
  List, [], ◌∷◌, ◌++◌, ◌≡◌, refl, arith, Option, none, some, true, false, is_some, if◌then◌else◌,
  append_assoc, append-nil, Option-cases, ap, sym, inl, inr,
}
use desk_ssh.Js.Text.{Text, text_eq}
use desk_ssh.Js.Text.Equality.{text_eq_refl, text_eq_iff}
use desk_ssh.Js.Map
use desk_ssh.Js.Map.{Map}
use desk_ssh.Js.Map.Laws.{get-set, get-delete, Distinct, set-Distinct, delete-Distinct}
use desk_ssh.Server.Manager.{
  NewEntry, SessionEntry, Manager, add, get, remove, remove_all, close_all,
}

module _ {S : Type 0} where
  -- No id stands twice.
  abbrev pub IsRegistry : Manager S → Type 0
  IsRegistry m = Distinct m.sessions

  pub add-IsRegistry :
      (id : Text) (entry : NewEntry S) (m : Manager S)
      → IsRegistry m
      → IsRegistry (add id entry m).1
  unfolding add
  add-IsRegistry id entry m h = set-Distinct id _ m.sessions h

  pub remove-IsRegistry : (id : Text) (m : Manager S) → IsRegistry m → IsRegistry (remove id m).1
  unfolding remove
  remove-IsRegistry id m h = ground (arith, delete-Distinct id m.sessions h)

  -- After adding an entry its id finds it, and every other id finds what it found before; nothing is
  -- closed.
  pub get-add :
      (id j : Text) (entry : NewEntry S) (m : Manager S)
      → (get j (add id entry m).1 ≡ (if text_eq id j then some (add id entry m).0 else get j m))
        × ((add id entry m).1.closed ≡ m.closed)
  unfolding add get
  get-add id j entry m = (get-set j id _ m.sessions, refl)

  abbrev pub found : Option (SessionEntry S) → List (SessionEntry S)
  found none = []
  found (some e) = e ∷ []

  remove_present :
      (id : Text) (m : Manager S) {e : SessionEntry S}
      → get id m ≡ some e
      → remove id m
        ≡ (true, record { sessions = Map.delete id m.sessions; closed = m.closed ++ e ∷ [] })
  unfolding remove
  remove_present id m h = rw (h, remove)

  remove_absent : (id : Text) (m : Manager S) → get id m ≡ none → remove id m ≡ (false, m)
  unfolding remove
  remove_absent id m h = rw (h, remove)

  get-delete_session :
      (id j : Text) (m : Manager S) (c : List (SessionEntry S))
      → IsRegistry m
      → get j (record { sessions = Map.delete id m.sessions; closed = c })
        ≡ (if text_eq id j then none else get j m)
  unfolding get
  get-delete_session id j m c h = get-delete j id m.sessions h

  get_absent :
      (id j : Text) (m : Manager S)
      → get id m ≡ none
      → get j m ≡ (if text_eq id j then none else get j m)
  get_absent id j m h = ground (arith, text_eq_iff id j)

  -- Removing an id tells whether it was there, closes exactly the entry that it named, and then the
  -- id finds nothing, while every other id finds what it found before; no id may stand twice.
  pub get-remove :
      (id j : Text) (m : Manager S)
      → IsRegistry m
      → ((remove id m).0 ≡ is_some (get id m))
        × ((remove id m).1.closed ≡ m.closed ++ found (get id m))
        × (get j (remove id m).1 ≡ (if text_eq id j then none else get j m))
  get-remove id j m h = elim (Option-cases (get id m)) [
    | inl e ↦
        rw (remove_absent id m e) (rw e (refl, sym (append-nil m.closed), get_absent id j m e))
    | inr (s, e) ↦ rw (remove_present id m e) (rw e (refl, refl, get-delete_session id j m _ h))
  ]

  abbrev pub entries : Map (SessionEntry S) → List (SessionEntry S)
  entries [] = []
  entries ((k, e) ∷ m) = e ∷ entries m

  get_head :
      (k : Text) (e : SessionEntry S) (l : Map (SessionEntry S)) (c : List (SessionEntry S))
      → get k (record { sessions = (k, e) ∷ l; closed = c }) ≡ some e
  unfolding get Map.get
  get_head k e l c = rw (text_eq_refl k)

  delete_head :
      (k : Text) (e : SessionEntry S) (l : Map (SessionEntry S)) → Map.delete k ((k, e) ∷ l) ≡ l
  unfolding Map.delete
  delete_head k e l = rw (text_eq_refl k)

  remove_head :
      (k : Text) (e : SessionEntry S) (l : Map (SessionEntry S)) (c : List (SessionEntry S))
      → (remove k (record { sessions = (k, e) ∷ l; closed = c })).1
        ≡ record { sessions = l; closed = c ++ e ∷ [] }
  remove_head k e l c =
      rw (remove_present k (record { sessions = (k, e) ∷ l; closed = c }) (get_head k e l c))
        (rw (delete_head k e l))

  remove_all-cons :
      (id : Text) (ids : List Text) (m : Manager S)
      → remove_all (id ∷ ids) m ≡ remove_all ids (remove id m).1
  unfolding remove_all
  remove_all-cons id ids m = refl

  remove_all-nil : (m : Manager S) → remove_all [] m ≡ m
  unfolding remove_all
  remove_all-nil m = refl

  remove_all-keys :
      (l : Map (SessionEntry S)) (c : List (SessionEntry S))
      → remove_all (Map.keys l) (record { sessions = l; closed = c })
        ≡ record { sessions = []; closed = c ++ entries l }
  remove_all-keys [] c = rw (remove_all-nil, append-nil)
  remove_all-keys ((k, e) ∷ l) c = rw (
    remove_all-cons,
    remove_head k e l c,
    remove_all-keys l (c ++ e ∷ []),
    append_assoc c (e ∷ []) (entries l),
  )

  -- Closing all leaves no session, and closes each session that was live once, in the order in which
  -- they stand.
  pub close_all_lem :
      (m : Manager S)
      → ((close_all m).sessions ≡ []) × ((close_all m).closed ≡ m.closed ++ entries m.sessions)
  unfolding close_all
  close_all_lem m =
      let e = remove_all-keys m.sessions m.closed in (ap (λ r. r.sessions) e, ap (λ r. r.closed) e)
