-- ===== src/Web/Files/Sorting.antt =====
-- packages/web/src/features/desktop/apps/FilesApp.tsx: the order of the listing. `localeCompare` is a
-- parameter, `name_leb`, which tells whether it gives no positive number.
use desk_ssh.Base.{
  Bool, true, false, not, ◌&&◌, List, [], ◌∷◌, if◌then◌else◌, ◌≡◌, arith, All, All-imp,
}
use mathlib.Core.List.{Perm}
use desk_ssh.Js.Text.{Text}
use desk_ssh.Js.Sort.{sort, sort-perm, IsOrdered, sort-IsOrdered}
use desk_ssh.Core.Types.{FileType, FileEntry, directory}

abbrev pub is_directory : FileType → Bool
is_directory directory = true
is_directory _ = false

module _ (name_leb : Text → Text → Bool) where
  -- The comparison gives no positive number.
  unfoldable pub entry_leb : FileEntry → FileEntry → Bool
  entry_leb a b =
      if is_directory a.type && not (is_directory b.type)
      then true
      else if not (is_directory a.type) && is_directory b.type
      then false
      else name_leb a.name b.name

  unfoldable pub sort_entries : List FileEntry → List FileEntry
  unfolding sort entry_leb
  sort_entries entries = sort entry_leb entries

  -- A directory stands behind directories only, and within a kind the names ascend.
  abbrev pub Precedes : FileEntry → FileEntry → Type 0
  Precedes x y =
      (is_directory y.type ≡ true → is_directory x.type ≡ true)
      × (is_directory x.type ≡ is_directory y.type → name_leb x.name y.name ≡ true)

  abbrev pub IsListing : List FileEntry → Type 0
  IsListing [] = Unit
  IsListing (x ∷ xs) = All (Precedes x) xs × IsListing xs

  entry_leb-Precedes : (x y : FileEntry) → entry_leb x y ≡ true → Precedes x y
  unfolding entry_leb
  entry_leb-Precedes x y h = (λ d. ground arith, λ e. ground arith)

  IsOrdered-IsListing : (xs : List FileEntry) → IsOrdered entry_leb xs → IsListing xs
  IsOrdered-IsListing [] h = tt
  IsOrdered-IsListing (x ∷ xs) (b, h) =
      (All-imp _ _ (entry_leb-Precedes x) xs b, IsOrdered-IsListing xs h)

  module _
      (trans : (a b c : Text) → name_leb a b ≡ true → name_leb b c ≡ true → name_leb a c ≡ true)
      (total : (a b : Text) → name_leb a b ≡ false → name_leb b a ≡ true) where
    entry_trans :
        (a b c : FileEntry) → entry_leb a b ≡ true → entry_leb b c ≡ true → entry_leb a c ≡ true
    unfolding entry_leb
    entry_trans a b c h k = ground (arith, trans a.name b.name c.name)

    entry_total : (a b : FileEntry) → entry_leb a b ≡ false → entry_leb b a ≡ true
    unfolding entry_leb
    entry_total a b h = ground (arith, total a.name b.name)

    -- If the comparison of names is transitive and total: the sorted listing has the same entries;
    -- directories stand in front of all others, and within each of the two kinds the names ascend.
    pub sort_entries-IsListing :
        (xs : List FileEntry) → Perm (sort_entries xs) xs × IsListing (sort_entries xs)
    unfolding sort_entries
    sort_entries-IsListing xs = (
      sort-perm entry_leb xs,
      IsOrdered-IsListing (sort entry_leb xs) (sort-IsOrdered entry_leb entry_trans entry_total xs),
    )
