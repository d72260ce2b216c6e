-- ===== src/Core/Debian/Sections/Words.antt =====
-- Words with one space between them, trimmed and split again.
use desk_ssh.Base.{
  ℕ, Bool, true, false, List, [], ◌∷◌, ◌++◌, append-nil, ◌≡◌, refl, sym, ◌∙◌, ap, arith, All,
  All-append, All-imp, all, ◌&&◌, if◌then◌else◌,
}
use mathlib.Core.Path.{subst}
use desk_ssh.Js.Text.{
  Text, Parts, parts, to_list, cons_part, new_part, trim, trim_start, trim_end, is_space, join,
  non_empty,
}
use desk_ssh.Js.Regex.{space_parts, split_spaces, is_not_space}
use desk_ssh.Js.Text.Split.{Lacks}
use desk_ssh.Core.Debian.Files.{newline}
use desk_ssh.Core.Debian.Processes.Columns.{IsRun, IsRun-of_test, not_newline, not_space}

-- No unit of the word is a space, and there is one.
abbrev pub IsWord : Text → Type 0
IsWord [] = ⊥
IsWord (c ∷ s) = All (λ d. is_space d ≡ false) (c ∷ s)

abbrev pub AreWords : List Text → Type 0
AreWords [] = ⊥
AreWords (w ∷ ws) = All IsWord (w ∷ ws)

abbrev prefixed : Text → Parts → Parts
prefixed [] ps = ps
prefixed (c ∷ w) ps = cons_part c (prefixed w ps)

space_parts-cons :
    (b : Bool) (c : ℕ) (s : Text)
    → is_space c ≡ false
    → space_parts b (c ∷ s) ≡ cons_part c (space_parts false s)
unfolding space_parts
space_parts-cons b c s h = rw (space_parts, h)

space_parts-append :
    (w s : Text)
    → All (λ d. is_space d ≡ false) w
    → space_parts false (w ++ s) ≡ prefixed w (space_parts false s)
space_parts-append [] s h = refl
space_parts-append (c ∷ w) s (h, hs) =
    space_parts-cons false c (w ++ s) h ∙ ap (cons_part c) (space_parts-append w s hs)

space_parts-space : (s : Text) → space_parts false (32 ∷ s) ≡ new_part (space_parts true s)
unfolding space_parts is_space
space_parts-space s = refl

space_parts_any :
    (b : Bool) (w s : Text) → IsWord w → space_parts b (w ++ s) ≡ prefixed w (space_parts false s)
space_parts_any b [] s h = absurd h
space_parts_any b (c ∷ w) s (h, hs) =
    space_parts-cons b c (w ++ s) h ∙ ap (cons_part c) (space_parts-append w s hs)

prefixed-parts : (w p : Text) (ps : List Text) → prefixed w (parts p ps) ≡ parts (w ++ p) ps
prefixed-parts [] p ps = refl
prefixed-parts (c ∷ w) p ps = ap (cons_part c) (prefixed-parts w p ps)

to_list-new_part : (w : Text) (ps : Parts) → to_list (prefixed w (new_part ps)) ≡ w ∷ to_list ps
to_list-new_part w (parts p ps) =
    ap to_list (prefixed-parts w [] (p ∷ ps)) ∙ ap (λ v. v ∷ p ∷ ps) (append-nil w)

space_parts-nil : (b : Bool) → space_parts b [] ≡ parts [] []
unfolding space_parts
space_parts-nil b = refl

space_parts-join :
    (b : Bool) (ws : List Text) → AreWords ws → to_list (space_parts b (join (32 ∷ []) ws)) ≡ ws
unfolding join
space_parts-join b [] h = absurd h
space_parts-join b (w ∷ []) (h, hs) =
    ap (λ (s : Text). to_list (space_parts b s)) (sym (append-nil w))
    ∙ ap to_list (space_parts_any b w [] h)
    ∙ ap (λ ps. to_list (prefixed w ps)) (space_parts-nil false)
    ∙ ap to_list (prefixed-parts w [] [])
    ∙ ap (λ v. v ∷ []) (append-nil w)
space_parts-join b (w ∷ v ∷ vs) (h, hs) =
    ap to_list (space_parts_any b w _ h)
    ∙ ap (λ ps. to_list (prefixed w ps)) (space_parts-space (join (32 ∷ []) (v ∷ vs)))
    ∙ to_list-new_part w (space_parts true (join (32 ∷ []) (v ∷ vs)))
    ∙ ap (λ us. w ∷ us) (space_parts-join true (v ∷ vs) hs)

pub split_spaces-join : (ws : List Text) → AreWords ws → split_spaces (join (32 ∷ []) ws) ≡ ws
unfolding split_spaces
split_spaces-join ws h = space_parts-join false ws h

-- What `trim_end` puts in front of what it makes of the rest.
trimmed : ℕ → Text → Text
trimmed c [] = if is_space c then [] else c ∷ []
trimmed c (d ∷ t) = c ∷ d ∷ t

trim_end-cons : (c : ℕ) (s : Text) → trim_end (c ∷ s) ≡ trimmed c (trim_end s)
unfolding trim_end trimmed
trim_end-cons c s = go (trim_end s)
  where
    go :
        (t : Text)
        → (elim t as (λ x. Text) [ [] ↦ if is_space c then [] else c ∷ [] | d ∷ r ↦ c ∷ d ∷ r ])
          ≡ trimmed c t
    go [] = refl
    go (d ∷ r) = refl

pub trim_end-append :
    (s : Text) (d : ℕ) (t : Text) → trim_end (d ∷ t) ≡ d ∷ t → trim_end (s ++ d ∷ t) ≡ s ++ d ∷ t
trim_end-append [] d t h = h
trim_end-append (c ∷ s) d t h =
    trim_end-cons c (s ++ d ∷ t) ∙ ap (trimmed c) (trim_end-append s d t h) ∙ full s
  where
    full : (r : Text) → trimmed c (r ++ d ∷ t) ≡ c ∷ (r ++ d ∷ t)
    full [] = unfold trimmed in refl
    full (e ∷ r) = unfold trimmed in refl

trim_end-nil : trim_end [] ≡ []
unfolding trim_end
trim_end-nil = refl

trim_end-word : (w : Text) → All (λ d. is_space d ≡ false) w → trim_end w ≡ w
unfolding trimmed
trim_end-word [] h = trim_end-nil
trim_end-word (c ∷ []) (h, hs) = trim_end-cons c [] ∙ ap (trimmed c) trim_end-nil ∙ rw h
trim_end-word (c ∷ d ∷ w) (h, hs) =
    trim_end-cons c (d ∷ w) ∙ ap (trimmed c) (trim_end-word (d ∷ w) hs)

-- Words that are joined begin with a unit that is no space.
abbrev pub BeginsWord : Text → Type 0
BeginsWord s = (d : ℕ) × ((t : Text) × ((s ≡ d ∷ t) × (is_space d ≡ false)))

join-BeginsWord : (ws : List Text) → AreWords ws → BeginsWord (join (32 ∷ []) ws)
unfolding join
join-BeginsWord [] h = absurd h
join-BeginsWord ([] ∷ ws) (h, hs) = absurd h
join-BeginsWord ((c ∷ w) ∷ []) ((h, hs), _) = (c, (w, (refl, h)))
join-BeginsWord ((c ∷ w) ∷ v ∷ vs) ((h, hs), _) = (c, (_, (refl, h)))

trim_end_behind :
    (w s : Text) → BeginsWord s → trim_end s ≡ s → trim_end (w ++ 32 ∷ s) ≡ w ++ 32 ∷ s
trim_end_behind w s (d, (t, (e, h))) =
    subst (λ u. trim_end u ≡ u → trim_end (w ++ 32 ∷ u) ≡ w ++ 32 ∷ u) (sym e)
      (λ k. trim_end-append w 32 (d ∷ t) (trim_end-append (32 ∷ []) d t k))

IsWord-units : (w : Text) → IsWord w → All (λ d. is_space d ≡ false) w
IsWord-units [] h = tt
IsWord-units (c ∷ w) h = h

trim_end-join : (ws : List Text) → AreWords ws → trim_end (join (32 ∷ []) ws) ≡ join (32 ∷ []) ws
unfolding join
trim_end-join [] h = absurd h
trim_end-join (w ∷ []) (h, hs) = trim_end-word w (IsWord-units w h)
trim_end-join (w ∷ v ∷ vs) (h, hs) =
    trim_end_behind w (join (32 ∷ []) (v ∷ vs)) (join-BeginsWord (v ∷ vs) hs)
      (trim_end-join (v ∷ vs) hs)

pub trim_start-BeginsWord : (s : Text) → BeginsWord s → trim_start s ≡ s
unfolding trim_start
trim_start-BeginsWord s (d, (t, (e, h))) =
    subst (λ u. trim_start u ≡ u) (sym e) (rw (h, trim_start))

pub trim-join : (ws : List Text) → AreWords ws → trim (join (32 ∷ []) ws) ≡ join (32 ∷ []) ws
unfolding trim
trim-join ws h =
    ap trim_end (trim_start-BeginsWord (join (32 ∷ []) ws) (join-BeginsWord ws h))
    ∙ trim_end-join ws h

-- Words that are joined hold no line end.
IsWord-Lacks : (w : Text) → IsWord w → Lacks newline w
IsWord-Lacks [] h = tt
IsWord-Lacks (c ∷ w) h = All-imp _ _ not_newline (c ∷ w) h

pub join-Lacks : (ws : List Text) → AreWords ws → Lacks newline (join (32 ∷ []) ws)
unfolding join
join-Lacks [] h = absurd h
join-Lacks (w ∷ []) (h, hs) = IsWord-Lacks w h
join-Lacks (w ∷ v ∷ vs) (h, hs) =
    All-append _ w _ (IsWord-Lacks w h) ((omega arith), join-Lacks (v ∷ vs) hs)

pub IsWord-run :
    (p : ℕ → Bool) (s : Text) → ((c : ℕ) → p c ≡ true → is_space c ≡ false) → IsRun p s → IsWord s
IsWord-run p [] f r = absurd (r.some_unit refl)
IsWord-run p (c ∷ s) f r = All-imp _ _ f (c ∷ s) r.units

-- A test of a word, for a text that is given.
pub IsWord-of_test : (s : Text) → (non_empty s && all is_not_space s) ≡ true → IsWord s
IsWord-of_test [] h = cc
IsWord-of_test (c ∷ s) h =
    IsWord-run is_not_space (c ∷ s) not_space (IsRun-of_test is_not_space c s h)
