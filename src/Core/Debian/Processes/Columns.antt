-- ===== src/Core/Debian/Processes/Columns.antt =====
-- Columns of a line, and the regular expressions that read them.
use desk_ssh.Base.{
  ℕ, zero, suc, Bool, true, false, [], ◌∷◌, ◌++◌, ◌≡◌, ◌≢◌, refl, ◌∙◌, arith, All, All-append,
  All-imp, ap, none, some, all, any, Option, if◌then◌else◌,
}
use desk_ssh.Js.Text.{Text, trim, trim_start, trim_end, non_empty, span, is_space, is_digit}
use desk_ssh.Js.Text.Split.{Lacks}
use desk_ssh.Js.Number.{pos, show, parse_int, is_digit_of}
use desk_ssh.Js.Number.Radix.{AllDigits-show, parse_int-to_radix, span-append, show-ne-nil}
use desk_ssh.Js.Regex.{some_run, some_spaces, is_float_unit, is_line_end, is_not_space, ◌>>=◌}
use desk_ssh.Core.Debian.Files.{newline}
use desk_ssh.Core.Debian.Processes.{is_not_blank}

abbrev pub spaces : ℕ → Text
spaces zero = []
spaces (suc n) = 32 ∷ spaces n

-- A column behind at least one space.
abbrev pub column : ℕ → Text → Text → Text
column pad s rest = 32 ∷ (spaces pad ++ (s ++ rest))

-- A text of units that pass a test, and not empty.
pub record IsRun (p : ℕ → Bool) (s : Text) : Type 0 where
  pub some_unit : s ≢ []
  pub units : All (λ c. p c ≡ true) s

All-of_test : (p : ℕ → Bool) (s : Text) → all p s ≡ true → All (λ c. p c ≡ true) s
All-of_test p [] h = tt
All-of_test p (c ∷ s) h = ground (arith, All-of_test p s)

-- A test of the same, for a text that is given.
pub IsRun-of_test : (p : ℕ → Bool) (c : ℕ) (s : Text) → all p (c ∷ s) ≡ true → IsRun p (c ∷ s)
IsRun-of_test p c s h = record { some_unit = λ e. cc; units = All-of_test p (c ∷ s) h }

abbrev pub NoSpaceFirst : Text → Type 0
NoSpaceFirst [] = Unit
NoSpaceFirst (c ∷ s) = is_space c ≡ false

pub span-spaces :
    (n : ℕ) (s : Text) → NoSpaceFirst s → span is_space (spaces n ++ s) ≡ (spaces n, s)
unfolding span is_space
span-spaces zero [] h = refl
span-spaces zero (c ∷ s) h = rw (h, span)
span-spaces (suc n) s h = rw (span-spaces n s h)

pub NoSpaceFirst-run :
    (p : ℕ → Bool) (s t : Text)
    → ((c : ℕ) → p c ≡ true → is_space c ≡ false)
    → IsRun p s
    → NoSpaceFirst (s ++ t)
NoSpaceFirst-run p [] t f r = absurd (r.some_unit refl)
NoSpaceFirst-run p (c ∷ s) t f r = f c r.units.0

pub some_spaces-gap :
    (n : ℕ) (s : Text) → NoSpaceFirst s → some_spaces (32 ∷ (spaces n ++ s)) ≡ some s
unfolding some_spaces is_space
some_spaces-gap n s h = ap (λ (x : Text × Text). some x.1) (span-spaces (suc n) s h)

abbrev picked : Text × Text → Option (Text × Text)
picked run = elim run.0 [ [] ↦ none | c ∷ r ↦ some (c ∷ r, run.1) ]

some_run_of :
    (p : ℕ → Bool) (text : Text) (c : ℕ) (s t : Text)
    → span p text ≡ (c ∷ s, t)
    → some_run p text ≡ some (c ∷ s, t)
unfolding some_run
some_run_of p text c s t e = ap picked e

pub some_run-stop :
    (p : ℕ → Bool) (s : Text) (d : ℕ) (t : Text)
    → p d ≡ false
    → IsRun p s
    → some_run p (s ++ d ∷ t) ≡ some (s, d ∷ t)
some_run-stop p [] d t e r = absurd (r.some_unit refl)
some_run-stop p (c ∷ s) d t e r = some_run_of p _ c s (d ∷ t) (span-append p (c ∷ s) d t r.units e)

pub some_run-column :
    (p : ℕ → Bool) (s t : Text)
    → p 32 ≡ false
    → IsRun p s
    → some_run p (s ++ 32 ∷ t) ≡ some (s, 32 ∷ t)
some_run-column p s t e r = some_run-stop p s 32 t e r

pub digit_not_space : (c : ℕ) → is_digit c ≡ true → is_space c ≡ false
unfolding is_digit is_space
digit_not_space c h = ground arith

pub float_not_space : (c : ℕ) → is_float_unit c ≡ true → is_space c ≡ false
unfolding is_float_unit is_digit is_space
float_not_space c h = ground arith

pub not_space : (c : ℕ) → is_not_space c ≡ true → is_space c ≡ false
not_space c h = ground arith

pub digit_of : (c : ℕ) → is_digit_of 10 c ≡ true → is_digit c ≡ true
unfolding is_digit_of is_digit
digit_of c h = ground arith

pub show-IsRun : (n : ℕ) → IsRun is_digit (show n)
show-IsRun n = record {
  some_unit = show-ne-nil n;
  units =
      All-imp (λ c. is_digit_of 10 c ≡ true) (λ c. is_digit c ≡ true) digit_of (show n)
        (AllDigits-show n);
}

pub bind :
    {A B : Type 0} {o : Option A} {a : A} {r : Option B} (k : A → Option B)
    → o ≡ some a
    → k a ≡ r
    → (o >>= k) ≡ r
bind k e f = ap (λ o. o >>= k) e ∙ f

pub parse_int-show : (n : ℕ) → parse_int 10 (show n) ≡ some (pos n)
unfolding show
parse_int-show n = parse_int-to_radix 10 n (omega arith) (omega arith)

pub spaces-Lacks : (n : ℕ) → Lacks newline (spaces n)
spaces-Lacks zero = tt
spaces-Lacks (suc n) = ((omega arith), spaces-Lacks n)

pub not_newline : (c : ℕ) → is_space c ≡ false → c ≢ newline
unfolding is_space
not_newline c h = ground arith

pub IsRun-Lacks :
    (p : ℕ → Bool) (s : Text)
    → ((c : ℕ) → p c ≡ true → is_space c ≡ false)
    → IsRun p s
    → Lacks newline s
IsRun-Lacks p s f r = All-imp _ _ (λ c h. not_newline c (f c h)) s r.units

pub Lacks-of_line : (s : Text) → any is_line_end s ≡ false → Lacks newline s
unfolding is_line_end
Lacks-of_line [] h = tt
Lacks-of_line (c ∷ s) h = (ground arith, Lacks-of_line s (ground arith))

pub column-Lacks :
    (pad : ℕ) (s rest : Text)
    → Lacks newline s
    → Lacks newline rest
    → Lacks newline (column pad s rest)
column-Lacks pad s rest h k =
    ((omega arith), All-append _ (spaces pad) _ (spaces-Lacks pad) (All-append _ s rest h k))

pub trim_end-non_empty :
    (c : ℕ) (s : Text) → is_space c ≡ false → non_empty (trim_end (c ∷ s)) ≡ true
unfolding trim_end
trim_end-non_empty c s h = go (trim_end s)
  where
    go :
        (t : Text)
        → non_empty
            (elim t as (λ x. Text) [ [] ↦ if is_space c then [] else c ∷ [] | d ∷ r ↦ c ∷ d ∷ r ])
          ≡ true
    go [] = rw h
    go (d ∷ r) = refl

pub trim_start-spaces : (n : ℕ) (s : Text) → trim_start (spaces n ++ s) ≡ trim_start s
unfolding trim_start is_space
trim_start-spaces zero s = refl
trim_start-spaces (suc n) s = trim_start-spaces n s

pub is_not_blank-spaces :
    (n : ℕ) (p : ℕ → Bool) (s t : Text)
    → ((c : ℕ) → p c ≡ true → is_space c ≡ false)
    → IsRun p s
    → is_not_blank (spaces n ++ (s ++ t)) ≡ true
unfolding trim trim_start
is_not_blank-spaces n p [] t f r = absurd (r.some_unit refl)
is_not_blank-spaces n p (c ∷ s) t f r =
    rw (trim_start-spaces n (c ∷ s ++ t), trim_start, f c r.units.0)
      (trim_end-non_empty c (s ++ t) (f c r.units.0))

pub blank_end : is_not_blank [] ≡ false
unfolding trim trim_start trim_end
blank_end = refl
