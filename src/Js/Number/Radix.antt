-- ===== src/Js/Number/Radix.antt =====
-- Printing a number in a radix and reading it back.
use native.Mathlib.Nat.{div-add-mod', div-lt_self, mod-lt}
use desk_ssh.Base.{
  ℕ, zero, suc, ◌+◌, ◌-◌, ◌*◌, ◌/◌, ◌%◌, ◌≤◌, ◌<◌, Bool, true, false, [], ◌∷◌, ◌++◌, some, ◌≡◌,
  refl, arith, ltb, All, All-append, ◌≢◌, Bool-cases, inl, inr,
}
use desk_ssh.Js.Text.{Text, trim_start, span, is_space}
use desk_ssh.Js.Number.{digits, to_radix, show, value, is_digit_of, take_sign, parse_int, pos}

value-append :
    (radix acc : ℕ) (s t : Text) → value radix acc (s ++ t) ≡ value radix (value radix acc s) t
unfolding value
value-append radix acc [] t = refl
value-append radix acc (c ∷ s) t = value-append radix (acc * radix + (c - b'0')) s t

value-digits : (radix f n : ℕ) → 2 ≤ radix → n < f → value radix 0 (digits radix f n) ≡ n
unfolding digits
value-digits radix zero n h k = absurd (omega arith)
value-digits radix (suc f) n h k = elim (Bool-cases (ltb n radix)) [
  | inl e ↦ rw e (unfold value in omega arith)
  | inr e ↦
      rw (e, value-append, value-digits radix f (n / radix) h (div_fits f n h (ground arith) k))
        (unfold value in omega (arith, div-add-mod' n radix))
]
  where
    div_fits : (f n : ℕ) → 2 ≤ radix → radix ≤ n → n < suc f → n / radix < f
    div_fits f n h j k = omega (arith, div-lt_self {n = n} {k = radix} (omega arith) h)

abbrev pub AllDigits : ℕ → Text → Type 0
AllDigits radix = All (λ c. is_digit_of radix c ≡ true)

digit-lt : (radix d : ℕ) → d < radix → is_digit_of radix (b'0' + d) ≡ true
unfolding is_digit_of
digit-lt radix d h = ground arith

digits-AllDigits : (radix f n : ℕ) → 0 < radix → AllDigits radix (digits radix f n)
unfolding digits
digits-AllDigits radix zero n h = tt
digits-AllDigits radix (suc f) n h = elim (Bool-cases (ltb n radix)) [
  | inl e ↦ rw e (digit-lt radix n (ground arith), tt)
  | inr e ↦ rw e (
      All-append _ (digits radix f (n / radix)) _ (digits-AllDigits radix f (n / radix) h)
        (digit-lt radix (n % radix) (mod-lt n h), tt))
]

append-cons-ne-nil : (s : Text) (c : ℕ) → s ++ c ∷ [] ≢ []
append-cons-ne-nil [] c = λ h. cc
append-cons-ne-nil (d ∷ s) c = λ h. cc

digits-ne-nil : (radix f n : ℕ) → digits radix (suc f) n ≢ []
unfolding digits
digits-ne-nil radix f n =
    ground (arith, append-cons-ne-nil (digits radix f (n / radix)) (b'0' + n % radix))

-- The longest run of units that pass a test, when all do, or when one that fails follows.
pub span-All : (p : ℕ → Bool) (s : Text) → All (λ c. p c ≡ true) s → span p s ≡ (s, [])
unfolding span
span-All p [] h = refl
span-All p (c ∷ s) (e, h) = rw (e, span) (rw (span-All p s h))

pub span-append :
    (p : ℕ → Bool) (s : Text) (c : ℕ) (t : Text)
    → All (λ d. p d ≡ true) s
    → p c ≡ false
    → span p (s ++ c ∷ t) ≡ (s, c ∷ t)
unfolding span
span-append p [] c t h e = rw e
span-append p (d ∷ s) c t (k, h) e = rw (k, span-append p s c t h e)

pub take_sign_of_digit :
    (radix c : ℕ) (s : Text) → is_digit_of radix c ≡ true → take_sign (c ∷ s) ≡ (false, c ∷ s)
unfolding take_sign is_digit_of
take_sign_of_digit radix c s h = ground arith

pub trim_start_of_digit :
    (radix c : ℕ) (s : Text) → radix ≤ 10 → is_digit_of radix c ≡ true → trim_start (c ∷ s) ≡ c ∷ s
unfolding trim_start is_space is_digit_of
trim_start_of_digit radix c s k h = ground arith

parse_int_of_AllDigits :
    (radix : ℕ) (s : Text)
    → radix ≤ 10
    → s ≢ []
    → AllDigits radix s
    → parse_int radix s ≡ some (pos (value radix 0 s))
unfolding parse_int
parse_int_of_AllDigits radix [] k h d = absurd (h refl)
parse_int_of_AllDigits radix (c ∷ s) k h d = rw (
  trim_start_of_digit radix c s k d.0,
  take_sign_of_digit radix c s d.0,
  span-All (is_digit_of radix) (c ∷ s) d,
)

-- A number printed in a radix between two and ten is read back by `parseInt` in that radix.
pub parse_int-to_radix :
    (radix n : ℕ) → 2 ≤ radix → radix ≤ 10 → parse_int radix (to_radix radix n) ≡ some (pos n)
unfolding to_radix
parse_int-to_radix radix n h k = rw (
  parse_int_of_AllDigits radix (digits radix (suc n) n) k (digits-ne-nil radix n n)
      (digits-AllDigits radix (suc n) n (omega arith)),
  value-digits radix (suc n) n h (omega arith),
)

pub value-show : (n : ℕ) → value 10 0 (show n) ≡ n
unfolding show to_radix
value-show n = value-digits 10 (suc n) n (omega arith) (omega arith)

-- The digits of a number hold no unit that is not a digit.
pub AllDigits-to_radix : (radix n : ℕ) → 0 < radix → AllDigits radix (to_radix radix n)
unfolding to_radix
AllDigits-to_radix radix n h = digits-AllDigits radix (suc n) n h

pub AllDigits-show : (n : ℕ) → AllDigits 10 (show n)
unfolding show
AllDigits-show n = AllDigits-to_radix 10 n (omega arith)

pub show-ne-nil : (n : ℕ) → show n ≢ []
unfolding show
show-ne-nil n = digits-ne-nil 10 n n
