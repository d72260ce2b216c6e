-- ===== src/Js/Number/Decimal.antt =====
-- Reading a decimal number with a point.
use desk_ssh.Base.{
  ℕ, Bool, true, false, [], ◌∷◌, ◌++◌, length, ◌≡◌, ◌≢◌, refl, ◌∙◌, ap, arith, All, All-imp, ◌*◌,
  ◌^◌, if◌then◌else◌,
}
use desk_ssh.Js.Text.{Text, codes, is_digit, is_space, starts_with, trim_start}
use desk_ssh.Js.Number.{
  Num, ratio, nan, infinity, parse_float, value, show, is_digit_of, take_sign, unsigned_float,
  fraction, exponent, scaled,
}
use desk_ssh.Js.Number.Radix.{
  AllDigits, AllDigits-show, span-append, span-All, trim_start_of_digit, take_sign_of_digit,
  value-show, show-ne-nil,
}

-- A sign, the digits in front of the point, and the digits behind it.
unfoldable pub decimal : Bool → ℕ → Text → Text
decimal true n frac = b'-' ∷ (show n ++ b'.' ∷ frac)
decimal false n frac = show n ++ b'.' ∷ frac

digit_of : (c : ℕ) → is_digit_of 10 c ≡ true → is_digit c ≡ true
unfolding is_digit_of is_digit
digit_of c h = ground arith

units_of : (s : Text) → AllDigits 10 s → All (λ c. is_digit c ≡ true) s
units_of s d = All-imp (λ c. is_digit_of 10 c ≡ true) (λ c. is_digit c ≡ true) digit_of s d

not_infinity :
    (c : ℕ) (s : Text) → is_digit c ≡ true → starts_with (c ∷ s) (codes "Infinity") ≡ false
unfolding is_digit starts_with
not_infinity c s h = ground arith

point_not_digit : is_digit 46 ≡ false
unfolding is_digit
point_not_digit = refl

times_one : (n : ℕ) → n * 1 ≡ n
times_one n = omega arith

abbrev split_at_point : Bool → Text → Text × Text → Num
split_at_point neg s cut =
    let rest = fraction cut.1 in
    if starts_with s (codes "Infinity")
    then infinity neg
    else elim (cut.0 ++ rest.0) [ [] ↦ nan | c ∷ t ↦ scaled neg cut.0 rest.0 (exponent rest.1) ]

fraction-point : (frac : Text) → AllDigits 10 frac → fraction (46 ∷ frac) ≡ (frac, [])
unfolding fraction
fraction-point frac k = span-All is_digit frac (units_of frac k)

unsigned_float-decimal :
    (neg : Bool) (s frac : Text)
    → s ≢ []
    → AllDigits 10 s
    → AllDigits 10 frac
    → unsigned_float neg (s ++ 46 ∷ frac)
      ≡ ratio neg (value 10 (value 10 0 s) frac) (10 ^ length frac)
unfolding unsigned_float exponent
unsigned_float-decimal neg [] frac e h k = absurd (e refl)
unsigned_float-decimal neg (c ∷ s) frac e h k =
    ap (split_at_point neg (c ∷ s ++ 46 ∷ frac))
      (span-append is_digit (c ∷ s) 46 frac (units_of (c ∷ s) h) point_not_digit)
    ∙ rw (not_infinity c (s ++ 46 ∷ frac) (digit_of c h.0), fraction-point frac k)
        (ap (λ (n : ℕ). ratio neg n (10 ^ length frac))
          (times_one (value 10 (value 10 0 (c ∷ s)) frac)))

float_of_digits :
    (s frac : Text)
    → s ≢ []
    → AllDigits 10 s
    → parse_float (s ++ 46 ∷ frac) ≡ unsigned_float false (s ++ 46 ∷ frac)
unfolding parse_float
float_of_digits [] frac e h = absurd (e refl)
float_of_digits (c ∷ s) frac e h =
    ap (λ (t : Text). unsigned_float (take_sign t).0 (take_sign t).1)
      (trim_start_of_digit 10 c (s ++ 46 ∷ frac) (omega arith) h.0)
    ∙ ap (λ (t : Bool × Text). unsigned_float t.0 t.1)
        (take_sign_of_digit 10 c (s ++ 46 ∷ frac) h.0)

float_of_minus : (s : Text) → parse_float (45 ∷ s) ≡ unsigned_float true s
unfolding parse_float trim_start take_sign is_space
float_of_minus s = refl

-- A decimal is read as the quotient of all its digits and a power of ten.
pub parse_float-decimal :
    (neg : Bool) (n : ℕ) (frac : Text)
    → AllDigits 10 frac
    → parse_float (decimal neg n frac) ≡ ratio neg (value 10 n frac) (10 ^ length frac)
unfolding decimal
parse_float-decimal true n frac k =
    float_of_minus (show n ++ 46 ∷ frac)
    ∙ unsigned_float-decimal true (show n) frac (show-ne-nil n) (AllDigits-show n) k
    ∙ ap (λ (m : ℕ). ratio true (value 10 m frac) (10 ^ length frac)) (value-show n)
parse_float-decimal false n frac k =
    float_of_digits (show n) frac (show-ne-nil n) (AllDigits-show n)
    ∙ unsigned_float-decimal false (show n) frac (show-ne-nil n) (AllDigits-show n) k
    ∙ ap (λ (m : ℕ). ratio false (value 10 m frac) (10 ^ length frac)) (value-show n)
