-- ===== src/Js/Number.antt =====
-- Numbers read from text: `parseInt`, `parseFloat`, `Math.round`, and decimal printing. A float is an
-- exact ratio here, where JavaScript rounds to 53 bits; the two agree on integers below 2 ^ 53.
pub mod Radix
pub mod Decimal
use desk_ssh.Base.{
  ℕ, zero, suc, ◌+◌, ◌-◌, ◌*◌, ◌/◌, ◌%◌, ◌^◌, Bool, true, false, List, [], ◌∷◌, ◌++◌, Option, none,
  some, ltb, leb, ◌==◌, if◌then◌else◌, ◌&&◌, length,
}
use desk_ssh.Js.Text.{Text, codes, trim_start, span, is_digit, starts_with}

-- `negsuc n` is -(n + 1).
pub data ℤ : Type 0 where
  pos : ℕ → ℤ
  negsuc : ℕ → ℤ

-- The integer of a sign and a size.
unfoldable pub signed : Bool → ℕ → ℤ
signed false n = pos n
signed true zero = pos 0
signed true (suc n) = negsuc n

-- The digits of a number in a radix up to ten; the fuel is above the number.
unfoldable pub digits : ℕ → ℕ → ℕ → Text
digits radix zero n = []
digits radix (suc f) n =
    let more = digits radix f (n / radix) ++ (b'0' + n % radix) ∷ [] in
    if ltb n radix then (b'0' + n) ∷ [] else more

-- `n.toString(radix)`, and `String(n)` at ten.
unfoldable pub to_radix : ℕ → ℕ → Text
unfolding digits
to_radix radix n = digits radix (suc n) n

unfoldable pub show : ℕ → Text
unfolding to_radix
show n = to_radix 10 n

-- The digits of a radix up to ten.
unfoldable pub is_digit_of : ℕ → ℕ → Bool
is_digit_of radix c = leb b'0' c && ltb c (b'0' + radix)

-- What digits spell behind `acc`.
unfoldable pub value : ℕ → ℕ → Text → ℕ
value radix acc [] = acc
value radix acc (c ∷ s) = value radix (acc * radix + (c - b'0')) s

-- An optional sign, `true` for minus, and what follows it.
unfoldable pub take_sign : Text → Bool × Text
take_sign [] = (false, [])
take_sign (c ∷ s) =
    if c == b'-' then (true, s) else if c == b'+' then (false, s) else (false, c ∷ s)

unfoldable pub int_of_digits : ℕ → Bool → Text → Option ℤ
unfolding value signed
int_of_digits radix neg [] = none
int_of_digits radix neg (c ∷ s) = some (signed neg (value radix 0 (c ∷ s)))

-- `Number.parseInt(s, radix)` for a radix up to ten, `none` for NaN.
unfoldable pub parse_int : ℕ → Text → Option ℤ
unfolding take_sign int_of_digits is_digit_of trim_start span
parse_int radix s =
    let signed_text = take_sign (trim_start s) in
    int_of_digits radix signed_text.0 (span (is_digit_of radix) signed_text.1).0

-- `ratio neg n d` is n / d with its sign; `infinity` carries its sign.
pub data Num : Type 0 where
  nan : Num
  infinity : Bool → Num
  ratio : Bool → ℕ → ℕ → Num

-- The digits behind a decimal point, if there is one, and what follows.
fraction : Text → Text × Text
unfolding span is_digit
fraction [] = ([], [])
fraction (c ∷ s) = if c == b'.' then span is_digit s else ([], c ∷ s)

-- An exponent `e±digits`; a malformed one is no part of the number.
exponent : Text → Bool × ℕ
unfolding value take_sign span is_digit
exponent [] = (false, 0)
exponent (c ∷ s) =
    let signed_text = take_sign s in
    let power = value 10 0 (span is_digit signed_text.1).0 in
    if (if c == b'e' then true else c == b'E') then (signed_text.0, power) else (false, 0)

abbrev scaled : Bool → Text → Text → Bool × ℕ → Num
scaled neg whole frac (down, power) =
    let n = value 10 (value 10 0 whole) frac in
    if down
    then ratio neg n (10 ^ (length frac + power))
    else ratio neg (n * 10 ^ power) (10 ^ length frac)

unsigned_float : Bool → Text → Num
unfolding fraction exponent span is_digit starts_with value
unsigned_float neg s =
    let whole = (span is_digit s).0 in
    let rest = fraction (span is_digit s).1 in
    if starts_with s (codes "Infinity")
    then infinity neg
    else elim (whole ++ rest.0) [ [] ↦ nan | c ∷ t ↦ scaled neg whole rest.0 (exponent rest.1) ]

-- `parseFloat(s)`.
unfoldable pub parse_float : Text → Num
unfolding unsigned_float take_sign trim_start
parse_float s =
    let signed_text = take_sign (trim_start s) in unsigned_float signed_text.0 signed_text.1

-- `x * k`.
unfoldable pub scale : ℕ → Num → Num
scale k nan = nan
scale k (infinity neg) = infinity neg
scale k (ratio neg n d) = ratio neg (n * k) d

-- `Math.round(x)`: the nearest integer, halves towards plus infinity.
unfoldable pub round : Num → Num
round nan = nan
round (infinity neg) = infinity neg
round (ratio false n d) = ratio false ((2 * n + d) / (2 * d)) 1
round (ratio true n d) = ratio true ((2 * n + d - 1) / (2 * d)) 1

-- `x || 0` on a number.
unfoldable pub num_or_zero : Num → Num
num_or_zero nan = ratio false 0 1
num_or_zero (infinity neg) = infinity neg
num_or_zero (ratio neg n d) = ratio neg n d

-- `String(n)` of an integer.
unfoldable pub show_int : ℤ → Text
unfolding show
show_int (pos n) = show n
show_int (negsuc n) = b'-' ∷ show (suc n)

-- `a - b` of two numbers that are not negative.
unfoldable pub difference : ℕ → ℕ → ℤ
difference a b = if leb b a then pos (a - b) else negsuc (b - a - 1)

-- `a + b`, `-a` and `a - b` of integers.
unfoldable pub plus : ℤ → ℤ → ℤ
unfolding difference
plus (pos a) (pos b) = pos (a + b)
plus (pos a) (negsuc b) = difference a (suc b)
plus (negsuc a) (pos b) = difference b (suc a)
plus (negsuc a) (negsuc b) = negsuc (a + b + 1)

unfoldable pub negated : ℤ → ℤ
negated (pos zero) = pos zero
negated (pos (suc n)) = negsuc n
negated (negsuc n) = pos (suc n)

unfoldable pub minus : ℤ → ℤ → ℤ
unfolding plus negated
minus a b = plus a (negated b)

-- `Math.max(low, a)` where `low` is not negative.
unfoldable pub at_least : ℕ → ℤ → ℤ
at_least low (pos n) = pos (if ltb n low then low else n)
at_least low (negsuc n) = pos low
