-- ===== src/Base/Numbers.antt =====
-- Integers, and `parseInt`: `none` is NaN. A Number is exact here; the source reads no value at
-- which a double would round.
use Prim.Native.Nat.{ℕ, zero, suc, ◌+◌, ◌-◌, ◌*◌}
use mathlib.Core.Path.{◌≡◌, refl, ap, ◌∙◌}
use mathlib.Core.Bool.{Bool, true, false, ◌&&◌, ◌||◌, and-false}
use mathlib.Core.Option.{Option, none, some}
use mathlib.Core.List.{[], ◌∷◌}
use native.Mathlib.Omega.{arith}
use kafka_ui.Base.Tests.{ltb, leb, ◌==◌, if◌then◌else◌}
use kafka_ui.Base.Lists.{All}
use kafka_ui.Base.Strings.{Text, trim_start, is_space}

-- `negsuc n` is -(n + 1).
pub data ℤ : Type 0 where
  pos : ℕ → ℤ
  negsuc : ℕ → ℤ

abbrev pub negate : ℕ → ℤ
negate zero = pos 0
negate (suc n) = negsuc n

unfoldable pub is_digit : ℕ → Bool
is_digit c = leb b'0' c && leb c b'9'

digit_value : ℕ → ℕ → Option ℕ
digit_value radix c =
    let d =
      (if leb b'0' c && leb c b'9'
        then c - b'0'
        else if leb b'a' c && leb c b'z'
        then c - b'a' + 10
        else if leb b'A' c && leb c b'Z'
        then c - b'A' + 10
        else radix) in
    if ltb d radix then some d else none

-- The value of the longest run of digits, after those read so far.
read_digits : ℕ → Option ℕ → Text → Option ℕ
read_digits radix acc [] = acc
read_digits radix acc (c ∷ t) = elim (digit_value radix c) [
  | none ↦ acc
  | some d ↦ read_digits radix (some (elim acc [ none ↦ d | some n ↦ n * radix + d ])) t
]

-- A leading "0x" or "0X" selects base 16.
read_unsigned : Text → Option ℕ
read_unsigned [] = none
read_unsigned (c ∷ []) = read_digits 10 none (c ∷ [])
read_unsigned (c ∷ x ∷ t) =
    if c == b'0' && (x == b'x' || x == b'X')
    then read_digits 16 none t
    else read_digits 10 none (c ∷ x ∷ t)

read_signed : (Text → Option ℕ) → Text → Option ℤ
read_signed read [] = none
read_signed read (c ∷ t) =
    if c == b'-'
    then elim (read t) [ none ↦ none | some n ↦ some (negate n) ]
    else if c == b'+'
    then elim (read t) [ none ↦ none | some n ↦ some (pos n) ]
    else elim (read (c ∷ t)) [ none ↦ none | some n ↦ some (pos n) ]

unfoldable pub parse_int : Text → Option ℤ
unfolding read_signed read_unsigned read_digits digit_value
parse_int t = read_signed read_unsigned (trim_start t)

-- `parseInt(t, 10)`: with the radix given, "0x" selects no other.
unfoldable pub parse_int_radix_10 : Text → Option ℤ
unfolding read_signed read_digits digit_value
parse_int_radix_10 t = read_signed (read_digits 10 none) (trim_start t)

-- The value of a text of decimal digits.
unfoldable pub decimal_from : ℕ → Text → ℕ
decimal_from acc [] = acc
decimal_from acc (c ∷ t) = decimal_from (acc * 10 + (c - b'0')) t

unfoldable pub decimal : Text → ℕ
unfolding decimal_from
decimal t = decimal_from 0 t

abbrev pub IsDigits : Text → Type 0
IsDigits = All (λ c. is_digit c ≡ true)

digit_value_of_digit : (c : ℕ) → is_digit c ≡ true → digit_value 10 c ≡ some (c - b'0')
unfolding is_digit digit_value
digit_value_of_digit c h = ground arith

read_digits-eq-decimal_from :
    (acc : ℕ) (t : Text) → IsDigits t → read_digits 10 (some acc) t ≡ some (decimal_from acc t)
unfolding read_digits decimal_from
read_digits-eq-decimal_from acc [] h = refl
read_digits-eq-decimal_from acc (c ∷ t) (d, h) =
    rw (digit_value_of_digit c d, read_digits)
      (read_digits-eq-decimal_from (acc * 10 + (c - b'0')) t h)

read_digits_of_digits :
    (c : ℕ) (t : Text) → IsDigits (c ∷ t) → read_digits 10 none (c ∷ t) ≡ some (decimal (c ∷ t))
unfolding read_digits decimal decimal_from
read_digits_of_digits c t (d, h) =
    rw (digit_value_of_digit c d, read_digits)
      (read_digits-eq-decimal_from (c - b'0') t h ∙ ap (λ n. some (decimal_from n t)) (omega arith))

digit_not_space : (c : ℕ) → is_digit c ≡ true → is_space c ≡ false
unfolding is_digit is_space
digit_not_space c h = ground arith

read_unsigned_of_digits :
    (c : ℕ) (t : Text) → IsDigits (c ∷ t) → read_unsigned (c ∷ t) ≡ some (decimal (c ∷ t))
unfolding read_unsigned
read_unsigned_of_digits c [] h = read_digits_of_digits c [] h
read_unsigned_of_digits c (x ∷ t) h =
    let plain : (x == b'x' || x == b'X') ≡ false = unfold is_digit in ground (arith, h.1.0) in
    rw (plain, and-false (c == b'0')) (read_digits_of_digits c (x ∷ t) h)

-- On decimal digits `parseInt` is the decimal value.
pub parse_int_of_digits :
    (c : ℕ) (t : Text) → IsDigits (c ∷ t) → parse_int (c ∷ t) ≡ some (pos (decimal (c ∷ t)))
unfolding parse_int trim_start
parse_int_of_digits c t h =
    let minus : (c == b'-') ≡ false = unfold is_digit in ground (arith, h.0) in
    let plus : (c == b'+') ≡ false = unfold is_digit in ground (arith, h.0) in
    rw (digit_not_space c h.0, minus, plus, read_unsigned_of_digits c t h)
