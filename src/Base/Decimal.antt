-- ===== src/Base/Decimal.antt =====
-- std::to_string and std::from_chars on unsigned integers, in decimal.
use c_item.Base.Tests.{leb, ◌==◌, if◌then◌else◌, Bool-cases}
use c_item.Base.Lists.{length}
use Prim.Native.Nat.{ℕ, zero, suc, ◌+◌, ◌-◌, ◌*◌, ◌/◌, ◌%◌, ◌^◌, ◌≤◌, ◌<◌}
use mathlib.Core.Path.{◌≡◌, ap, ◌∙◌}
use mathlib.Core.Bool.{Bool, true, false, ◌&&◌}
use mathlib.Core.List.{List, [], ◌∷◌}
use mathlib.Core.Option.{Option, none, some}
use native.Mathlib.Nat.{pow-suc}
use mathlib.Core.Logic.{inl, inr}
use native.Mathlib.Omega.{arith}

abbrev pub digit : ℕ → ℕ
digit n = 48 + n % 10

-- The digits of `n` in front of `acc`, on fuel; 20 digits are enough for 64 bits.
unfoldable pub digits_before : ℕ → ℕ → List ℕ → List ℕ
digits_before zero n acc = acc
digits_before (suc f) n acc =
    let rest = digits_before f (n / 10) (digit n ∷ acc) in
    if n / 10 == 0 then digit n ∷ acc else rest

unfoldable pub to_decimal : ℕ → List ℕ
unfolding digits_before
to_decimal n = digits_before 20 n []

abbrev pub is_digit : ℕ → Bool
is_digit c = leb 48 c && leb c 57

-- The value of the leading digits, continuing `acc`, and the rest of the text.
unfoldable pub read_digits : List ℕ → ℕ → ℕ × List ℕ
read_digits [] acc = (acc, [])
read_digits (c ∷ s) acc =
    let rest = read_digits s (acc * 10 + (c - 48)) in if is_digit c then rest else (acc, c ∷ s)

-- The value where std::from_chars reads the whole text into an unsigned type of the given maximum:
-- `none` where it stops early, finds no digit, or the value is out of range.
abbrev is_end : List ℕ → Bool
is_end [] = true
is_end _ = false

abbrev starts_digit : List ℕ → Bool
starts_digit [] = false
starts_digit (c ∷ s) = is_digit c

unfoldable pub from_chars : ℕ → List ℕ → Option ℕ
from_chars max s =
    let (n, rest) = read_digits s 0 in
    if starts_digit s && is_end rest && leb n max then some n else none

read_digit :
    (n m : ℕ) (acc : List ℕ) → read_digits (digit n ∷ acc) m ≡ read_digits acc (m * 10 + n % 10)
unfolding read_digits
read_digit n m acc =
    let inside : is_digit (digit n) ≡ true = ground arith in
    let value : m * 10 + (digit n - 48) ≡ m * 10 + n % 10 = omega arith in
    rw inside (ap (read_digits acc) value)

-- Reading back the digits written before a text continues with that text.
read_digits-digits_before :
    (f n : ℕ) (acc : List ℕ)
    → n < 10 ^ f
    → read_digits (digits_before f n acc) 0 ≡ read_digits acc n
unfolding digits_before
read_digits-digits_before zero n acc h = ap (read_digits acc) (omega arith)
read_digits-digits_before (suc f) n acc h = elim (Bool-cases (n / 10 == 0)) [
  | inl e ↦ rw e (read_digit n 0 acc ∙ ap (read_digits acc) (ground arith))
  | inr e ↦ rw e (
      read_digits-digits_before f (n / 10) (digit n ∷ acc) (omega (arith, pow-suc 10 f))
      ∙ (read_digit n (n / 10) acc ∙ ap (read_digits acc) (omega arith)))
]

digits_before_starts : (f n : ℕ) (acc : List ℕ) → starts_digit (digits_before (suc f) n acc) ≡ true
unfolding digits_before
digits_before_starts zero n acc = ground arith
digits_before_starts (suc f) n acc = elim (Bool-cases (n / 10 == 0)) [
  | inl e ↦ rw e (ground arith)
  | inr e ↦ rw e (digits_before_starts f (n / 10) (digit n ∷ acc))
]

-- A number that fits is read back from its decimal text.
pub from_chars-to_decimal :
    (max n : ℕ) → n ≤ max → n < 10 ^ 20 → from_chars max (to_decimal n) ≡ some n
unfolding from_chars to_decimal read_digits
from_chars-to_decimal max n h k =
    rw (read_digits-digits_before 20 n [] k, digits_before_starts 19 n []) (ground arith)

length-digits_before :
    (f n : ℕ) (acc : List ℕ) → length (digits_before (suc f) n acc) ≤ suc f + length acc
unfolding digits_before
length-digits_before zero n acc = elim (Bool-cases (n / 10 == 0)) [
  | inl e ↦ rw e (omega arith)
  | inr e ↦ rw e (omega arith)
]
length-digits_before (suc f) n acc = elim (Bool-cases (n / 10 == 0)) [
  | inl e ↦ rw e (omega arith)
  | inr e ↦ rw e (omega (arith, length-digits_before f (n / 10) (digit n ∷ acc)))
]

-- No number is longer than 20 digits.
pub length-to_decimal : (n : ℕ) → length (to_decimal n) ≤ 20
unfolding to_decimal
length-to_decimal n = length-digits_before 19 n []
