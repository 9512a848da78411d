-- ===== src/Ints.antt =====
-- Go's signed integers, over the native numbers, and the decimal numbers that `strconv.Atoi` reads.
use typeclaw_operator.Prelude.{
  ℕ, zero, suc, ◌+◌, ◌-◌, ◌*◌, ◌%◌, ◌^◌, Bool, true, false, ◌&&◌, Option, none, some, [], ◌∷◌, ltb,
  leb, ◌==◌, if◌then◌else◌,
}
use typeclaw_operator.Prelude.Text.{Text}

pub data ℤ : Type 0 where
  pos : ℕ → ℤ
  negsuc : ℕ → ℤ

-- `x > y`.
unfoldable pub gtb : ℤ → ℤ → Bool
gtb (pos m) (pos n) = ltb n m
gtb (pos m) (negsuc n) = true
gtb (negsuc m) (pos n) = false
gtb (negsuc m) (negsuc n) = ltb m n

-- The `int64` that has the bits of a natural number.
unfoldable pub int64 : ℕ → ℤ
int64 n = let v = n % 2 ^ 64 in if ltb v (2 ^ 63) then pos v else negsuc (2 ^ 64 - v - 1)

abbrev pub is_digit : ℕ → Bool
is_digit c = leb 48 c && leb c 57

unfoldable pub all_digits : Text → Bool
all_digits [] = true
all_digits (c ∷ cs) = is_digit c && all_digits cs

unfoldable pub decimal : ℕ → Text → Option ℕ
decimal n [] = some n
decimal n (c ∷ cs) = let rest = decimal (n * 10 + (c - 48)) cs in if is_digit c then rest else none

unfoldable pub unsigned : Text → Option ℕ
unfolding decimal
unsigned [] = none
unsigned (c ∷ cs) = decimal 0 (c ∷ cs)

unfoldable pub positive : Option ℕ → Option ℤ
positive none = none
positive (some n) = if ltb n (2 ^ 63) then some (pos n) else none

unfoldable pub negative : Option ℕ → Option ℤ
negative none = none
negative (some zero) = some (pos 0)
negative (some (suc n)) = if ltb n (2 ^ 63) then some (negsuc n) else none

-- `strconv.Atoi`: an optional sign and decimal digits, within the range of an `int`.
unfoldable pub atoi : Text → Option ℤ
unfolding unsigned positive negative
atoi [] = none
atoi (c ∷ cs) =
    if c == 43
    then positive (unsigned cs)
    else if c == 45
    then negative (unsigned cs)
    else positive (unsigned (c ∷ cs))
