-- ===== src/Money/FixedPoint.antt =====
-- Exact fixed-point arithmetic: packages/shared/src/money/fixed-point.ts, the functions on numbers.
pub mod Rounding
pub mod Scale
use wallet_bot.Base.{
  ℕ, zero, suc, ◌+◌, ◌-◌, ◌*◌, ◌/◌, ◌%◌, ◌^◌, Bool, true, false, List, [], ◌∷◌, ltb, leb, ◌==◌,
  if◌then◌else◌,
}
use wallet_bot.Base.Int.{
  ℤ, pos, negsuc, mag, is_neg, neg_ℤ, quot_ℤ, rem_ℤ, ◌+ℤ◌, ◌-ℤ◌, ◌*ℤ◌, ltb_ℤ, eqb_ℤ,
}
use wallet_bot.Base.Result.{Result, ok, err, ◌>>=◌}

pub data RoundingMode : Type 0 where
  floor ceil trunc half_up half_even : RoundingMode

-- The messages of `MoneyError`.
pub data MoneyError : Type 0 where
  exponent_out_of_range division_by_zero not_decimal too_many_decimals : MoneyError
  null_value unsafe_number not_integer : MoneyError
  unknown_currency currency_mismatch bad_parts : MoneyError
  unsupported_decimals asset_mismatch rate_not_positive wrong_base negative_price : MoneyError

-- `result *= TEN`, `exponent` times.
ten_loop : ℕ → ℕ → ℕ
ten_loop zero result = result
ten_loop (suc i) result = ten_loop i (result * 10)

-- The cache of `pow10` returns what the loop returned before, so it is left out. An exponent is
-- a natural number here: the other half of the test refuses only negative or fractional ones.
unfoldable pub pow10 : ℕ → Result MoneyError ℕ
unfolding ten_loop
pow10 exponent = if ltb 96 exponent then err exponent_out_of_range else ok (ten_loop exponent 1)

unfoldable pub abs_big_int : ℤ → ℤ
abs_big_int value = if ltb_ℤ value (pos 0) then neg_ℤ value else value

-- One step away from zero: `negative ? quotient - 1n : quotient + 1n`.
away : Bool → ℤ → ℤ
away negative quotient = if negative then quotient -ℤ pos 1 else quotient +ℤ pos 1

-- The `switch` of `divideRounded`, for a positive denominator and a remainder that is not zero.
round_by : RoundingMode → Bool → ℤ → ℤ → ℕ → ℤ
unfolding away abs_big_int
round_by trunc negative quotient remainder d = quotient
round_by floor negative quotient remainder d = if negative then quotient -ℤ pos 1 else quotient
round_by ceil negative quotient remainder d = if negative then quotient else quotient +ℤ pos 1
round_by half_up negative quotient remainder d =
    let twice_remainder = mag (abs_big_int remainder) * 2 in
    if leb d twice_remainder then away negative quotient else quotient
round_by half_even negative quotient remainder d =
    let twice_remainder = mag (abs_big_int remainder) * 2 in
    if ltb d twice_remainder
    then away negative quotient
    else if ltb twice_remainder d
    then quotient
    else if eqb_ℤ (rem_ℤ quotient 2) (pos 0)
    then quotient
    else away negative quotient

-- The rest of `divideRounded` once the denominator is positive.
divide_positive : ℤ → ℕ → RoundingMode → ℤ
unfolding round_by
divide_positive n d mode =
    let quotient = quot_ℤ n d in
    let remainder = rem_ℤ n d in
    if eqb_ℤ remainder (pos 0)
    then quotient
    else round_by mode (ltb_ℤ n (pos 0)) quotient remainder d

unfoldable pub divide_rounded : ℤ → ℤ → RoundingMode → Result MoneyError ℤ
unfolding divide_positive
divide_rounded numerator (pos zero) mode = err division_by_zero
divide_rounded numerator (pos (suc d)) mode = ok (divide_positive numerator (suc d) mode)
divide_rounded numerator (negsuc d) mode = ok (divide_positive (neg_ℤ numerator) (suc d) mode)

-- `(value * multiplier) / divisor`.
unfoldable pub mul_div : ℤ → ℤ → ℤ → RoundingMode → Result MoneyError ℤ
mul_div value multiplier divisor mode = divide_rounded (value *ℤ multiplier) divisor mode

unfoldable pub rescale : ℤ → ℕ → ℕ → RoundingMode → Result MoneyError ℤ
rescale value from_decimals to_decimals mode =
    if from_decimals == to_decimals
    then ok value
    else if ltb from_decimals to_decimals
    then (do factor ← pow10 (to_decimals - from_decimals); ok (value *ℤ pos factor))
    else (do factor ← pow10 (from_decimals - to_decimals); divide_rounded value (pos factor) mode)

-- -1, 0 or 1, as the sort comparator that it is.
pub data Sign : Type 0 where
  less equal greater : Sign

unfoldable pub compare_big_int : ℤ → ℤ → Sign
compare_big_int a b = if ltb_ℤ a b then less else if ltb_ℤ b a then greater else equal

sum_from : ℤ → List ℤ → ℤ
sum_from total [] = total
sum_from total (value ∷ values) = sum_from (total +ℤ value) values

unfoldable pub sum_big_int : List ℤ → ℤ
unfolding sum_from
sum_big_int values = sum_from (pos 0) values
