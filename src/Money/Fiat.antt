-- ===== src/Money/Fiat.antt =====
-- Amounts of fiat money: packages/shared/src/money/fiat.ts.
pub mod Allocate
use wallet_bot.Base.{
  ℕ, zero, suc, ◌+◌, ◌-◌, Bool, true, false, List, [], ◌∷◌, ltb, ◌==◌, if◌then◌else◌, ◌&&◌, not,
  none,
}
use wallet_bot.Base.Int.{ℤ, pos, negsuc, mag, neg_ℤ, ◌+ℤ◌, ◌-ℤ◌, ◌*ℤ◌, ltb_ℤ, eqb_ℤ}
use wallet_bot.Base.Result.{Result, ok, err, ◌>>=◌, ◌>>◌, throw_if}
use wallet_bot.Base.Text.{Text}
use wallet_bot.Money.FixedPoint.{
  RoundingMode, floor, trunc, half_even, MoneyError, currency_mismatch, bad_parts, pow10,
  divide_rounded, Sign, less, equal, greater,
}
use wallet_bot.Money.Decimal.{RawInteger, raw_integer, parse_decimal, format_decimal}

pub data FiatCurrency : Type 0 where
  usd ils : FiatCurrency

abbrev pub same_currency : FiatCurrency → FiatCurrency → Bool
same_currency usd usd = true
same_currency ils ils = true
same_currency _ _ = false

-- `FIAT_CURRENCY_INFO[currency].decimals`.
abbrev pub fiat_decimals : FiatCurrency → ℕ
fiat_decimals usd = 2
fiat_decimals ils = 2

pub record FiatAmount : Type 0 where
  pub currency : FiatCurrency
  pub minor : ℤ

-- The type of currencies makes the source's test for an unknown currency hold.
unfoldable pub from_minor : RawInteger → FiatCurrency → Result MoneyError FiatAmount
from_minor input c = do value ← raw_integer input; ok (record { currency = c; minor = value })

unfoldable pub parse : Text → FiatCurrency → Result MoneyError FiatAmount
parse input c = do
  value ← parse_decimal input (fiat_decimals c) false half_even
  ok (record { currency = c; minor = value })

unfoldable pub zero_of : FiatCurrency → FiatAmount
zero_of c = record { currency = c; minor = pos 0 }

abbrev assert_same_currency : FiatAmount → FiatAmount → Result MoneyError (Unit {0})
assert_same_currency a other =
    throw_if (not (same_currency other.currency a.currency)) currency_mismatch

unfoldable pub plus : FiatAmount → FiatAmount → Result MoneyError FiatAmount
plus a other = assert_same_currency a other >> ok (record a { minor = a.minor +ℤ other.minor })

unfoldable pub minus : FiatAmount → FiatAmount → Result MoneyError FiatAmount
minus a other = assert_same_currency a other >> ok (record a { minor = a.minor -ℤ other.minor })

unfoldable pub negate : FiatAmount → FiatAmount
negate a = record a { minor = neg_ℤ a.minor }

unfoldable pub abs : FiatAmount → FiatAmount
unfolding negate
abs a = if ltb_ℤ a.minor (pos 0) then negate a else a

unfoldable pub times_integer : FiatAmount → ℤ → FiatAmount
times_integer a count = record a { minor = a.minor *ℤ count }

-- The loop of `allocate`: one step of the remainder goes to each part while some is left.
unfoldable pub allocate_loop : FiatCurrency → ℤ → ℤ → ℕ → ℕ → List FiatAmount
allocate_loop c base step left zero = []
allocate_loop c base step left (suc parts) =
    let amount = if ltb 0 left then base +ℤ step else base in
    record { currency = c; minor = amount } ∷ allocate_loop c base step (left - 1) parts

-- `parts` is a number of JavaScript: here a natural number, where the other half of the test
-- refuses only negative and fractional ones.
unfoldable pub allocate : FiatAmount → ℕ → Result MoneyError (List FiatAmount)
allocate a parts = if parts == 0 then err bad_parts else (do
  base ← divide_rounded a.minor (pos parts) trunc
  let remainder = a.minor -ℤ base *ℤ pos parts
  let step = if ltb_ℤ remainder (pos 0) then negsuc 0 else pos 1
  ok (allocate_loop a.currency base step (mag remainder) parts))

unfoldable pub compare : FiatAmount → FiatAmount → Result MoneyError Sign
compare a other =
    assert_same_currency a other
    >> ok (
        if ltb_ℤ a.minor other.minor
        then less
        else if ltb_ℤ other.minor a.minor
        then greater
        else equal)

unfoldable pub equals : FiatAmount → FiatAmount → Bool
equals a other = same_currency a.currency other.currency && eqb_ℤ a.minor other.minor

unfoldable pub to_decimal_string : FiatAmount → Text
to_decimal_string a = format_decimal a.minor (fiat_decimals a.currency) false none

unfoldable pub to_major_units_floor : FiatAmount → Result MoneyError ℤ
to_major_units_floor a = do
  unit ← pow10 (fiat_decimals a.currency)
  divide_rounded a.minor (pos unit) floor

sum_loop : FiatAmount → List FiatAmount → Result MoneyError FiatAmount
sum_loop total [] = ok total
sum_loop total (amount ∷ amounts) = do next ← plus total amount; sum_loop next amounts

unfoldable pub sum_fiat : List FiatAmount → FiatCurrency → Result MoneyError FiatAmount
unfolding sum_loop
sum_fiat amounts c = sum_loop (zero_of c) amounts
