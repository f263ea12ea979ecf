-- ===== src/Money/Token.antt =====
-- Amounts of crypto assets: packages/shared/src/money/token.ts.
pub mod Laws
use wallet_bot.Base.{
  ℕ, Bool, true, false, ltb, leb, ◌==◌, if◌then◌else◌, ◌&&◌, ◌||◌, not, none, some, min,
}
use wallet_bot.Base.Int.{ℤ, pos, neg_ℤ, ◌+ℤ◌, ◌-ℤ◌, ltb_ℤ, leb_ℤ, eqb_ℤ}
use wallet_bot.Base.Result.{Result, ok, err, ◌>>=◌, ◌>>◌, throw_if}
use wallet_bot.Base.Text.{Text, eq_text}
use wallet_bot.Money.FixedPoint.{
  RoundingMode, half_even, MoneyError, unsupported_decimals, asset_mismatch, pow10, rescale, Sign,
  less, equal, greater,
}
use wallet_bot.Money.Decimal.{RawInteger, raw_integer, parse_decimal, format_decimal}

pub record AssetMeta : Type 0 where
  pub asset_key : Text
  pub symbol : Text
  pub decimals : ℕ

pub record TokenAmount : Type 0 where
  pub meta : AssetMeta
  pub raw : ℤ

-- The private constructor. `decimals` is a natural number here: the other half of the test
-- refuses only negative and fractional ones.
unfoldable pub make : AssetMeta → ℤ → Result MoneyError TokenAmount
make m value =
    throw_if (ltb 36 m.decimals) unsupported_decimals >> ok (record { meta = m; raw = value })

unfoldable pub from_raw : RawInteger → AssetMeta → Result MoneyError TokenAmount
from_raw input m = do value ← raw_integer input; make m value

unfoldable pub parse : Text → AssetMeta → Result MoneyError TokenAmount
parse input m = do value ← parse_decimal input m.decimals false half_even; make m value

unfoldable pub zero_of : AssetMeta → Result MoneyError TokenAmount
zero_of m = make m (pos 0)

abbrev same_asset : TokenAmount → TokenAmount → Bool
same_asset a other =
    eq_text other.meta.asset_key a.meta.asset_key && other.meta.decimals == a.meta.decimals

abbrev assert_same_asset : TokenAmount → TokenAmount → Result MoneyError (Unit {0})
assert_same_asset a other = throw_if (not (same_asset a other)) asset_mismatch

with_raw : TokenAmount → ℤ → Result MoneyError TokenAmount
with_raw a value = make a.meta value

unfoldable pub plus : TokenAmount → TokenAmount → Result MoneyError TokenAmount
unfolding with_raw
plus a other = assert_same_asset a other >> with_raw a (a.raw +ℤ other.raw)

unfoldable pub minus : TokenAmount → TokenAmount → Result MoneyError TokenAmount
unfolding with_raw
minus a other = assert_same_asset a other >> with_raw a (a.raw -ℤ other.raw)

unfoldable pub negate : TokenAmount → Result MoneyError TokenAmount
unfolding with_raw
negate a = with_raw a (neg_ℤ a.raw)

unfoldable pub abs : TokenAmount → Result MoneyError TokenAmount
abs a = if ltb_ℤ a.raw (pos 0) then negate a else ok a

unfoldable pub is_zero : TokenAmount → Bool
is_zero a = eqb_ℤ a.raw (pos 0)

unfoldable pub is_positive : TokenAmount → Bool
is_positive a = ltb_ℤ (pos 0) a.raw

unfoldable pub is_negative : TokenAmount → Bool
is_negative a = ltb_ℤ a.raw (pos 0)

unfoldable pub gte : TokenAmount → TokenAmount → Result MoneyError Bool
gte a other = assert_same_asset a other >> ok (leb_ℤ other.raw a.raw)

unfoldable pub compare : TokenAmount → TokenAmount → Result MoneyError Sign
compare a other =
    assert_same_asset a other
    >> ok (if ltb_ℤ a.raw other.raw then less else if ltb_ℤ other.raw a.raw then greater else equal)

unfoldable pub equals : TokenAmount → TokenAmount → Bool
equals a other = eq_text a.meta.asset_key other.meta.asset_key && eqb_ℤ a.raw other.raw

unfoldable pub to_decimal_string : TokenAmount → Text
to_decimal_string a = format_decimal a.raw a.meta.decimals false none

unfoldable pub to_display_string : TokenAmount → ℕ → RoundingMode → Result MoneyError Text
to_display_string a max_fraction_digits mode = do
  let target_decimals = min a.meta.decimals max_fraction_digits
  scaled ← rescale a.raw a.meta.decimals target_decimals mode
  ok (format_decimal scaled target_decimals true (some 0))

unfoldable pub one_unit : TokenAmount → Result MoneyError ℕ
one_unit a = pow10 a.meta.decimals
