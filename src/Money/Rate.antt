-- ===== src/Money/Rate.antt =====
-- Exchange rates and asset prices: packages/shared/src/money/rate.ts.
pub mod Valuation
use wallet_bot.Base.{ℕ, ◌+◌, ◌-◌, ◌*◌, ◌/◌, Bool, true, false, if◌then◌else◌, ◌&&◌, not, none, ◌++◌}
use wallet_bot.Base.Int.{ℤ, pos, mag, ◌-ℤ◌, ◌*ℤ◌, ltb_ℤ, leb_ℤ}
use wallet_bot.Base.Result.{Result, ok, err, ◌>>=◌, ◌>>◌, throw_if}
use wallet_bot.Base.Text.{Text, codes}
use wallet_bot.Money.FixedPoint.{
  RoundingMode, half_even, half_up, MoneyError, rate_not_positive, wrong_base, negative_price,
  pow10, mul_div,
}
use wallet_bot.Money.Decimal.{big, parse_decimal, format_decimal}
use wallet_bot.Money.Fiat.{FiatCurrency, FiatAmount, fiat_decimals, same_currency, from_minor}
use wallet_bot.Money.Token.{TokenAmount}

abbrev pub rate_scale_decimals : ℕ
rate_scale_decimals = 12

-- `RATE_SCALE`, 10 ^ 12.
abbrev pub rate_scale : ℕ
rate_scale = 1_000_000_000_000

-- Times are milliseconds since the epoch.
pub record ExchangeRate : Type 0 where
  pub base : FiatCurrency
  pub quote : FiatCurrency
  pub scaled : ℤ
  pub as_of : ℤ
  pub source : Text

-- The private constructor, which `fromScaled` calls with its parameters.
unfoldable pub from_scaled :
    FiatCurrency → FiatCurrency → ℤ → ℤ → Text → Result MoneyError ExchangeRate
from_scaled b q s t from =
    throw_if (leb_ℤ s (pos 0)) rate_not_positive
    >> ok (record { base = b; quote = q; scaled = s; as_of = t; source = from })

unfoldable pub from_decimal_string :
    FiatCurrency → FiatCurrency → Text → ℤ → Text → Result MoneyError ExchangeRate
from_decimal_string b q value t from = do
  s ← parse_decimal value rate_scale_decimals true half_even
  from_scaled b q s t from

unfoldable pub invert : ExchangeRate → Result MoneyError ExchangeRate
invert r = do
  inverted ← mul_div (pos rate_scale) (pos rate_scale) r.scaled half_even
  from_scaled r.quote r.base inverted r.as_of (r.source ++ codes ":inverted")

-- `Math.max(0, to - from)` is the truncated difference.
unfoldable pub convert : ExchangeRate → FiatAmount → RoundingMode → Result MoneyError FiatAmount
convert r amount mode = do
  throw_if (not (same_currency amount.currency r.base)) wrong_base
  let from_decimals = fiat_decimals r.base
  let to_decimals = fiat_decimals r.quote
  up ← pow10 (to_decimals - from_decimals)
  down ← pow10 (from_decimals - to_decimals)
  let numerator = amount.minor *ℤ r.scaled *ℤ pos up
  let denominator = pos (rate_scale * down)
  minor ← mul_div numerator (pos 1) denominator mode
  from_minor (big minor) r.quote

-- `toDecimalString` of a rate and of a price, which read alike.
unfoldable pub to_decimal_string : ℤ → ℕ → Result MoneyError Text
to_decimal_string s fraction_digits = do
  factor ← pow10 fraction_digits
  reduced ← mul_div s (pos factor) (pos rate_scale) half_up
  ok (format_decimal reduced fraction_digits false none)

-- `Math.max(0, Math.floor((now - asOf) / 1000))`.
unfoldable pub age_seconds : ℤ → ℤ → ℕ
age_seconds as_of now =
    let elapsed = now -ℤ as_of in if ltb_ℤ elapsed (pos 0) then 0 else mag elapsed / 1000

pub record AssetPrice : Type 0 where
  pub asset_key : Text
  pub symbol : Text
  pub quote : FiatCurrency
  pub scaled : ℤ
  pub as_of : ℤ
  pub source : Text

-- The private constructor of `AssetPrice`, which throws on a negative price.
unfoldable pub price_from_scaled : AssetPrice → Result MoneyError AssetPrice
price_from_scaled p = throw_if (ltb_ℤ p.scaled (pos 0)) negative_price >> ok p

unfoldable pub price_from_decimal_string : AssetPrice → Text → Result MoneyError AssetPrice
price_from_decimal_string p value = do
  s ← parse_decimal value rate_scale_decimals true half_even
  price_from_scaled (record p { scaled = s })

unfoldable pub value : AssetPrice → TokenAmount → RoundingMode → Result MoneyError FiatAmount
value p amount mode = do
  fiat_unit ← pow10 (fiat_decimals p.quote)
  let numerator = amount.raw *ℤ p.scaled *ℤ pos fiat_unit
  token_unit ← pow10 amount.meta.decimals
  let denominator = pos (token_unit * rate_scale)
  minor ← mul_div numerator (pos 1) denominator mode
  from_minor (big minor) p.quote
