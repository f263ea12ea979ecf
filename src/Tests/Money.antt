-- ===== src/Tests/Money.antt =====
-- The arithmetic of money on concrete inputs.
use wallet_bot.Base.{◌*◌, ◌^◌, ◌≡◌, ◌≢◌, true, false, List, length, some, arith, All}
use wallet_bot.Base.Int.{ℤ, pos, negsuc, mag, ◌*ℤ◌}
use wallet_bot.Base.Result.{ok}
use wallet_bot.Base.Text.{codes}
use wallet_bot.Money.FixedPoint.{half_even, divide_rounded}
use wallet_bot.Money.FixedPoint.Rounding.{IsRounded, normalised, divide_rounded-IsRounded}
use wallet_bot.Money.Decimal.{parse_decimal, format_decimal}
use wallet_bot.Money.Decimal.RoundTrip.{parse_decimal-format_decimal}
use wallet_bot.Money.Fiat.{FiatAmount, usd, ils, allocate}
use wallet_bot.Money.Fiat.Allocate.{allocate_exact, IsShare, sum_minor}
use wallet_bot.Money.Token.{AssetMeta, TokenAmount, parse, to_decimal_string}
use wallet_bot.Money.Token.Laws.{parse-to_decimal_string}
use wallet_bot.Money.Rate.{ExchangeRate, AssetPrice, value, rate_scale}
use wallet_bot.Money.Rate.Valuation.{value-IsRounded}

three_ne_zero : pos 3 ≢ pos 0
three_ne_zero h = ground arith

divide_rounded-IsRounded_example :
    (q : ℤ) × (divide_rounded (negsuc 6) (pos 3) half_even ≡ ok q)
    × IsRounded half_even (normalised (negsuc 6) (pos 3)) (mag (pos 3)) q
divide_rounded-IsRounded_example =
    divide_rounded-IsRounded (negsuc 6) (pos 3) half_even three_ne_zero

parse_decimal-format_decimal_example :
    parse_decimal (format_decimal (negsuc 1499) 3 true (some 2)) 3 false half_even
    ≡ ok (negsuc 1499)
parse_decimal-format_decimal_example =
    parse_decimal-format_decimal (negsuc 1499) 3 true (some 2) false half_even (omega arith)

abbrev ten_cents : FiatAmount
ten_cents = record { currency = usd; minor = pos 10 }

allocate_exact_example :
    (shares : List FiatAmount) × (allocate ten_cents 3 ≡ ok shares)
    × (length shares ≡ 3)
    × (sum_minor shares ≡ pos 10)
    × All (λ x. (x.currency ≡ usd) × IsShare (pos 10) 3 x.minor) shares
allocate_exact_example = allocate_exact ten_cents 3 (omega arith)

abbrev usdt : AssetMeta
usdt = record { asset_key = codes "tron:usdt"; symbol = codes "USDT"; decimals = 6 }

abbrev tokens : ℤ → TokenAmount
tokens raw = record { meta = usdt; raw = raw }

parse-to_decimal_string_example :
    parse (to_decimal_string (tokens (pos 1250000))) usdt ≡ ok (tokens (pos 1250000))
parse-to_decimal_string_example = parse-to_decimal_string (tokens (pos 1250000)) (omega arith)

abbrev shekel_rate : ExchangeRate
shekel_rate = record {
  base = usd;
  quote = ils;
  scaled = pos 3650000000000;
  as_of = pos 0;
  source = codes "test";
}

abbrev usdt_price : AssetPrice
usdt_price = record {
  asset_key = codes "tron:usdt";
  symbol = codes "USDT";
  quote = usd;
  scaled = pos 1000000000000;
  as_of = pos 0;
  source = codes "test";
}

value-IsRounded_example :
    (q : ℤ) × (value usdt_price (tokens (pos 1234567)) half_even
      ≡ ok (record { currency = usd; minor = q }))
    × IsRounded half_even (pos 1234567 *ℤ pos 1000000000000 *ℤ pos 100) (10 ^ 6 * rate_scale) q
value-IsRounded_example = value-IsRounded usdt_price (tokens (pos 1234567)) half_even (omega arith)
