-- ===== src/Money/Rate/Valuation.antt =====
-- Conversion and valuation round once, from the exact product.
use wallet_bot.Base.{
  ℕ, zero, suc, ◌*◌, ◌^◌, ◌≤◌, ◌<◌, true, false, ◌≡◌, refl, ap, subst, ◌∙◌, arith,
}
use wallet_bot.Base.Int.{ℤ, pos, ◌*ℤ◌}
use wallet_bot.Base.Result.{ok, err}
use wallet_bot.Money.FixedPoint.{RoundingMode, wrong_base, mul_div, divide_rounded, pow10}
use wallet_bot.Money.FixedPoint.Rounding.{IsRounded, divide_rounded-IsRounded}
use wallet_bot.Money.FixedPoint.Scale.{pow10_lem}
use wallet_bot.Money.Decimal.{raw_integer}
use wallet_bot.Money.Fiat.{
  FiatCurrency, usd, ils, FiatAmount, same_currency, from_minor, fiat_decimals,
}
use wallet_bot.Money.Token.{TokenAmount}
use wallet_bot.Money.Rate.{ExchangeRate, AssetPrice, convert, value, rate_scale}

*ℤ_one : (v : ℤ) → v *ℤ pos 1 ≡ v
unfolding ◌*ℤ◌
*ℤ_one v = ground arith

mul_div_one :
    (v : ℤ) (d : ℕ) (mode : RoundingMode)
    → 0 < d
    → (q : ℤ) × (mul_div v (pos 1) (pos d) mode ≡ ok q) × IsRounded mode v d q
unfolding mul_div
mul_div_one v zero mode h = absurd (omega arith)
mul_div_one v (suc d) mode h =
    let (q, e, r) = divide_rounded-IsRounded v (pos (suc d)) mode (cc) in
    (q, ap (λ t. divide_rounded t (pos (suc d)) mode) (*ℤ_one v) ∙ e, r)

pow10_zero : pow10 0 ≡ ok 1
unfolding pow10
pow10_zero = refl

two_decimals : (c : FiatCurrency) → fiat_decimals c ≡ 2
two_decimals usd = refl
two_decimals ils = refl

same_currency_refl : (c : FiatCurrency) → same_currency c c ≡ true
same_currency_refl usd = refl
same_currency_refl ils = refl

-- An amount in the rate's base converts to the quote currency, and its minor units are the exact
-- product with the rate, divided by the rate's scale and rounded once by the mode.
pub convert-IsRounded :
    (r : ExchangeRate) (amount : FiatAmount) (mode : RoundingMode)
    → amount.currency ≡ r.base
    → (q : ℤ) × (convert r amount mode ≡ ok (record { currency = r.quote; minor = q }))
      × IsRounded mode (amount.minor *ℤ r.scaled) rate_scale q
unfolding convert from_minor raw_integer
convert-IsRounded r amount mode same =
    let product = amount.minor *ℤ r.scaled in
    let (q, e, rounded) = mul_div_one product rate_scale mode (omega arith) in
    (
      q,
      rw (same, same_currency_refl r.base, two_decimals r.quote, two_decimals r.base, pow10_zero)
          (rw (*ℤ_one product, e)),
      rounded,
    )

-- An amount of another currency is refused.
pub convert_mismatch :
    (r : ExchangeRate) (amount : FiatAmount) (mode : RoundingMode)
    → same_currency amount.currency r.base ≡ false
    → convert r amount mode ≡ err wrong_base
unfolding convert
convert_mismatch r amount mode differ = rw differ

pow10_two : pow10 2 ≡ ok 100
unfolding pow10
pow10_two = refl

-- The value of a token quantity is the exact product with the price, scaled to minor units and
-- rounded once by the mode, for every number of decimals that an amount of tokens can have.
pub value-IsRounded :
    (p : AssetPrice) (amount : TokenAmount) (mode : RoundingMode)
    → amount.meta.decimals ≤ 36
    → (q : ℤ) × (value p amount mode ≡ ok (record { currency = p.quote; minor = q }))
      × IsRounded mode
          (amount.raw *ℤ p.scaled *ℤ pos 100)
          (10 ^ amount.meta.decimals * rate_scale)
          q
unfolding value from_minor raw_integer
value-IsRounded p amount mode fits =
    let (f, pow, e) = pow10_lem amount.meta.decimals (omega arith) in
    let product = amount.raw *ℤ p.scaled *ℤ pos 100 in
    let (q, done, rounded) = mul_div_one product (suc f * rate_scale) mode (omega arith) in
    (
      q,
      rw (two_decimals p.quote, pow10_two, pow) (rw done),
      subst (λ d. IsRounded mode product d q) (ap (λ t. t * rate_scale) e) rounded,
    )
