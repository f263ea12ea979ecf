-- ===== src/Money/Token/Laws.antt =====
-- Laws of token amounts.
use wallet_bot.Base.{◌≤◌, false, ◌≡◌, arith, none}
use wallet_bot.Base.Int.{ℤ, ◌+ℤ◌, ◌-ℤ◌, int_laws}
use wallet_bot.Base.Result.{ok}
use wallet_bot.Money.FixedPoint.{half_even}
use wallet_bot.Money.Decimal.RoundTrip.{parse_decimal-format_decimal}
use wallet_bot.Money.Token.{AssetMeta, TokenAmount, make, parse, plus, minus, to_decimal_string}

-- What the constructor checks.
abbrev pub IsValid : TokenAmount → Type 0
IsValid a = a.meta.decimals ≤ 36

make_lem :
    (m : AssetMeta) (value : ℤ)
    → m.decimals ≤ 36
    → make m value ≡ ok (record { meta = m; raw = value })
unfolding make
make_lem m value h = ground arith

make-IsValid : (m : AssetMeta) (value : ℤ) {a : TokenAmount} → make m value ≡ ok a → IsValid a
unfolding make
make-IsValid m value h = ground arith

-- The decimal text of an amount of at most 36 decimals is parsed back, against the same asset, to the same amount.
pub parse-to_decimal_string :
    (a : TokenAmount) → IsValid a → parse (to_decimal_string a) a.meta ≡ ok a
unfolding parse to_decimal_string
parse-to_decimal_string a h =
    rw (parse_decimal-format_decimal a.raw a.meta.decimals false none false half_even (omega arith))
      (make_lem a.meta a.raw h)

sub_add : (x y : ℤ) → x +ℤ y -ℤ y ≡ x
sub_add x y = omega int_laws

-- Taking away what was added to an amount of at most 36 decimals gives the amount back: the
-- subtraction throws in no case in which the addition has not thrown.
pub minus-plus : (a b c : TokenAmount) → IsValid a → plus a b ≡ ok c → minus c b ≡ ok a
unfolding plus minus make
minus-plus a b c h e = ground (arith, sub_add a.raw b.raw)
