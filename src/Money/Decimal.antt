-- ===== src/Money/Decimal.antt =====
-- Decimal text in and out: packages/shared/src/money/fixed-point.ts, `parseDecimal`,
-- `formatDecimal` and `parseIntegerString`.
pub mod Shape
pub mod RoundTrip
use wallet_bot.Base.{
  ℕ, zero, suc, ◌+◌, ◌-◌, Bool, true, false, List, [], ◌∷◌, ◌++◌, Option, none, some, ltb, ◌==◌,
  if◌then◌else◌, length, take, drop, replicate, ◌&&◌, ◌||◌, not,
}
use wallet_bot.Base.Int.{ℤ, pos, neg_ℤ, mag, ltb_ℤ}
use wallet_bot.Base.Result.{Result, ok, err, ◌>>=◌}
use wallet_bot.Base.Text.{Text, trim, is_digit, all_digits, is_empty, pad_start, pad_end}
use wallet_bot.Base.Text.Digits.{value, digits}
use wallet_bot.Money.FixedPoint.{
  RoundingMode, MoneyError, not_decimal, too_many_decimals, null_value, unsafe_number, not_integer,
  pow10, divide_rounded, abs_big_int,
}

abbrev starts_with : ℕ → Text → Bool
starts_with c [] = false
starts_with c (d ∷ s) = d == c

-- `raw.replace(/^[+-]/, '')`.
abbrev strip_sign : Text → Text
strip_sign [] = []
strip_sign (c ∷ s) = if c == b'+' || c == b'-' then s else c ∷ s

-- The parts of `unsigned.split('.')` before and behind the first dot, the second up to the next dot.
abbrev before_dot : Text → Text
before_dot [] = []
before_dot (c ∷ s) = if c == b'.' then [] else c ∷ before_dot s

abbrev behind_dot : Text → Text
behind_dot [] = []
behind_dot (c ∷ s) = if c == b'.' then before_dot s else behind_dot s

-- `\.?\d*$`-like end of the pattern, behind at least one digit: digits, then a dot and digits.
abbrev decimal_tail : Text → Bool
decimal_tail [] = true
decimal_tail (c ∷ s) = if c == b'.' then all_digits s else is_digit c && decimal_tail s

-- `/^[+-]?(?:\d+(?:\.\d*)?|\.\d+)$/`, without the sign.
abbrev decimal_body : Text → Bool
decimal_body [] = false
decimal_body (c ∷ s) =
    if c == b'.' then not (is_empty s) && all_digits s else is_digit c && decimal_tail s

unfoldable pub is_decimal_string : Text → Bool
is_decimal_string raw = decimal_body (strip_sign raw)

-- The sign, put back on the magnitude.
abbrev with_sign : Bool → ℤ → ℤ
with_sign negative magnitude = if negative then neg_ℤ magnitude else magnitude

-- The end of `parseDecimal`, on the two parts of a text of the right shape.
unfoldable pub scale_parts : Bool → Text → Text → ℕ → Bool → RoundingMode → Result MoneyError ℤ
scale_parts negative int_part frac_part decimals allow_truncation mode =
    if ltb decimals (length frac_part)
    then (if not allow_truncation then err too_many_decimals else (do
      factor ← pow10 (length frac_part - decimals)
      scaled ← divide_rounded (pos (value (int_part ++ frac_part))) (pos factor) mode
      ok (with_sign negative scaled)))
    else ok (with_sign negative (pos (value (int_part ++ pad_end frac_part decimals b'0'))))

-- `parseDecimal` behind its call of `trim`.
unfoldable pub parse_trimmed : Text → ℕ → Bool → RoundingMode → Result MoneyError ℤ
parse_trimmed raw decimals allow_truncation mode =
    let unsigned = strip_sign raw in
    let int_raw = before_dot unsigned in
    let int_part = if is_empty int_raw then b'0' ∷ [] else int_raw in
    if is_empty raw || not (is_decimal_string raw)
    then err not_decimal
    else scale_parts (starts_with b'-' raw) int_part (behind_dot unsigned) decimals allow_truncation
        mode

-- `options.allowTruncation` and `options.mode` are the last two arguments; the source's defaults
-- are `false` and `half_even`.
unfoldable pub parse_decimal : Text → ℕ → Bool → RoundingMode → Result MoneyError ℤ
parse_decimal input decimals allow_truncation mode =
    parse_trimmed (trim input) decimals allow_truncation mode

-- `fracPart.replace(/0+$/, '')`.
abbrev drop_if_zero : ℕ → Text → Text
drop_if_zero c [] = if c == b'0' then [] else c ∷ []
drop_if_zero c (d ∷ s) = c ∷ d ∷ s

abbrev trim_zeros : Text → Text
trim_zeros [] = []
trim_zeros (c ∷ s) = drop_if_zero c (trim_zeros s)

-- `value.toString()` of a `bigint`.
abbrev pub to_string : ℤ → Text
to_string n = if ltb_ℤ n (pos 0) then b'-' ∷ digits (mag n) else digits (mag n)

-- `/[1-9]/.test(digits)`.
abbrev has_nonzero : Text → Bool
has_nonzero [] = false
has_nonzero (c ∷ s) = (is_digit c && not (c == b'0')) || has_nonzero s

abbrev get_or_zero : Option ℕ → ℕ
get_or_zero none = 0
get_or_zero (some n) = n

-- The fraction that is shown. Without `trimTrailingZeros` the source cuts the fraction at the
-- greater of `minFractionDigits` and its own length, which leaves it whole.
abbrev shown_fraction : Bool → Option ℕ → Text → Text
shown_fraction true min_fraction_digits frac_part =
    pad_end (trim_zeros frac_part) (get_or_zero min_fraction_digits) b'0'
shown_fraction false min_fraction_digits frac_part = frac_part

abbrev pub join_parts : Text → Text → Text
join_parts int_part [] = int_part
join_parts int_part (c ∷ s) = int_part ++ b'.' ∷ c ∷ s

unfoldable pub format_decimal : ℤ → ℕ → Bool → Option ℕ → Text
format_decimal value zero trim_trailing_zeros min_fraction_digits = to_string value
format_decimal value (suc d) trim_trailing_zeros min_fraction_digits =
    let decimals = suc d in
    let all = pad_start (digits (mag (abs_big_int value))) (decimals + 1) b'0' in
    let int_part = take (length all - decimals) all in
    let frac_part = drop (length all - decimals) all in
    let body =
      join_parts int_part (shown_fraction trim_trailing_zeros min_fraction_digits frac_part) in
    if ltb_ℤ value (pos 0) && has_nonzero all then b'-' ∷ body else body

-- A `bigint`, a JavaScript number (`fraction` if it is no integer, NaN and infinity included) or
-- a string.
pub data RawInteger : Type 0 where
  big : ℤ → RawInteger
  number : ℤ → RawInteger
  fraction : RawInteger
  text : Text → RawInteger

abbrev pub max_safe_integer : ℕ
max_safe_integer = 9007199254740991

-- `/^[+-]?\d+$/`.
abbrev pub is_integer_string : Text → Bool
is_integer_string raw = not (is_empty (strip_sign raw)) && all_digits (strip_sign raw)

-- The branches on the type of the input, which `parseIntegerString`, `FiatAmount.fromMinor` and
-- `TokenAmount.fromRaw` write out alike.
unfoldable pub raw_integer : RawInteger → Result MoneyError ℤ
raw_integer (big n) = ok n
raw_integer (number n) = if ltb max_safe_integer (mag n) then err unsafe_number else ok n
raw_integer fraction = err unsafe_number
raw_integer (text input) =
    let raw = trim input in
    if not (is_integer_string raw)
    then err not_integer
    else ok (with_sign (starts_with b'-' raw) (pos (value (strip_sign raw))))

unfoldable pub parse_integer_string : Option RawInteger → Result MoneyError ℤ
parse_integer_string none = err null_value
parse_integer_string (some input) = raw_integer input
