-- ===== src/Evm/Hex.antt =====
-- Hexadecimal text and byte strings: packages/blockchain/src/evm/hex.ts, up to the RLP section, and
-- the ABI words at its end. Bytes are numbers below 256.
pub mod Digits
pub mod Numbers
pub mod Words
use wallet_bot.Base.{
  ℕ, zero, suc, ◌+◌, ◌-◌, ◌*◌, ◌/◌, ◌%◌, Bool, true, false, List, [], ◌∷◌, ◌++◌, ltb, leb, ◌==◌,
  ◌&&◌, ◌||◌, not, if◌then◌else◌, length, take, drop, replicate,
}
use wallet_bot.Base.Int.{ℤ, pos, negsuc, ltb_ℤ, mag}
use wallet_bot.Base.Result.{Result, ok, err, ◌>>=◌, ◌>>◌, throw_if}
use wallet_bot.Base.Text.{Text, trim, is_digit, all_digits, is_empty}
use wallet_bot.Base.Text.Digits.{value}

abbrev pub Bytes : Type 0
Bytes = List ℕ

-- The messages of `HexError`; the last is the error that `BigInt` throws on its own.
pub data HexError : Type 0 where
  odd_length not_hexadecimal unsafe_quantity not_text not_quantity : HexError
  negative too_wide bad_address short_word not_big_int : HexError
  bad_chain_id bad_nonce bad_gas bad_recipient bad_gas_price bad_fee bad_tip bad_signature :
      HexError

-- `HEX_CHARS[n]`.
abbrev pub hex_char : ℕ → ℕ
hex_char n = if ltb n 10 then b'0' + n else b'a' + (n - 10)

abbrev pub to_hex : Bytes → Text
to_hex [] = []
to_hex (byte ∷ bytes) = hex_char (byte / 16) ∷ hex_char (byte % 16) ∷ to_hex bytes

-- `/^[0-9a-fA-F]$/`.
abbrev pub is_hex_char : ℕ → Bool
is_hex_char c = is_digit c || (leb b'a' c && leb c b'f') || (leb b'A' c && leb c b'F')

abbrev pub all_hex : Text → Bool
all_hex [] = true
all_hex (c ∷ s) = is_hex_char c && all_hex s

-- The value of a hexadecimal digit.
abbrev pub hex_value : ℕ → ℕ
hex_value c = if is_digit c then c - b'0' else if leb b'a' c then c - b'a' + 10 else c - b'A' + 10

-- `Number.parseInt(clean.slice(i * 2, i * 2 + 2), 16)`, for each `i`.
abbrev pub pairs : Text → Bytes
pairs [] = []
pairs (c ∷ []) = []
pairs (c ∷ d ∷ s) = (hex_value c * 16 + hex_value d) ∷ pairs s

-- Without the prefix `0x` or `0X`.
abbrev pub strip_prefix : Text → Text
strip_prefix [] = []
strip_prefix (c ∷ []) = c ∷ []
strip_prefix (c ∷ d ∷ s) = if c == b'0' && (d == b'x' || d == b'X') then s else c ∷ d ∷ s

abbrev pub clean_bytes : Text → Result HexError Bytes
clean_bytes clean =
    throw_if (not (length clean % 2 == 0)) odd_length
    >> (throw_if (not (is_empty clean) && not (all_hex clean)) not_hexadecimal >> ok (pairs clean))

unfoldable pub from_hex : Text → Result HexError Bytes
from_hex s = clean_bytes (strip_prefix s)

-- `value.toString(16)` divides by sixteen until nothing is left. The fuel is one more than the
-- number.
emit_hex : ℕ → ℕ → Text → Text
emit_hex zero n out = out
emit_hex (suc f) n out =
    let rest = emit_hex f (n / 16) (hex_char (n % 16) ∷ out) in if n == 0 then out else rest

unfoldable pub hex_digits : ℕ → Text
unfolding emit_hex
hex_digits n = if n == 0 then b'0' ∷ [] else emit_hex (suc n) n []

-- `BigInt` of a text of hexadecimal digits.
abbrev pub hex_value_from : ℕ → Text → ℕ
hex_value_from n [] = n
hex_value_from n (c ∷ s) = hex_value_from (n * 16 + hex_value c) s

-- What a node may answer: a `bigint`, a number (`fraction` if it is no integer), a text, or anything
-- else.
pub data Quantity : Type 0 where
  big : ℤ → Quantity
  number : ℤ → Quantity
  fraction : Quantity
  text : Text → Quantity
  other : Quantity

abbrev max_safe_integer : ℕ
max_safe_integer = 9007199254740991

abbrev is_zero_text : Text → Bool
is_zero_text [] = true
is_zero_text (c ∷ []) = false
is_zero_text (c ∷ d ∷ []) = c == b'0' && (d == b'x' || d == b'X')
is_zero_text (c ∷ d ∷ e ∷ s) = false

-- `/^0[xX][0-9a-fA-F]+$/`.
abbrev is_hex_quantity : Text → Bool
is_hex_quantity [] = false
is_hex_quantity (c ∷ []) = false
is_hex_quantity (c ∷ d ∷ s) = c == b'0' && (d == b'x' || d == b'X') && not (is_empty s) && all_hex s

abbrev pub parse_trimmed_quantity : Text → Result HexError ℤ
parse_trimmed_quantity trimmed =
    if is_zero_text trimmed
    then ok (pos 0)
    else if is_hex_quantity trimmed
    then ok (pos (hex_value_from 0 (drop 2 trimmed)))
    else if not (is_empty trimmed) && all_digits trimmed
    then ok (pos (value trimmed))
    else err not_quantity

unfoldable pub parse_quantity : Quantity → Result HexError ℤ
parse_quantity (big n) = ok n
parse_quantity (number n) =
    if ltb max_safe_integer (mag n) || ltb_ℤ n (pos 0) then err unsafe_quantity else ok n
parse_quantity fraction = err unsafe_quantity
parse_quantity other = err not_text
parse_quantity (text s) = parse_trimmed_quantity (trim s)

unfoldable pub to_quantity : ℤ → Result HexError Text
to_quantity (negsuc n) = err negative
to_quantity (pos n) = ok (b'0' ∷ b'x' ∷ hex_digits n)

-- `if (hex.length % 2 !== 0) hex = '0' + hex`.
abbrev pub even_digits : Text → Text
even_digits s = if length s % 2 == 0 then s else b'0' ∷ s

unfoldable pub big_int_to_bytes : ℤ → Result HexError Bytes
big_int_to_bytes (negsuc n) = err negative
big_int_to_bytes (pos zero) = ok []
big_int_to_bytes (pos (suc n)) = from_hex (even_digits (hex_digits (suc n)))

-- `output.set(bytes, width - bytes.length)`, on zeros.
abbrev pub pad_left : ℕ → Bytes → Bytes
pad_left width bytes = replicate (width - length bytes) 0 ++ bytes

unfoldable pub big_int_to_bytes_padded : ℤ → ℕ → Result HexError Bytes
big_int_to_bytes_padded n width = do
  bytes ← big_int_to_bytes n
  throw_if (ltb width (length bytes)) too_wide
  ok (pad_left width bytes)

-- `fromHex('a9059cbb')`, `fromHex('70a08231')` and `fromHex('313ce567')`.
abbrev pub erc20_transfer_selector : Bytes
erc20_transfer_selector = 0xa9 ∷ 0x05 ∷ 0x9c ∷ 0xbb ∷ []

abbrev pub erc20_balance_of_selector : Bytes
erc20_balance_of_selector = 0x70 ∷ 0xa0 ∷ 0x82 ∷ 0x31 ∷ []

abbrev pub erc20_decimals_selector : Bytes
erc20_decimals_selector = 0x31 ∷ 0x3c ∷ 0xe5 ∷ 0x67 ∷ []

unfoldable pub encode_erc20_transfer : Text → ℤ → Result HexError Bytes
encode_erc20_transfer to_address amount = do
  address ← from_hex to_address
  throw_if (not (length address == 20)) bad_address
  throw_if (ltb_ℤ amount (pos 0)) negative
  word ← big_int_to_bytes_padded amount 32
  ok (erc20_transfer_selector ++ (replicate 12 0 ++ address) ++ word)

unfoldable pub encode_erc20_balance_of : Text → Result HexError Bytes
encode_erc20_balance_of owner_address = do
  address ← from_hex owner_address
  throw_if (not (length address == 20)) bad_address
  ok (erc20_balance_of_selector ++ (replicate 12 0 ++ address))

-- Without the prefix `0x`.
abbrev strip_small_prefix : Text → Text
strip_small_prefix [] = []
strip_small_prefix (c ∷ []) = c ∷ []
strip_small_prefix (c ∷ d ∷ s) = if c == b'0' && d == b'x' then s else c ∷ d ∷ s

abbrev pub decode_word : Text → Result HexError ℤ
decode_word clean =
    if is_empty clean
    then ok (pos 0)
    else if ltb (length clean) 64
    then parse_quantity (text (b'0' ∷ b'x' ∷ clean))
    else if all_hex (take 64 clean)
    then ok (pos (hex_value_from 0 (take 64 clean)))
    else err not_big_int

unfoldable pub decode_uint256 : Text → Result HexError ℤ
unfolding parse_quantity
decode_uint256 s = decode_word (strip_small_prefix s)

abbrev lower_hex : Text → Text
lower_hex [] = []
lower_hex (c ∷ s) = (if leb b'A' c && leb c b'Z' then c + 32 else c) ∷ lower_hex s

unfoldable pub decode_address_word : Text → Result HexError Text
decode_address_word word =
    let clean = strip_small_prefix word in
    throw_if (ltb (length clean) 40) short_word
    >> ok (b'0' ∷ b'x' ∷ lower_hex (drop (length clean - 40) clean))
