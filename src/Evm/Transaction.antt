-- ===== src/Evm/Transaction.antt =====
-- EVM transactions: packages/blockchain/src/evm/transaction.ts.
pub mod Unsigned
use wallet_bot.Base.{
  ℕ, ◌+◌, ◌*◌, Bool, true, false, List, [], ◌∷◌, ◌++◌, Option, none, some, ltb, ◌==◌, ◌&&◌, ◌||◌,
  not, if◌then◌else◌, length,
}
use wallet_bot.Base.Int.{ℤ, pos, mag, ◌+ℤ◌, ◌*ℤ◌, ltb_ℤ, leb_ℤ, eqb_ℤ}
use wallet_bot.Base.Result.{Result, ok, err, ◌>>=◌, ◌>>◌, throw_if}
use wallet_bot.Base.Text.{Text}
use wallet_bot.Evm.Hex.{
  Bytes, HexError, bad_chain_id, bad_nonce, negative, bad_gas, bad_recipient, bad_gas_price,
  bad_fee, bad_tip, bad_signature, all_hex, from_hex, to_hex, big_int_to_bytes,
}
use wallet_bot.Evm.Rlp.{RlpInput, bytes, list, RlpItems, nil, item, rlp_encode}

pub data EvmTxType : Type 0 where
  legacy eip1559 : EvmTxType

-- A chain identifier is a number of JavaScript: here an integer, where the other half of the test
-- refuses only fractional ones.
pub record EvmTransactionRequest : Type 0 where
  pub type : EvmTxType
  pub chain_id : ℤ
  pub nonce : ℤ
  pub to : Text
  pub value : ℤ
  pub data_bytes : Bytes
  pub gas_limit : ℤ
  pub gas_price : Option ℤ
  pub max_fee_per_gas : Option ℤ
  pub max_priority_fee_per_gas : Option ℤ

pub record EvmSignature : Type 0 where
  pub y_parity : ℤ
  pub r : ℤ
  pub s : ℤ

abbrev max_safe_integer : ℕ
max_safe_integer = 9007199254740991

-- `/^0x[0-9a-fA-F]{40}$/`.
abbrev is_address : Text → Bool
is_address [] = false
is_address (c ∷ []) = false
is_address (c ∷ d ∷ s) = c == b'0' && d == b'x' && length s == 40 && all_hex s

abbrev is_not_positive : Option ℤ → Bool
is_not_positive none = true
is_not_positive (some n) = leb_ℤ n (pos 0)

abbrev assert_fees : Option ℤ → Option ℤ → Result HexError (Unit {0})
assert_fees none tip = err bad_fee
assert_fees (some fee) none = throw_if (leb_ℤ fee (pos 0)) bad_fee >> err bad_tip
assert_fees (some fee) (some tip) = do
  throw_if (leb_ℤ fee (pos 0)) bad_fee
  throw_if (ltb_ℤ tip (pos 0)) bad_tip
  throw_if (ltb_ℤ fee tip) bad_tip

abbrev assert_price : EvmTxType → EvmTransactionRequest → Result HexError (Unit {0})
assert_price legacy request = throw_if (is_not_positive request.gas_price) bad_gas_price
assert_price eip1559 request = assert_fees request.max_fee_per_gas request.max_priority_fee_per_gas

unfoldable pub assert_request : EvmTransactionRequest → Result HexError (Unit {0})
assert_request request = do
  throw_if (ltb max_safe_integer (mag request.chain_id) || leb_ℤ request.chain_id (pos 0))
      bad_chain_id
  throw_if (ltb_ℤ request.nonce (pos 0)) bad_nonce
  throw_if (ltb_ℤ request.value (pos 0)) negative
  throw_if (leb_ℤ request.gas_limit (pos 0)) bad_gas
  throw_if (not (is_address request.to)) bad_recipient
  assert_price request.type request

-- The fields that both envelopes have, as bytes.
pub record Common : Type 0 where
  pub to : Bytes
  pub chain_id : Bytes
  pub nonce : Bytes
  pub gas_limit : Bytes
  pub value : Bytes

unfoldable pub common_fields : EvmTransactionRequest → Result HexError Common
common_fields request = do
  to ← from_hex request.to
  chain_id ← big_int_to_bytes request.chain_id
  nonce ← big_int_to_bytes request.nonce
  gas_limit ← big_int_to_bytes request.gas_limit
  value ← big_int_to_bytes request.value
  ok (record { to = to; chain_id = chain_id; nonce = nonce; gas_limit = gas_limit; value = value })

-- A price that is absent has no bytes: `bigIntToBytes` throws on it.
unfoldable pub price_bytes : Option ℤ → Result HexError Bytes
price_bytes none = err bad_gas_price
price_bytes (some price) = big_int_to_bytes price

abbrev pub three : Bytes → Bytes → Bytes → RlpItems
three a b c = item (bytes a) (item (bytes b) (item (bytes c) nil))

abbrev pub legacy_base : Common → Bytes → Bytes → RlpItems → RlpItems
legacy_base c price call_data rest = item (bytes c.nonce) (
    item (bytes price) (
      item (bytes c.gas_limit)
        (item (bytes c.to) (item (bytes c.value) (item (bytes call_data) rest)))))

-- The access list is empty.
abbrev pub eip1559_base : Common → Bytes → Bytes → Bytes → RlpItems → RlpItems
eip1559_base c tip fee call_data rest = item (bytes c.chain_id) (
    item (bytes c.nonce) (
      item (bytes tip) (
        item (bytes fee) (
          item (bytes c.gas_limit) (
            item (bytes c.to)
              (item (bytes c.value) (item (bytes call_data) (item (list nil) rest))))))))

-- The signature slots: without a signature, EIP-155 puts the chain identifier in them.
unfoldable pub legacy_slots :
    EvmTransactionRequest → Common → Option EvmSignature → Result HexError RlpItems
legacy_slots request c none = ok (three c.chain_id [] [])
legacy_slots request c (some signature) = do
  v ← big_int_to_bytes (signature.y_parity +ℤ request.chain_id *ℤ pos 2 +ℤ pos 35)
  r ← big_int_to_bytes signature.r
  s ← big_int_to_bytes signature.s
  ok (three v r s)

unfoldable pub eip1559_slots : Option EvmSignature → Result HexError RlpItems
eip1559_slots none = ok nil
eip1559_slots (some signature) = do
  y ← big_int_to_bytes signature.y_parity
  r ← big_int_to_bytes signature.r
  s ← big_int_to_bytes signature.s
  ok (three y r s)

abbrev pub typed_fields :
    EvmTxType → EvmTransactionRequest → Common → Option EvmSignature → Result HexError RlpItems
typed_fields legacy request c signature = do
  price ← price_bytes request.gas_price
  slots ← legacy_slots request c signature
  ok (legacy_base c price request.data_bytes slots)
typed_fields eip1559 request c signature = do
  tip ← price_bytes request.max_priority_fee_per_gas
  fee ← price_bytes request.max_fee_per_gas
  slots ← eip1559_slots signature
  ok (eip1559_base c tip fee request.data_bytes slots)

unfoldable pub fields : EvmTransactionRequest → Option EvmSignature → Result HexError RlpItems
fields request signature = do
  c ← common_fields request
  typed_fields request.type request c signature

-- Typed transactions start with the byte of their type.
abbrev pub with_type : EvmTxType → Bytes → Bytes
with_type legacy encoded = encoded
with_type eip1559 encoded = 0x02 ∷ encoded

unfoldable pub serialize_unsigned : EvmTransactionRequest → Result HexError Bytes
serialize_unsigned request = do
  assert_request request
  items ← fields request none
  encoded ← rlp_encode (list items)
  ok (with_type request.type encoded)

unfoldable pub serialize_signed : EvmTransactionRequest → EvmSignature → Result HexError Text
serialize_signed request signature = do
  assert_request request
  throw_if (not (eqb_ℤ signature.y_parity (pos 0)) && not (eqb_ℤ signature.y_parity (pos 1)))
      bad_signature
  throw_if (leb_ℤ signature.r (pos 0) || leb_ℤ signature.s (pos 0)) bad_signature
  items ← fields request (some signature)
  encoded ← rlp_encode (list items)
  ok (b'0' ∷ b'x' ∷ to_hex (with_type request.type encoded))

-- The hash is a parameter, the one of the library `@noble/hashes`.
module _ (keccak256 : Bytes → Bytes) where
  unfoldable pub signing_hash : EvmTransactionRequest → Result HexError Bytes
  signing_hash request = do payload ← serialize_unsigned request; ok (keccak256 payload)

  unfoldable pub transaction_hash : Text → Result HexError Text
  transaction_hash raw_transaction = do
    raw ← from_hex raw_transaction
    ok (b'0' ∷ b'x' ∷ to_hex (keccak256 raw))

abbrev price_per_gas : EvmTxType → EvmTransactionRequest → Option ℤ
price_per_gas legacy request = request.gas_price
price_per_gas eip1559 request = request.max_fee_per_gas

abbrev times_limit : EvmTransactionRequest → Option ℤ → Option ℤ
times_limit request none = none
times_limit request (some price) = some (request.gas_limit *ℤ price)

-- An absent price makes the multiplication throw, which is `none` here.
unfoldable pub max_fee_wei : EvmTransactionRequest → Option ℤ
max_fee_wei request = times_limit request (price_per_gas request.type request)

abbrev plus_value : ℤ → Option ℤ → Option ℤ
plus_value value none = none
plus_value value (some fee) = some (value +ℤ fee)

unfoldable pub max_cost_wei : EvmTransactionRequest → Option ℤ
unfolding max_fee_wei
max_cost_wei request = plus_value request.value (max_fee_wei request)
