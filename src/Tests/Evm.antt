-- ===== src/Tests/Evm.antt =====
-- The encodings of the EVM on concrete inputs.
use wallet_bot.Base.{◌≡◌, refl, [], ◌∷◌, ◌++◌, none, some, arith, length}
use wallet_bot.Base.Int.{pos}
use wallet_bot.Base.Result.{ok}
use wallet_bot.Base.Text.{codes}
use wallet_bot.Evm.Hex.{Bytes, to_hex, big_int_to_bytes_padded, decode_uint256}
use wallet_bot.Evm.Hex.Words.{decode_uint256-padded}
use wallet_bot.Evm.Rlp.{RlpInput, bytes, list, nil, item, rlp_encode}
use wallet_bot.Evm.Rlp.Spec.{rlp, decode}
use wallet_bot.Evm.Rlp.Spec.Decode.{IsSmall}
use wallet_bot.Evm.Rlp.Spec.Refine.{rlp_encode-eq-rlp, decode-rlp_encode}
use wallet_bot.Evm.Transaction.{EvmTransactionRequest, legacy, eip1559, serialize_unsigned}
use wallet_bot.Evm.Transaction.Unsigned.{
  unsigned_length, IsSameTransaction, serialize_unsigned-injective,
}

-- The list [ "cat", "dog" ] of the description of RLP.
abbrev cat_dog : RlpInput
cat_dog = list (item (bytes (codes "cat")) (item (bytes (codes "dog")) nil))

rlp_cat_dog : rlp_encode cat_dog ≡ ok (0xc8 ∷ 0x83 ∷ codes "cat" ++ (0x83 ∷ codes "dog"))
unfolding rlp_encode wallet_bot.Evm.Rlp.encode_length
rlp_cat_dog = refl

cat_dog-IsSmall : IsSmall (length (rlp cat_dog))
unfolding rlp wallet_bot.Evm.Rlp.Spec.head_of
cat_dog-IsSmall = omega arith

rlp_encode-eq-rlp_example : rlp_encode cat_dog ≡ ok (rlp cat_dog)
rlp_encode-eq-rlp_example = rlp_encode-eq-rlp cat_dog cat_dog-IsSmall

decode-rlp_encode_example :
    (b : Bytes) × (rlp_encode cat_dog ≡ ok b) × (decode 10 (b ++ 7 ∷ []) ≡ (cat_dog, 7 ∷ []))
unfolding wallet_bot.Evm.Rlp.Spec.Decode.size
decode-rlp_encode_example = decode-rlp_encode cat_dog 10 (7 ∷ []) (omega arith) cat_dog-IsSmall

decode_uint256-padded_example :
    (w : Bytes) × (big_int_to_bytes_padded (pos 1000) 32 ≡ ok w)
    × (length w ≡ 32)
    × (decode_uint256 (b'0' ∷ b'x' ∷ to_hex w) ≡ ok (pos 1000))
decode_uint256-padded_example = decode_uint256-padded 1000 (omega arith)

abbrev request : EvmTransactionRequest
request = record {
  type = legacy;
  chain_id = pos 56;
  nonce = pos 3;
  to = codes "0x000000000000000000000000000000000000abcd";
  value = pos 1000;
  data_bytes = [];
  gas_limit = pos 21000;
  gas_price = some (pos 5);
  max_fee_per_gas = none;
  max_priority_fee_per_gas = none;
}

-- The same with capital letters in the address.
abbrev capital : EvmTransactionRequest
capital = record request { to = codes "0x000000000000000000000000000000000000ABCD" }

abbrev payload : Bytes
payload =
    0xe1 ∷ 3 ∷ 5 ∷ 0x82 ∷ 0x52 ∷ 0x08 ∷ 0x94 ∷ 0 ∷ 0 ∷ 0 ∷ 0 ∷ 0 ∷ 0 ∷ 0 ∷ 0 ∷ 0 ∷ 0 ∷ 0 ∷ 0 ∷ 0 ∷ 0
    ∷ 0 ∷ 0 ∷ 0 ∷ 0 ∷ 0xab ∷ 0xcd ∷ 0x82 ∷ 0x03 ∷ 0xe8 ∷ 0x80 ∷ 56 ∷ 0x80 ∷ 0x80 ∷ []

request-payload : serialize_unsigned request ≡ ok payload
unfolding serialize_unsigned wallet_bot.Evm.Transaction.assert_request
    wallet_bot.Evm.Transaction.fields wallet_bot.Evm.Transaction.common_fields
    wallet_bot.Evm.Transaction.price_bytes wallet_bot.Evm.Transaction.legacy_slots rlp_encode
    wallet_bot.Evm.Rlp.encode_length wallet_bot.Evm.Hex.big_int_to_bytes wallet_bot.Evm.Hex.from_hex
    wallet_bot.Evm.Hex.hex_digits
request-payload = refl

capital-payload : serialize_unsigned capital ≡ ok payload
unfolding serialize_unsigned wallet_bot.Evm.Transaction.assert_request
    wallet_bot.Evm.Transaction.fields wallet_bot.Evm.Transaction.common_fields
    wallet_bot.Evm.Transaction.price_bytes wallet_bot.Evm.Transaction.legacy_slots rlp_encode
    wallet_bot.Evm.Rlp.encode_length wallet_bot.Evm.Hex.big_int_to_bytes wallet_bot.Evm.Hex.from_hex
    wallet_bot.Evm.Hex.hex_digits
capital-payload = refl

request-IsSmall : IsSmall (unsigned_length request)
unfolding unsigned_length wallet_bot.Evm.Transaction.fields wallet_bot.Evm.Transaction.common_fields
    wallet_bot.Evm.Transaction.price_bytes wallet_bot.Evm.Transaction.legacy_slots
    wallet_bot.Evm.Hex.big_int_to_bytes wallet_bot.Evm.Hex.from_hex wallet_bot.Evm.Hex.hex_digits
    rlp wallet_bot.Evm.Rlp.Spec.head_of
request-IsSmall = omega arith

capital-IsSmall : IsSmall (unsigned_length capital)
unfolding unsigned_length wallet_bot.Evm.Transaction.fields wallet_bot.Evm.Transaction.common_fields
    wallet_bot.Evm.Transaction.price_bytes wallet_bot.Evm.Transaction.legacy_slots
    wallet_bot.Evm.Hex.big_int_to_bytes wallet_bot.Evm.Hex.from_hex wallet_bot.Evm.Hex.hex_digits
    rlp wallet_bot.Evm.Rlp.Spec.head_of
capital-IsSmall = omega arith

serialize_unsigned-injective_example : IsSameTransaction request capital
serialize_unsigned-injective_example =
    serialize_unsigned-injective request capital payload request-IsSmall capital-IsSmall
      request-payload capital-payload
