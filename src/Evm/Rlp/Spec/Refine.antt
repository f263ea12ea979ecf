-- ===== src/Evm/Rlp/Spec/Refine.antt =====
-- `rlpEncode` is RLP: packages/blockchain/src/evm/hex.ts.
use wallet_bot.Base.{
  ℕ, ◌+◌, ◌%◌, ◌≤◌, ◌<◌, ◌≡◌, refl, sym, ap, ◌∙◌, [], ◌∷◌, ◌++◌, ltb, length, arith, append_assoc,
  append-nil, length-append, Bool-cases, inl, inr,
}
use wallet_bot.Base.Int.{pos}
use wallet_bot.Base.Result.{ok}
use wallet_bot.Evm.Hex.{Bytes, big_int_to_bytes}
use wallet_bot.Evm.Hex.Numbers.{big_int_to_bytes_lem}
use wallet_bot.Evm.Rlp.{
  RlpInput, bytes, list, RlpItems, nil, item, encode_length, with_length, encode_bytes, rlp_encode,
  encode_items,
}
use wallet_bot.Evm.Rlp.Spec.{big_endian, head_of, rlp, rlp_bytes, rlp_items, decode}
use wallet_bot.Evm.Rlp.Spec.Decode.{IsSmall, size, big_endian_lem}
use wallet_bot.Evm.Rlp.Spec.RoundTrip.{payload-IsSmall, length-bytes-le, decode-rlp}

big_endian-result : (n : ℕ) → big_int_to_bytes (pos n) ≡ ok (big_endian n)
unfolding big_endian
big_endian-result n = (big_int_to_bytes_lem n).1.result

low_bits : (n : ℕ) → n < 256 → n % 256 ≡ n
low_bits n h = omega arith

encode_length_lem :
    (n offset : ℕ) → IsSmall n → offset ≤ 192 → encode_length n offset ≡ ok (head_of n offset)
unfolding encode_length head_of
encode_length_lem n offset small low = elim (Bool-cases (ltb n 56)) [
  | inl e ↦ rw (e, low_bits (n + offset) (ground arith))
  | inr e ↦
      let (spelled, some_byte, short) = big_endian_lem n (ground arith) small in
      rw (e, big_endian-result n, low_bits (length (big_endian n) + offset + 55) (omega arith))
]

with_length_lem :
    (payload : Bytes) (offset : ℕ)
    → IsSmall (length payload)
    → offset ≤ 192
    → with_length payload offset ≡ ok (head_of (length payload) offset ++ payload)
with_length_lem payload offset small low = rw (encode_length_lem (length payload) offset small low)

encode_bytes_lem : (bs : Bytes) → IsSmall (length bs) → encode_bytes bs ≡ ok (rlp_bytes bs)
encode_bytes_lem [] small =
    with_length_lem [] 128 small (omega arith) ∙ ap ok (append-nil (head_of 0 128))
encode_bytes_lem (b ∷ []) small = elim (Bool-cases (ltb b 128)) [
  | inl e ↦ rw e
  | inr e ↦ rw e (with_length_lem (b ∷ []) 128 small (omega arith))
]
encode_bytes_lem (b ∷ c ∷ bs) small = with_length_lem (b ∷ c ∷ bs) 128 small (omega arith)

encode_list_lem :
    (items : RlpItems) (payload : Bytes)
    → encode_items [] items ≡ ok payload
    → IsSmall (length payload)
    → rlp_encode (list items) ≡ ok (head_of (length payload) 192 ++ payload)
unfolding rlp_encode
encode_list_lem items payload e small = rw e (with_length_lem payload 192 small (omega arith))

encode_item_lem :
    (payload encoded all : Bytes) (x : RlpInput) (items : RlpItems)
    → rlp_encode x ≡ ok encoded
    → encode_items (payload ++ encoded) items ≡ ok all
    → encode_items payload (item x items) ≡ ok all
unfolding rlp_encode
encode_item_lem payload encoded all x items e h = rw e h

encode_leaf : (bs : Bytes) → rlp_encode (bytes bs) ≡ encode_bytes bs
unfolding rlp_encode
encode_leaf bs = refl

encode_end : (payload : Bytes) → encode_items payload nil ≡ ok payload
unfolding rlp_encode
encode_end payload = refl

mutual
  unfolding rlp

  encode_lem : (x : RlpInput) → IsSmall (length (rlp x)) → rlp_encode x ≡ ok (rlp x)
  encode_lem (bytes bs) small =
      encode_leaf bs ∙ encode_bytes_lem bs (omega (arith, length-bytes-le bs))
  encode_lem (list items) small =
      encode_list_lem items (rlp_items items)
        (encode_items_lem items [] (payload-IsSmall items small)) (payload-IsSmall items small)

  encode_items_lem :
      (items : RlpItems) (payload : Bytes)
      → IsSmall (length (rlp_items items))
      → encode_items payload items ≡ ok (payload ++ rlp_items items)
  encode_items_lem nil payload small = encode_end payload ∙ ap ok (sym (append-nil payload))
  encode_items_lem (item x items) payload small =
      encode_item_lem payload (rlp x) (payload ++ (rlp x ++ rlp_items items)) x items
        (encode_lem x (omega (arith, length-append (rlp x) (rlp_items items))))
        (encode_items_lem items (payload ++ rlp x)
            (omega (arith, length-append (rlp x) (rlp_items items)))
          ∙ ap ok (append_assoc payload (rlp x) (rlp_items items)))

-- `rlpEncode` throws nothing and gives the RLP of its input, if that has less than 2 ^ 64 bytes.
pub rlp_encode-eq-rlp : (x : RlpInput) → IsSmall (length (rlp x)) → rlp_encode x ≡ ok (rlp x)
rlp_encode-eq-rlp x small = encode_lem x small

-- `rlpEncode` gives bytes that the decoder reads back as the input, and leaves what follows them, if
-- the encoding has less than 2 ^ 64 bytes and the fuel is at least the size of the input.
pub decode-rlp_encode :
    (x : RlpInput) (fuel : ℕ) (s : Bytes)
    → size x ≤ fuel
    → IsSmall (length (rlp x))
    → (b : Bytes) × (rlp_encode x ≡ ok b) × (decode fuel (b ++ s) ≡ (x, s))
decode-rlp_encode x fuel s enough small =
    (rlp x, rlp_encode-eq-rlp x small, decode-rlp x fuel s enough small)
