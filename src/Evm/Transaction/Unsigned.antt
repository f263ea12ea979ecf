-- ===== src/Evm/Transaction/Unsigned.antt =====
-- What the bytes that are signed determine: packages/blockchain/src/evm/transaction.ts.
use wallet_bot.Base.{
  ℕ, ◌≡◌, ◌≢◌, refl, sym, ap, subst, ◌∙◌, [], ◌∷◌, Option, none, some, length, arith, ltb,
  Bool-cases, inl, inr,
}
use wallet_bot.Base.Int.{ℤ, pos, negsuc}
use wallet_bot.Base.Result.{Result, ok, err, >>=-eq-ok}
use wallet_bot.Evm.Hex.{Bytes, HexError, from_hex, big_int_to_bytes}
use wallet_bot.Evm.Hex.Digits.{bytes_value_from}
use wallet_bot.Evm.Hex.Numbers.{big_int_to_bytes_lem}
use wallet_bot.Evm.Rlp.{list, RlpItems, nil, rlp_encode}
use wallet_bot.Evm.Rlp.Spec.{rlp, rlp_items, head_of}
use wallet_bot.Evm.Rlp.Spec.Decode.{IsSmall}
use wallet_bot.Evm.Rlp.Spec.RoundTrip.{rlp-injective}
use wallet_bot.Evm.Rlp.Spec.Refine.{rlp_encode-eq-rlp}
use wallet_bot.Evm.Transaction.{
  EvmTxType, legacy, eip1559, EvmTransactionRequest, Common, common_fields, price_bytes,
  legacy_base, eip1559_base, typed_fields, fields, with_type, serialize_unsigned, assert_request,
  three, legacy_slots, eip1559_slots,
}

ok_injective : {x y : Bytes} → ◌≡◌ {A = Result HexError Bytes} (ok x) (ok y) → x ≡ y
ok_injective e = cc

negative_throws : (n : ℕ) (bs : Bytes) → big_int_to_bytes (negsuc n) ≢ ok bs
unfolding big_int_to_bytes
negative_throws n bs h = cc

-- Integers with the same bytes are equal.
pub big_int_to_bytes-injective :
    (m n : ℤ) (bs : Bytes) → big_int_to_bytes m ≡ ok bs → big_int_to_bytes n ≡ ok bs → m ≡ n
big_int_to_bytes-injective (negsuc m) n bs hm hn = absurd (negative_throws m bs hm)
big_int_to_bytes-injective (pos m) (negsuc n) bs hm hn = absurd (negative_throws n bs hn)
big_int_to_bytes-injective (pos m) (pos n) bs hm hn =
    let (p, of_m) = big_int_to_bytes_lem m in
    let (q, of_n) = big_int_to_bytes_lem n in
    ap pos (
      sym of_m.spelled
      ∙ ap (bytes_value_from 0) (ok_injective (sym of_m.result ∙ hm ∙ sym hn ∙ of_n.result))
      ∙ of_n.spelled)

price_bytes-injective :
    (p q : Option ℤ) (bs : Bytes) → price_bytes p ≡ ok bs → price_bytes q ≡ ok bs → p ≡ q
unfolding price_bytes
price_bytes-injective none q bs hp hq = absurd cc
price_bytes-injective (some m) none bs hp hq = absurd cc
price_bytes-injective (some m) (some n) bs hp hq = ap some (big_int_to_bytes-injective m n bs hp hq)

-- The fields as bytes, each from its number.
abbrev CommonOf : EvmTransactionRequest → Common → Type 0
CommonOf r c =
    (from_hex r.to ≡ ok c.to)
    × (big_int_to_bytes r.chain_id ≡ ok c.chain_id)
    × (big_int_to_bytes r.nonce ≡ ok c.nonce)
    × (big_int_to_bytes r.gas_limit ≡ ok c.gas_limit)
    × (big_int_to_bytes r.value ≡ ok c.value)

common_lem : (r : EvmTransactionRequest) (c : Common) → common_fields r ≡ ok c → CommonOf r c
unfolding common_fields
common_lem r c h = ground arith

legacy_lem :
    (r : EvmTransactionRequest) (c : Common) (items : RlpItems)
    → typed_fields legacy r c none ≡ ok items
    → (price : Bytes) × (price_bytes r.gas_price ≡ ok price)
      × (items ≡ legacy_base c price r.data_bytes (three c.chain_id [] []))
unfolding legacy_slots
legacy_lem r c items h =
    let (price, e, h1) = >>=-eq-ok (price_bytes r.gas_price) _ h in (price, e, ground arith)

eip1559_lem :
    (r : EvmTransactionRequest) (c : Common) (items : RlpItems)
    → typed_fields eip1559 r c none ≡ ok items
    → (tip : Bytes) × (fee : Bytes) × (price_bytes r.max_priority_fee_per_gas ≡ ok tip)
      × (price_bytes r.max_fee_per_gas ≡ ok fee)
      × (items ≡ eip1559_base c tip fee r.data_bytes nil)
unfolding eip1559_slots
eip1559_lem r c items h =
    let (tip, e, h1) = >>=-eq-ok (price_bytes r.max_priority_fee_per_gas) _ h in
    let (fee, e', h2) = >>=-eq-ok (price_bytes r.max_fee_per_gas) _ h1 in
    (tip, fee, e, e', ground arith)

abbrev CommonSame : Common → Common → Type 0
CommonSame c d =
    (c.to ≡ d.to)
    × (c.chain_id ≡ d.chain_id)
    × (c.nonce ≡ d.nonce)
    × (c.gas_limit ≡ d.gas_limit)
    × (c.value ≡ d.value)

legacy_base-injective :
    (c d : Common) (p q x y : Bytes)
    → legacy_base c p x (three c.chain_id [] []) ≡ legacy_base d q y (three d.chain_id [] [])
    → CommonSame c d × (p ≡ q) × (x ≡ y)
legacy_base-injective c d p q x y e = ((cc, cc, cc, cc, cc), cc, cc)

eip1559_base-injective :
    (c d : Common) (p q f g x y : Bytes)
    → eip1559_base c p f x nil ≡ eip1559_base d q g y nil
    → CommonSame c d × (p ≡ q) × (f ≡ g) × (x ≡ y)
eip1559_base-injective c d p q f g x y e = ((cc, cc, cc, cc, cc), cc, cc, cc)

abbrev pub SamePrices : EvmTxType → EvmTransactionRequest → EvmTransactionRequest → Type 0
SamePrices legacy r q = r.gas_price ≡ q.gas_price
SamePrices eip1559 r q =
    (r.max_priority_fee_per_gas ≡ q.max_priority_fee_per_gas)
    × (r.max_fee_per_gas ≡ q.max_fee_per_gas)

-- Two requests agree in the chain, the recipient and everything else that is signed.
abbrev pub IsSameTransaction : EvmTransactionRequest → EvmTransactionRequest → Type 0
IsSameTransaction r q =
    (r.type ≡ q.type)
    × (r.chain_id ≡ q.chain_id)
    × (r.nonce ≡ q.nonce)
    × (from_hex r.to ≡ from_hex q.to)
    × (r.value ≡ q.value)
    × (r.data_bytes ≡ q.data_bytes)
    × (r.gas_limit ≡ q.gas_limit)
    × SamePrices r.type r q

abbrev length_of : Result HexError RlpItems → ℕ
length_of (ok items) = length (rlp (list items))
length_of (err e) = 0

-- The bytes that the fields of the request take.
unfoldable pub unsigned_length : EvmTransactionRequest → ℕ
unsigned_length r = length_of (fields r none)

unsigned_lem :
    (r : EvmTransactionRequest) (b : Bytes)
    → IsSmall (unsigned_length r)
    → serialize_unsigned r ≡ ok b
    → (c : Common) × (items : RlpItems) × CommonOf r c
      × (typed_fields r.type r c none ≡ ok items)
      × (b ≡ with_type r.type (rlp (list items)))
      × IsSmall (length (rlp (list items)))
unfolding serialize_unsigned fields unsigned_length
unsigned_lem r b small h =
    let (u, checked, h1) = >>=-eq-ok (assert_request r) _ h in
    let (items, made, h2) = >>=-eq-ok (fields r none) _ h1 in
    let (encoded, e, h3) = >>=-eq-ok (rlp_encode (list items)) _ h2 in
    let (c, common, typed) = >>=-eq-ok (common_fields r) _ made in
    let fits = subst (λ x. IsSmall (length_of x)) made small in
    let same = ok_injective (sym e ∙ rlp_encode-eq-rlp (list items) fits) in
    (
      c,
      items,
      common_lem r c common,
      typed,
      ok_injective (sym h3) ∙ ap (with_type r.type) same,
      fits,
    )

list_head : (items : RlpItems) (s : Bytes) → rlp (list items) ≢ 0x02 ∷ s
unfolding rlp head_of
list_head items s h = elim (Bool-cases (ltb (length (rlp_items items)) 56)) [
  | inl e ↦ absurd (ground arith)
  | inr e ↦ absurd (ground arith)
]

items_injective :
    (x y : RlpItems)
    → IsSmall (length (rlp (list x)))
    → IsSmall (length (rlp (list y)))
    → rlp (list x) ≡ rlp (list y)
    → x ≡ y
items_injective x y hx hy e = let same = rlp-injective (list x) (list y) hx hy e in cc

tail_injective : (x y : Bytes) → ◌≡◌ {A = Bytes} (0x02 ∷ x) (0x02 ∷ y) → x ≡ y
tail_injective x y e = cc

-- What two requests of the given types agree in.
abbrev Agree : EvmTxType → EvmTxType → EvmTransactionRequest → EvmTransactionRequest → Type 0
Agree t t' r q =
    (t ≡ t')
    × (r.chain_id ≡ q.chain_id)
    × (r.nonce ≡ q.nonce)
    × (from_hex r.to ≡ from_hex q.to)
    × (r.value ≡ q.value)
    × (r.data_bytes ≡ q.data_bytes)
    × (r.gas_limit ≡ q.gas_limit)
    × SamePrices t r q

common_agree :
    (r q : EvmTransactionRequest) (c d : Common)
    → CommonOf r c
    → CommonOf q d
    → CommonSame c d
    → (r.chain_id ≡ q.chain_id)
      × (r.nonce ≡ q.nonce)
      × (from_hex r.to ≡ from_hex q.to)
      × (r.value ≡ q.value)
      × (r.gas_limit ≡ q.gas_limit)
common_agree r q c d (to, chain, nonce, gas, value) (to', chain', nonce', gas', value')
      (a, b, n, g, v) =
    (
      big_int_to_bytes-injective r.chain_id q.chain_id c.chain_id chain (chain' ∙ ap ok (sym b)),
      big_int_to_bytes-injective r.nonce q.nonce c.nonce nonce (nonce' ∙ ap ok (sym n)),
      to ∙ ap ok a ∙ sym to',
      big_int_to_bytes-injective r.value q.value c.value value (value' ∙ ap ok (sym v)),
      big_int_to_bytes-injective r.gas_limit q.gas_limit c.gas_limit gas (gas' ∙ ap ok (sym g)),
    )

agree :
    (t t' : EvmTxType) (r q : EvmTransactionRequest) (c d : Common) (x y : RlpItems)
    → CommonOf r c
    → CommonOf q d
    → typed_fields t r c none ≡ ok x
    → typed_fields t' q d none ≡ ok y
    → IsSmall (length (rlp (list x)))
    → IsSmall (length (rlp (list y)))
    → with_type t (rlp (list x)) ≡ with_type t' (rlp (list y))
    → Agree t t' r q
agree legacy eip1559 r q c d x y hc hd hx hy sx sy e = absurd (list_head x (rlp (list y)) e)
agree eip1559 legacy r q c d x y hc hd hx hy sx sy e = absurd (list_head y (rlp (list x)) (sym e))
agree legacy legacy r q c d x y hc hd hx hy sx sy e =
    let (p, hp, made) = legacy_lem r c x hx in
    let (p', hp', made') = legacy_lem q d y hy in
    let (same, prices, datas) =
      legacy_base-injective c d p p' r.data_bytes q.data_bytes
        (sym made ∙ items_injective x y sx sy e ∙ made') in
    let (chain, nonce, to, value, gas) = common_agree r q c d hc hd same in
    (
      refl,
      chain,
      nonce,
      to,
      value,
      datas,
      gas,
      price_bytes-injective r.gas_price q.gas_price p hp (hp' ∙ ap ok (sym prices)),
    )
agree eip1559 eip1559 r q c d x y hc hd hx hy sx sy e =
    let (p, f, hp, hf, made) = eip1559_lem r c x hx in
    let (p', f', hp', hf', made') = eip1559_lem q d y hy in
    let (same, tips, fees, datas) = eip1559_base-injective c d p p' f f' r.data_bytes q.data_bytes (
      sym made
      ∙ items_injective x y sx sy (tail_injective (rlp (list x)) (rlp (list y)) e)
      ∙ made') in
    let (chain, nonce, to, value, gas) = common_agree r q c d hc hd same in
    (
      refl,
      chain,
      nonce,
      to,
      value,
      datas,
      gas,
      (
        price_bytes-injective r.max_priority_fee_per_gas q.max_priority_fee_per_gas p hp
            (hp' ∙ ap ok (sym tips)),
        price_bytes-injective r.max_fee_per_gas q.max_fee_per_gas f hf (hf' ∙ ap ok (sym fees)),
      ),
    )

-- Two requests whose unsigned payloads are the same bytes, both of less than 2 ^ 64 bytes, have the
-- same type, chain, nonce, recipient, value, data, gas limit and prices: a signature of a payload is
-- a signature of one transaction on one chain.
pub serialize_unsigned-injective :
    (r q : EvmTransactionRequest) (b : Bytes)
    → IsSmall (unsigned_length r)
    → IsSmall (unsigned_length q)
    → serialize_unsigned r ≡ ok b
    → serialize_unsigned q ≡ ok b
    → IsSameTransaction r q
serialize_unsigned-injective r q b small small' h h' =
    let (c, x, hc, hx, e, sx) = unsigned_lem r b small h in
    let (d, y, hd, hy, e', sy) = unsigned_lem q b small' h' in
    agree r.type q.type r q c d x y hc hd hx hy sx sy (sym e ∙ e')
