-- ===== src/Evm/Rlp/Spec.antt =====
-- RLP after its definition, without errors and without the limit of a byte, and a decoder of it.
pub mod Decode
pub mod RoundTrip
pub mod Refine
use wallet_bot.Base.{
  ℕ, zero, suc, ◌+◌, ◌-◌, Bool, true, false, List, [], ◌∷◌, ◌++◌, ltb, if◌then◌else◌, length, take,
  drop,
}
use wallet_bot.Base.Text.{is_empty}
use wallet_bot.Evm.Hex.{Bytes}
use wallet_bot.Evm.Hex.Digits.{bytes_value_from}
use wallet_bot.Evm.Hex.Numbers.{big_int_to_bytes_lem}
use wallet_bot.Evm.Rlp.{RlpInput, bytes, list, RlpItems, nil, item}

-- The bytes of a number, the greatest first.
pub big_endian : ℕ → Bytes
big_endian n = (big_int_to_bytes_lem n).0

unfoldable pub head_of : ℕ → ℕ → Bytes
head_of n offset =
    if ltb n 56 then (n + offset) ∷ [] else (length (big_endian n) + offset + 55) ∷ big_endian n

abbrev pub rlp_bytes : Bytes → Bytes
rlp_bytes [] = head_of 0 0x80
rlp_bytes (b ∷ []) = if ltb b 0x80 then b ∷ [] else head_of 1 0x80 ++ b ∷ []
rlp_bytes (b ∷ c ∷ bs) = head_of (length (b ∷ c ∷ bs)) 0x80 ++ b ∷ c ∷ bs

unfoldable mutual
  pub rlp : RlpInput → Bytes
  rlp (bytes bs) = rlp_bytes bs
  rlp (list items) = head_of (length (rlp_items items)) 0xc0 ++ rlp_items items

  pub rlp_items : RlpItems → Bytes
  rlp_items nil = []
  rlp_items (item x items) = rlp x ++ rlp_items items

-- What a head says: whether it is one of a list, the length of the payload, and what follows it.
pub record Head : Type 0 where
  pub is_list : Bool
  pub size : ℕ
  pub after : Bytes

abbrev long_head : Bool → ℕ → Bytes → Head
long_head is_list k s = record {
  is_list = is_list;
  size = bytes_value_from 0 (take k s);
  after = drop k s;
}

unfoldable pub read_head : Bytes → Head
read_head [] = record { is_list = false; size = 0; after = [] }
read_head (b ∷ s) =
    if ltb b 128
    then record { is_list = false; size = 1; after = b ∷ s }
    else if ltb b 184
    then record { is_list = false; size = b - 128; after = s }
    else if ltb b 192
    then long_head false (b - 183) s
    else if ltb b 248
    then record { is_list = true; size = b - 192; after = s }
    else long_head true (b - 247) s

-- The first input of a byte string and what follows it. The fuel bounds the nesting and the number
-- of items.
unfoldable mutual
  pub decode : ℕ → Bytes → RlpInput × Bytes
  decode zero s = (bytes [], s)
  decode (suc fuel) s =
      let head = read_head s in
      let payload = take head.size head.after in
      let items = decode_items fuel payload in
      (if head.is_list then list items else bytes payload, drop head.size head.after)

  pub decode_items : ℕ → Bytes → RlpItems
  decode_items zero s = nil
  decode_items (suc fuel) s =
      let (x, rest) = decode fuel s in
      let items = decode_items fuel rest in if is_empty s then nil else item x items
