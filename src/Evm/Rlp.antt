-- ===== src/Evm/Rlp.antt =====
-- RLP: packages/blockchain/src/evm/hex.ts, `encodeLength` and `rlpEncode`.
pub mod Spec
use wallet_bot.Base.{ℕ, ◌+◌, ◌%◌, List, [], ◌∷◌, ◌++◌, ltb, if◌then◌else◌, length}
use wallet_bot.Base.Int.{ℤ, pos}
use wallet_bot.Base.Result.{Result, ok, err, ◌>>=◌}
use wallet_bot.Evm.Hex.{Bytes, HexError, big_int_to_bytes}

-- A byte string, or a list of inputs.
mutual
  pub data RlpInput : Type 0 where
    bytes : Bytes → RlpInput
    list : RlpItems → RlpInput

  pub data RlpItems : Type 0 where
    nil : RlpItems
    item : RlpInput → RlpItems → RlpItems

-- `Uint8Array.from` keeps the low eight bits of a number.
unfoldable pub encode_length : ℕ → ℕ → Result HexError Bytes
encode_length n offset = if ltb n 56 then ok ((n + offset) % 256 ∷ []) else (do
  length_bytes ← big_int_to_bytes (pos n)
  ok ((length length_bytes + offset + 55) % 256 ∷ length_bytes))

abbrev with_length : Bytes → ℕ → Result HexError Bytes
with_length payload offset = do head ← encode_length (length payload) offset; ok (head ++ payload)

-- A single byte below 0x80 is its own encoding.
abbrev pub encode_bytes : Bytes → Result HexError Bytes
encode_bytes [] = with_length [] 0x80
encode_bytes (b ∷ []) = if ltb b 0x80 then ok (b ∷ []) else with_length (b ∷ []) 0x80
encode_bytes (b ∷ c ∷ bs) = with_length (b ∷ c ∷ bs) 0x80

-- The loop over a list collects the payload.
unfoldable mutual
  pub rlp_encode : RlpInput → Result HexError Bytes
  rlp_encode (bytes bs) = encode_bytes bs
  rlp_encode (list items) = do payload ← encode_items [] items; with_length payload 0xc0

  pub encode_items : Bytes → RlpItems → Result HexError Bytes
  encode_items payload nil = ok payload
  encode_items payload (item x items) = do
    encoded ← rlp_encode x
    encode_items (payload ++ encoded) items
