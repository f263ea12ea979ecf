-- ===== src/Evm/Rlp/Spec/Decode.antt =====
-- RLP is read back by its decoder, so that an encoding determines what it encodes.
use wallet_bot.Base.{
  ℕ, suc, ◌+◌, ◌-◌, ◌^◌, ◌≤◌, ◌<◌, ◌≡◌, refl, ap, ◌∙◌, Bool, true, false, [], ◌∷◌, ◌++◌, ltb,
  length, take, drop, arith, append_assoc, Bool-cases, inl, inr,
}
use wallet_bot.Evm.Hex.{Bytes}
use wallet_bot.Evm.Hex.Digits.{bytes_value_from}
use wallet_bot.Evm.Hex.Numbers.{big_int_to_bytes_lem}
use wallet_bot.Evm.Rlp.{RlpInput, bytes, list, RlpItems, nil, item}
use wallet_bot.Evm.Rlp.Spec.{big_endian, head_of, rlp_bytes, read_head, long_head, decode}

pub take_append : (p s : Bytes) → take (length p) (p ++ s) ≡ p
take_append [] s = refl
take_append (b ∷ p) s = ap (λ t. b ∷ t) (take_append p s)

pub drop_append : (p s : Bytes) → drop (length p) (p ++ s) ≡ s
drop_append [] s = refl
drop_append (b ∷ p) s = drop_append p s

-- Lengths that eight bytes hold.
abbrev pub IsSmall : ℕ → Type 0
IsSmall n = n < 2 ^ 64

long_head_lem :
    (is_list : Bool) (k : ℕ) (p s : Bytes)
    → k ≡ length p
    → long_head is_list k (p ++ s)
      ≡ record { is_list = is_list; size = bytes_value_from 0 p; after = s }
long_head_lem is_list k p s e = rw (e, take_append p s, drop_append p s)

pub big_endian_lem :
    (n : ℕ)
    → 56 ≤ n
    → IsSmall n
    → (bytes_value_from 0 (big_endian n) ≡ n)
      × (1 ≤ length (big_endian n))
      × (length (big_endian n) ≤ 8)
unfolding big_endian
big_endian_lem n long small =
    let of_n = (big_int_to_bytes_lem n).1 in
    (of_n.spelled, some_byte (big_int_to_bytes_lem n).0 of_n.spelled, of_n.short 8 small)
  where
    some_byte : (p : Bytes) → bytes_value_from 0 p ≡ n → 1 ≤ length p
    some_byte [] e = absurd (omega arith)
    some_byte (b ∷ p) e = omega arith

not_below : (a b : ℕ) → b ≤ a → ltb a b ≡ false
not_below a b h = ground arith

below : (a b : ℕ) → a < b → ltb a b ≡ true
below a b h = ground arith

read_long_string :
    (p s : Bytes)
    → 1 ≤ length p
    → length p ≤ 8
    → read_head ((length p + 128 + 55) ∷ (p ++ s))
      ≡ record { is_list = false; size = bytes_value_from 0 p; after = s }
unfolding read_head
read_long_string p s low high =
    let b = length p + 128 + 55 in
    rw
      (
        not_below (length p + 128 + 55) 128 (omega arith),
        not_below (length p + 128 + 55) 184 (omega arith),
        below (length p + 128 + 55) 192 (omega arith),
      )
      (long_head_lem false (length p + 128 + 55 - 183) p s (omega arith))

read_long_list :
    (p s : Bytes)
    → 1 ≤ length p
    → length p ≤ 8
    → read_head ((length p + 192 + 55) ∷ (p ++ s))
      ≡ record { is_list = true; size = bytes_value_from 0 p; after = s }
unfolding read_head
read_long_list p s low high =
    rw
      (
        not_below (length p + 192 + 55) 128 (omega arith),
        not_below (length p + 192 + 55) 184 (omega arith),
        not_below (length p + 192 + 55) 192 (omega arith),
        not_below (length p + 192 + 55) 248 (omega arith),
      )
      (long_head_lem true (length p + 192 + 55 - 247) p s (omega arith))

read_string :
    (n : ℕ) (s : Bytes)
    → IsSmall n
    → read_head (head_of n 128 ++ s) ≡ record { is_list = false; size = n; after = s }
unfolding read_head head_of
read_string n s small = elim (Bool-cases (ltb n 56)) [
  | inl e ↦ rw e (ground arith)
  | inr e ↦
      let (spelled, some_byte, short) = big_endian_lem n (ground arith) small in
      rw e (
        read_long_string (big_endian n) s some_byte short
        ∙ ap (λ k. record { is_list = false; size = k; after = s }) spelled)
]

pub read_list :
    (n : ℕ) (s : Bytes)
    → IsSmall n
    → read_head (head_of n 192 ++ s) ≡ record { is_list = true; size = n; after = s }
unfolding read_head head_of
read_list n s small = elim (Bool-cases (ltb n 56)) [
  | inl e ↦ rw e (ground arith)
  | inr e ↦
      let (spelled, some_byte, short) = big_endian_lem n (ground arith) small in
      rw e (
        read_long_list (big_endian n) s some_byte short
        ∙ ap (λ k. record { is_list = true; size = k; after = s }) spelled)
]

-- One input: its head is read, and its payload follows.
pub decode_bytes :
    (f : ℕ) (bs e s : Bytes)
    → read_head (e ++ s) ≡ record { is_list = false; size = length bs; after = bs ++ s }
    → decode (suc f) (e ++ s) ≡ (bytes bs, s)
unfolding decode
decode_bytes f bs e s h = rw (h, take_append bs s, drop_append bs s)

pub head_payload :
    (p s : Bytes) (offset : ℕ) (is_list : Bool)
    → ((t : Bytes)
        → read_head (head_of (length p) offset ++ t)
          ≡ record { is_list = is_list; size = length p; after = t })
    → read_head ((head_of (length p) offset ++ p) ++ s)
      ≡ record { is_list = is_list; size = length p; after = p ++ s }
head_payload p s offset is_list h = rw (append_assoc (head_of (length p) offset) p s) (h (p ++ s))

read_single :
    (b : ℕ) (s : Bytes)
    → ltb b 128 ≡ true
    → read_head (b ∷ s) ≡ record { is_list = false; size = 1; after = b ∷ s }
unfolding read_head
read_single b s h = rw h

pub read_bytes :
    (bs s : Bytes)
    → IsSmall (length bs)
    → read_head (rlp_bytes bs ++ s) ≡ record { is_list = false; size = length bs; after = bs ++ s }
read_bytes [] s small = read_string 0 s small
read_bytes (b ∷ []) s small = elim (Bool-cases (ltb b 128)) [
  | inl e ↦ rw e (read_single b s e)
  | inr e ↦ rw e (head_payload (b ∷ []) s 128 false (λ t. read_string 1 t small))
]
read_bytes (b ∷ c ∷ bs) s small =
    head_payload (b ∷ c ∷ bs) s 128 false (λ t. read_string (length (b ∷ c ∷ bs)) t small)

-- The size of an input: a bound of the fuel that its decoding takes.
unfoldable mutual
  pub size : RlpInput → ℕ
  size (bytes bs) = 1
  size (list items) = suc (size_items items)

  pub size_items : RlpItems → ℕ
  size_items nil = 0
  size_items (item x items) = suc (size x + size_items items)
