-- ===== src/Evm/Hex/Words.antt =====
-- Quantities and ABI words there and back: packages/blockchain/src/evm/hex.ts.
use wallet_bot.Base.{
  ℕ, zero, suc, ◌-◌, ◌*◌, ◌/◌, ◌%◌, ◌^◌, ◌<◌, ◌≡◌, refl, sym, ap, ◌∙◌, subst, true, false, [], ◌∷◌,
  ◌++◌, if◌then◌else◌, length, replicate, take, All, All-append, length-append, arith,
  length-replicate,
}
use wallet_bot.Base.Int.{pos}
use wallet_bot.Base.Result.{ok, err}
use wallet_bot.Base.Text.{Text, is_empty, is_space, IsSolid, trim_solid}
use wallet_bot.Evm.Hex.{
  Bytes, to_hex, is_hex_char, all_hex, emit_hex, hex_digits, hex_value_from, hex_char, pad_left,
  text, parse_quantity, to_quantity, big_int_to_bytes_padded, parse_trimmed_quantity,
  decode_uint256, decode_word, not_big_int,
}
use wallet_bot.Evm.Hex.Digits.{
  IsByte, bytes_value_from, bytes_value-pairs, all_hex-to_hex, pairs-to_hex, length-to_hex,
}
use wallet_bot.Evm.Hex.Numbers.{value-hex_digits, all_hex-hex_digits, big_int_to_bytes_lem}

hex_char_solid : (c : ℕ) → is_hex_char c ≡ true → is_space c ≡ false
hex_char_solid c h = ground arith

all_hex-IsSolid : (s : Text) → all_hex s ≡ true → IsSolid s
all_hex-IsSolid [] h = tt
all_hex-IsSolid (c ∷ s) h = ground (arith, hex_char_solid c, all_hex-IsSolid s)

emit-is_empty : (f n : ℕ) (out : Text) → is_empty out ≡ false → is_empty (emit_hex f n out) ≡ false
unfolding emit_hex
emit-is_empty zero n out h = h
emit-is_empty (suc f) n out h = ground (arith, emit-is_empty f (n / 16) (hex_char (n % 16) ∷ out))

hex_digits-is_empty : (n : ℕ) → is_empty (hex_digits n) ≡ false
unfolding hex_digits emit_hex
hex_digits-is_empty n = ground (arith, emit-is_empty n (n / 16) (hex_char (n % 16) ∷ []) refl)

parse_hex :
    (s : Text)
    → is_empty s ≡ false
    → all_hex s ≡ true
    → parse_trimmed_quantity (b'0' ∷ b'x' ∷ s) ≡ ok (pos (hex_value_from 0 s))
parse_hex [] e h = absurd cc
parse_hex (c ∷ s) e h = rw h

-- A quantity that is not negative is read back from its own text.
pub parse_quantity-to_quantity :
    (n : ℕ) → (s : Text) × (to_quantity (pos n) ≡ ok s) × (parse_quantity (text s) ≡ ok (pos n))
unfolding parse_quantity to_quantity
parse_quantity-to_quantity n = (
  b'0' ∷ b'x' ∷ hex_digits n,
  refl,
  ap parse_trimmed_quantity (
        trim_solid (b'0' ∷ b'x' ∷ hex_digits n)
          (refl, (refl, all_hex-IsSolid (hex_digits n) (all_hex-hex_digits n))))
      ∙ parse_hex (hex_digits n) (hex_digits-is_empty n) (all_hex-hex_digits n)
      ∙ ap (λ k. ok (pos k)) (value-hex_digits n),
)

zeros_value :
    (k : ℕ) (bs : Bytes) → bytes_value_from 0 (replicate k 0 ++ bs) ≡ bytes_value_from 0 bs
zeros_value zero bs = refl
zeros_value (suc k) bs = zeros_value k bs

zeros-IsByte : (k : ℕ) → All IsByte (replicate k 0)
zeros-IsByte zero = tt
zeros-IsByte (suc k) = (omega arith, zeros-IsByte k)

hex_value-to_hex :
    (bs : Bytes) → All IsByte bs → hex_value_from 0 (to_hex bs) ≡ bytes_value_from 0 bs
hex_value-to_hex bs h =
    sym (bytes_value-pairs 0 (to_hex bs) (omega (arith, length-to_hex bs)))
    ∙ ap (bytes_value_from 0) (pairs-to_hex bs h)

take_whole : (s : Text) (n : ℕ) → length s ≡ n → take n s ≡ s
take_whole [] zero h = refl
take_whole [] (suc n) h = refl
take_whole (c ∷ s) zero h = absurd (omega arith)
take_whole (c ∷ s) (suc n) h = ap (λ t. c ∷ t) (take_whole s n (omega arith))

read_hex :
    (t : Text)
    → all_hex t ≡ true
    → (if all_hex t then ok (pos (hex_value_from 0 t)) else err not_big_int)
      ≡ ok (pos (hex_value_from 0 t))
read_hex t h = rw h

decode_full :
    (s : Text) → length s ≡ 64 → all_hex s ≡ true → decode_word s ≡ ok (pos (hex_value_from 0 s))
decode_full [] n h = absurd (omega arith)
decode_full (c ∷ s) n h = rw n (
    subst
      (λ t.
        (if all_hex t then ok (pos (hex_value_from 0 t)) else err not_big_int)
        ≡ ok (pos (hex_value_from 0 (c ∷ s))))
      (sym (take_whole (c ∷ s) 64 n)) (read_hex (c ∷ s) h))

-- The bytes of a number, padded to a width that they fit in.
padded_lem :
    (n width : ℕ)
    → n < 16 ^ (2 * width)
    → (w : Bytes) × (big_int_to_bytes_padded (pos n) width ≡ ok w)
      × (length w ≡ width)
      × (bytes_value_from 0 w ≡ n)
      × All IsByte w
unfolding big_int_to_bytes_padded
padded_lem n width fits =
    let (bs, of_n) = big_int_to_bytes_lem n in
    let short = of_n.short width fits in
    (
      pad_left width bs,
      rw of_n.result (ground arith),
      omega (
        arith,
        length-append (replicate (width - length bs) 0) bs,
        length-replicate {A = ℕ} (width - length bs) 0,
      ),
      zeros_value (width - length bs) bs ∙ of_n.spelled,
      All-append IsByte (replicate (width - length bs) 0) bs (zeros-IsByte (width - length bs))
          of_n.are_bytes,
    )

-- A number below 2 ^ 256 is encoded as a word of 32 bytes, and the hexadecimal text of the word is
-- decoded as the number.
pub decode_uint256-padded :
    (n : ℕ)
    → n < 2 ^ 256
    → (w : Bytes) × (big_int_to_bytes_padded (pos n) 32 ≡ ok w)
      × (length w ≡ 32)
      × (decode_uint256 (b'0' ∷ b'x' ∷ to_hex w) ≡ ok (pos n))
unfolding decode_uint256
decode_uint256-padded n fits =
    let (w, encoded, long, spelled, bytes) = padded_lem n 32 fits in
    (
      w,
      encoded,
      long,
      decode_full (to_hex w) (omega (arith, length-to_hex w)) (all_hex-to_hex w bytes)
          ∙ ap (λ k. ok (pos k)) (hex_value-to_hex w bytes ∙ spelled),
    )
