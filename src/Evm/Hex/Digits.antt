-- ===== src/Evm/Hex/Digits.antt =====
-- Hexadecimal digits read back: packages/blockchain/src/evm/hex.ts.
use wallet_bot.Base.{
  ℕ, ◌+◌, ◌*◌, ◌/◌, ◌%◌, ◌<◌, ◌≡◌, refl, ap, ◌∙◌, true, [], ◌∷◌, length, All, arith,
}
use wallet_bot.Base.Result.{ok}
use wallet_bot.Base.Text.{Text}
use wallet_bot.Evm.Hex.{
  Bytes, hex_char, to_hex, is_hex_char, all_hex, hex_value, pairs, strip_prefix, from_hex,
  hex_value_from,
}

abbrev pub IsByte : ℕ → Type 0
IsByte b = b < 256

pub hex_char_lem :
    (n : ℕ) → n < 16 → (is_hex_char (hex_char n) ≡ true) × (hex_value (hex_char n) ≡ n)
hex_char_lem n h = ground arith

hex_value-lt : (c : ℕ) → is_hex_char c ≡ true → hex_value c < 16
hex_value-lt c h = ground arith

-- The number that bytes spell, the greatest first.
abbrev pub bytes_value_from : ℕ → Bytes → ℕ
bytes_value_from n [] = n
bytes_value_from n (b ∷ bs) = bytes_value_from (n * 256 + b) bs

pub bytes_value-pairs :
    (n : ℕ) (s : Text) → length s % 2 ≡ 0 → bytes_value_from n (pairs s) ≡ hex_value_from n s
bytes_value-pairs n [] h = refl
bytes_value-pairs n (c ∷ []) h = absurd (omega arith)
bytes_value-pairs n (c ∷ d ∷ s) h =
    ap (λ k. bytes_value_from k (pairs s)) (omega arith)
    ∙ bytes_value-pairs ((n * 16 + hex_value c) * 16 + hex_value d) s (omega arith)

pub pairs-IsByte : (s : Text) → all_hex s ≡ true → All IsByte (pairs s)
pairs-IsByte [] h = tt
pairs-IsByte (c ∷ []) h = tt
pairs-IsByte (c ∷ d ∷ s) h = ground (arith, hex_value-lt c, hex_value-lt d, pairs-IsByte s)

pub length-pairs : (s : Text) → length (pairs s) ≡ length s / 2
length-pairs [] = refl
length-pairs (c ∷ []) = omega arith
length-pairs (c ∷ d ∷ s) = omega (arith, length-pairs s)

pub all_hex-to_hex : (bs : Bytes) → All IsByte bs → all_hex (to_hex bs) ≡ true
all_hex-to_hex [] h = refl
all_hex-to_hex (b ∷ bs) (h, hs) = rw (
  (hex_char_lem (b / 16) (omega arith)).0,
  (hex_char_lem (b % 16) (omega arith)).0,
  all_hex-to_hex bs hs,
)

pub pairs-to_hex : (bs : Bytes) → All IsByte bs → pairs (to_hex bs) ≡ bs
pairs-to_hex [] h = refl
pairs-to_hex (b ∷ bs) (h, hs) =
    rw
      (
        (hex_char_lem (b / 16) (omega arith)).1,
        (hex_char_lem (b % 16) (omega arith)).1,
        pairs-to_hex bs hs,
      )
      (ap (λ k. k ∷ bs) (omega arith))

pub length-to_hex : (bs : Bytes) → length (to_hex bs) ≡ 2 * length bs
length-to_hex [] = refl
length-to_hex (b ∷ bs) = omega (arith, length-to_hex bs)

-- Digits are no prefix.
pub strip-digits : (s : Text) → all_hex s ≡ true → strip_prefix s ≡ s
strip-digits [] h = refl
strip-digits (c ∷ []) h = refl
strip-digits (c ∷ d ∷ s) h = ground arith

pub from_hex_lem : (s : Text) → all_hex s ≡ true → length s % 2 ≡ 0 → from_hex s ≡ ok (pairs s)
unfolding from_hex
from_hex_lem s h even = rw (strip-digits s h) (ground arith)

-- Bytes written in hexadecimal are read back as the same bytes.
pub from_hex-to_hex : (bs : Bytes) → All IsByte bs → from_hex (to_hex bs) ≡ ok bs
from_hex-to_hex bs h =
    from_hex_lem (to_hex bs) (all_hex-to_hex bs h) (omega (arith, length-to_hex bs))
    ∙ ap ok (pairs-to_hex bs h)
