-- ===== src/Evm/Hex/Numbers.antt =====
-- Numbers as hexadecimal text and as bytes: packages/blockchain/src/evm/hex.ts.
use wallet_bot.Base.{
  ℕ, zero, suc, ◌+◌, ◌*◌, ◌/◌, ◌%◌, ◌^◌, ◌≤◌, ◌<◌, ◌≡◌, refl, ◌∙◌, subst, true, [], ◌∷◌, ◌==◌,
  length, All, arith, Bool-cases, inl, inr,
}
use wallet_bot.Base.Int.{pos}
use wallet_bot.Base.Result.{ok}
use wallet_bot.Base.Text.{Text}
use wallet_bot.Evm.Hex.{
  Bytes, hex_char, all_hex, pairs, emit_hex, hex_digits, hex_value_from, even_digits,
  big_int_to_bytes,
}
use wallet_bot.Evm.Hex.Digits.{
  IsByte, hex_char_lem, bytes_value_from, bytes_value-pairs, pairs-IsByte, length-pairs,
  from_hex_lem,
}

value-emit_hex :
    (f n : ℕ) (out : Text) → n < f → hex_value_from 0 (emit_hex f n out) ≡ hex_value_from n out
unfolding emit_hex
value-emit_hex zero n out h = absurd (omega arith)
value-emit_hex (suc f) n out h = elim (Bool-cases (n == 0)) [
  | inl z ↦ ground arith
  | inr z ↦ ground (
    arith,
    (hex_char_lem (n % 16) (omega arith)).1,
    value-emit_hex f (n / 16) (hex_char (n % 16) ∷ out),
  )
]

pub value-hex_digits : (n : ℕ) → hex_value_from 0 (hex_digits n) ≡ n
unfolding hex_digits
value-hex_digits n = ground (arith, value-emit_hex (suc n) n [] (omega arith))

all_hex-emit : (f n : ℕ) (out : Text) → all_hex out ≡ true → all_hex (emit_hex f n out) ≡ true
unfolding emit_hex
all_hex-emit zero n out h = h
all_hex-emit (suc f) n out h = ground (
  arith,
  (hex_char_lem (n % 16) (omega arith)).0,
  all_hex-emit f (n / 16) (hex_char (n % 16) ∷ out),
)

pub all_hex-hex_digits : (n : ℕ) → all_hex (hex_digits n) ≡ true
unfolding hex_digits
all_hex-hex_digits n = ground (arith, all_hex-emit (suc n) n [] refl)

sixteenth-lt : (n k : ℕ) → n < 16 ^ suc k → n / 16 < 16 ^ k
sixteenth-lt n k h = omega arith

length-emit_hex : (f n k : ℕ) (out : Text) → n < 16 ^ k → length (emit_hex f n out) ≤ k + length out
unfolding emit_hex
length-emit_hex zero n k out h = omega arith
length-emit_hex (suc f) n zero out h = ground arith
length-emit_hex (suc f) n (suc k) out h =
    ground (arith, length-emit_hex f (n / 16) k (hex_char (n % 16) ∷ out) (sixteenth-lt n k h))

pub length-hex_digits : (n k : ℕ) → n < 16 ^ suc k → length (hex_digits n) ≤ suc k
unfolding hex_digits
length-hex_digits n k h = ground (arith, length-emit_hex (suc n) n (suc k) [] h)

even_lem :
    (s : Text)
    → (all_hex (even_digits s) ≡ all_hex s)
      × (hex_value_from 0 (even_digits s) ≡ hex_value_from 0 s)
      × (length (even_digits s) % 2 ≡ 0)
      × (length (even_digits s) ≤ length s + 1)
even_lem s = elim (Bool-cases (length s % 2 == 0)) [
  | inl e ↦ rw e (refl, refl, ground arith, omega arith)
  | inr e ↦ rw e (refl, refl, ground arith, omega arith)
]

short_lem :
    (n k l e p : ℕ)
    → e % 2 ≡ 0
    → e ≤ l + 1
    → p ≡ e / 2
    → ((j : ℕ) → suc n < 16 ^ suc j → l ≤ suc j)
    → suc n < 16 ^ (2 * k)
    → p ≤ k
short_lem n zero l e p even longer half digits h = absurd (ground arith)
short_lem n (suc k) l e p even longer half digits h =
    omega (arith, digits (2 * k + 1) (subst (λ m. suc n < 16 ^ m) (omega arith) h))

-- The bytes of a number: they are bytes, they spell it, and there are no more than it needs.
pub record IsBytesOf (n : ℕ) (bs : Bytes) : Type 0 where
  pub result : big_int_to_bytes (pos n) ≡ ok bs
  pub spelled : bytes_value_from 0 bs ≡ n
  pub are_bytes : All IsByte bs
  pub short : (k : ℕ) → n < 16 ^ (2 * k) → length bs ≤ k

pub big_int_to_bytes_lem : (n : ℕ) → (bs : Bytes) × IsBytesOf n bs
unfolding big_int_to_bytes
big_int_to_bytes_lem zero =
    ([], record { result = refl; spelled = refl; are_bytes = tt; short = λ k h. omega arith })
big_int_to_bytes_lem (suc n) =
    let (hex, spells, even, longer) = even_lem (hex_digits (suc n)) in
    let s = even_digits (hex_digits (suc n)) in
    (
      pairs s,
      record {
        result = from_hex_lem s (hex ∙ all_hex-hex_digits (suc n)) even;
        spelled = bytes_value-pairs 0 s even ∙ spells ∙ value-hex_digits (suc n);
        are_bytes = pairs-IsByte s (hex ∙ all_hex-hex_digits (suc n));
        short = λ k.
            short_lem n k (length (hex_digits (suc n))) (length s) (length (pairs s)) even longer
              (length-pairs s) (length-hex_digits (suc n));
      },
    )
