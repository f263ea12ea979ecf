-- ===== src/Money/Decimal/Shape.antt =====
-- How `parseDecimal` takes apart a text of a sign, digits, and a dot with digits.
use wallet_bot.Base.{ℕ, Bool, true, false, [], ◌∷◌, ◌++◌, ◌≡◌, refl, subst, arith, All, All-append}
use wallet_bot.Base.Text.{Text, trim_solid, IsSolid, is_space, all_digits, is_empty}
use wallet_bot.Base.Text.Digits.{IsDigit}
use wallet_bot.Money.FixedPoint.{RoundingMode}
use wallet_bot.Money.Decimal.{
  parse_decimal, parse_trimmed, is_decimal_string, strip_sign, before_dot, behind_dot, decimal_body,
  decimal_tail, starts_with, scale_parts, join_parts,
}

abbrev pub sign_text : Bool → Text → Text
sign_text true s = b'-' ∷ s
sign_text false s = s

digit_solid : (c : ℕ) → IsDigit c → is_space c ≡ false
digit_solid c h = ground arith

digits-IsSolid : (s : Text) → All IsDigit s → IsSolid s
digits-IsSolid [] h = tt
digits-IsSolid (c ∷ s) h = (digit_solid c h.0, digits-IsSolid s h.1)

join_parts-IsSolid : (ip fp : Text) → All IsDigit ip → All IsDigit fp → IsSolid (join_parts ip fp)
join_parts-IsSolid ip [] hi hf = digits-IsSolid ip hi
join_parts-IsSolid ip (c ∷ fp) hi hf =
    All-append _ ip (b'.' ∷ c ∷ fp) (digits-IsSolid ip hi) (refl, digits-IsSolid (c ∷ fp) hf)

all_digits_lem : (s : Text) → All IsDigit s → all_digits s ≡ true
all_digits_lem [] h = refl
all_digits_lem (c ∷ s) h = ground (arith, all_digits_lem s h.1)

before_dot_digits : (ip rest : Text) → All IsDigit ip → before_dot (ip ++ b'.' ∷ rest) ≡ ip
before_dot_digits [] rest h = refl
before_dot_digits (c ∷ ip) rest h = ground (arith, before_dot_digits ip rest h.1)

before_dot-All : (ip : Text) → All IsDigit ip → before_dot ip ≡ ip
before_dot-All [] h = refl
before_dot-All (c ∷ ip) h = ground (arith, before_dot-All ip h.1)

behind_dot_digits :
    (ip rest : Text) → All IsDigit ip → behind_dot (ip ++ b'.' ∷ rest) ≡ before_dot rest
behind_dot_digits [] rest h = refl
behind_dot_digits (c ∷ ip) rest h = ground (arith, behind_dot_digits ip rest h.1)

behind_dot-All : (ip : Text) → All IsDigit ip → behind_dot ip ≡ []
behind_dot-All [] h = refl
behind_dot-All (c ∷ ip) h = ground (arith, behind_dot-All ip h.1)

decimal_tail_lem :
    (ip fp : Text) → All IsDigit ip → All IsDigit fp → decimal_tail (join_parts ip fp) ≡ true
decimal_tail_lem [] [] hi hf = refl
decimal_tail_lem [] (c ∷ fp) hi hf = all_digits_lem (c ∷ fp) hf
decimal_tail_lem (c ∷ ip) [] hi hf = ground (arith, decimal_tail_lem ip [] hi.1 hf)
decimal_tail_lem (c ∷ ip) (d ∷ fp) hi hf = ground (arith, decimal_tail_lem ip (d ∷ fp) hi.1 hf)

before_dot_join : (ip fp : Text) → All IsDigit ip → before_dot (join_parts ip fp) ≡ ip
before_dot_join ip [] hi = before_dot-All ip hi
before_dot_join ip (c ∷ fp) hi = before_dot_digits ip (c ∷ fp) hi

behind_dot_join :
    (ip fp : Text) → All IsDigit ip → All IsDigit fp → behind_dot (join_parts ip fp) ≡ fp
behind_dot_join ip [] hi hf = behind_dot-All ip hi
behind_dot_join ip (c ∷ fp) hi hf =
    rw (behind_dot_digits ip (c ∷ fp) hi) (before_dot-All (c ∷ fp) hf)

join_parts_cons : (c : ℕ) (ip fp : Text) → join_parts (c ∷ ip) fp ≡ c ∷ join_parts ip fp
join_parts_cons c ip [] = refl
join_parts_cons c ip (d ∷ fp) = refl

-- The sign is taken off, and only the sign.
strip_sign_lem :
    (s : Bool) (c : ℕ) (t : Text) → IsDigit c → strip_sign (sign_text s (c ∷ t)) ≡ c ∷ t
strip_sign_lem true c t h = refl
strip_sign_lem false c t h = ground arith

starts_with_sign :
    (s : Bool) (c : ℕ) (t : Text) → IsDigit c → starts_with b'-' (sign_text s (c ∷ t)) ≡ s
starts_with_sign true c t h = refl
starts_with_sign false c t h = ground arith

sign_text-IsSolid : (s : Bool) (t : Text) → IsSolid t → IsSolid (sign_text s t)
sign_text-IsSolid true t h = (refl, h)
sign_text-IsSolid false t h = h

is_empty_sign : (s : Bool) (c : ℕ) (t : Text) → is_empty (sign_text s (c ∷ t)) ≡ false
is_empty_sign true c t = refl
is_empty_sign false c t = refl

decimal_body_join :
    (c : ℕ) (ip fp : Text)
    → All IsDigit (c ∷ ip)
    → All IsDigit fp
    → decimal_body (c ∷ join_parts ip fp) ≡ true
decimal_body_join c ip fp hi hf = ground (arith, decimal_tail_lem ip fp hi.1 hf)

-- A text of this form is accepted, and its parts are those that it was made of.
module _ (s : Bool) (c : ℕ) (ip fp : Text) (hi : All IsDigit (c ∷ ip)) (hf : All IsDigit fp) (d : ℕ)
    (allow : Bool) (mode : RoundingMode) where
  parse_trimmed_lem :
      parse_trimmed (sign_text s (c ∷ join_parts ip fp)) d allow mode
      ≡ scale_parts s (c ∷ ip) fp d allow mode
  unfolding parse_trimmed is_decimal_string
  parse_trimmed_lem = rw (
    strip_sign_lem s c (join_parts ip fp) hi.0,
    is_empty_sign s c (join_parts ip fp),
    decimal_body_join c ip fp hi hf,
    starts_with_sign s c (join_parts ip fp) hi.0,
    before_part,
    behind_part,
  )
    where
      before_part : before_dot (c ∷ join_parts ip fp) ≡ c ∷ ip
      before_part =
          subst (λ t. before_dot t ≡ c ∷ ip) (join_parts_cons c ip fp)
            (before_dot_join (c ∷ ip) fp hi)

      behind_part : behind_dot (c ∷ join_parts ip fp) ≡ fp
      behind_part =
          subst (λ t. behind_dot t ≡ fp) (join_parts_cons c ip fp)
            (behind_dot_join (c ∷ ip) fp hi hf)

  pub parse_parts :
      parse_decimal (sign_text s (join_parts (c ∷ ip) fp)) d allow mode
      ≡ scale_parts s (c ∷ ip) fp d allow mode
  unfolding parse_decimal
  parse_parts =
      rw (join_parts_cons c ip fp)
        (rw (trim_solid (sign_text s (c ∷ join_parts ip fp)) text_solid) parse_trimmed_lem)
    where
      text_solid : IsSolid (sign_text s (c ∷ join_parts ip fp))
      text_solid =
          sign_text-IsSolid s (c ∷ join_parts ip fp)
            (digit_solid c hi.0, join_parts-IsSolid ip fp hi.1 hf)
