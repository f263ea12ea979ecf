-- ===== src/Money/Decimal/RoundTrip.antt =====
-- What `formatDecimal` prints, `parseDecimal` reads back.
use wallet_bot.Base.{
  ℕ, zero, suc, ◌+◌, ◌-◌, ◌≤◌, Bool, true, false, [], ◌∷◌, ◌++◌, Option, ◌≡◌, ◌≢◌, refl, arith,
  ◌==◌, ◌∙◌, ap, sym, subst, inl, inr, Bool-cases, All, All-append, ◌&&◌, ltb, length, take, drop,
  replicate, if◌then◌else◌, length-append, length-replicate, take-append-drop, length-take,
  length-drop, append_assoc, append-nil,
}
use wallet_bot.Base.Int.{ℤ, pos, mag, is_neg, is_neg_lem}
use wallet_bot.Base.Result.{ok}
use wallet_bot.Base.Text.{Text, pad_start, pad_end}
use wallet_bot.Base.Text.Digits.{
  IsDigit, value, digits, value-digits, digits-IsDigit, digits-ne-nil, value_zeros,
  replicate-IsDigit,
}
use wallet_bot.Money.FixedPoint.{RoundingMode, abs_big_int}
use wallet_bot.Money.Decimal.{
  parse_decimal, format_decimal, trim_zeros, drop_if_zero, has_nonzero, join_parts, scale_parts,
  to_string, shown_fraction, get_or_zero, with_sign,
}
use wallet_bot.Money.Decimal.Shape.{sign_text, parse_parts}

All-take : (n : ℕ) (s : Text) → All IsDigit s → All IsDigit (take n s)
All-take zero s h = tt
All-take (suc n) [] h = tt
All-take (suc n) (c ∷ s) h = (h.0, All-take n s h.1)

All-drop : (n : ℕ) (s : Text) → All IsDigit s → All IsDigit (drop n s)
All-drop zero s h = h
All-drop (suc n) [] h = tt
All-drop (suc n) (c ∷ s) h = All-drop n s h.1

replicate-append : (a b n c : ℕ) → n ≡ a + b → replicate a c ++ replicate b c ≡ replicate n c
replicate-append zero b n c e = ap (λ t. replicate t c) (omega arith)
replicate-append (suc a) b zero c e = absurd (omega arith)
replicate-append (suc a) b (suc n) c e = ap (λ t. c ∷ t) (replicate-append a b n c (omega arith))

-- Padding in two steps is padding once.
pad_twice :
    (t : Text) (k m d : ℕ)
    → length t + k ≡ d
    → m ≤ d
    → (length (pad_end t m b'0') ≤ d) × (pad_end (pad_end t m b'0') d b'0' ≡ t ++ replicate k b'0')
pad_twice t k m d e h = (
  omega (arith, len),
  rw (append_assoc t (replicate (m - length t) b'0')) (
      rw (
        replicate-append (m - length t) (d - length (pad_end t m b'0')) k b'0'
          (omega (arith, len)))),
)
  where
    len : length (pad_end t m b'0') ≡ length t + (m - length t)
    len =
        length-append t (replicate (m - length t) b'0')
        ∙ ap (λ n. length t + n) (length-replicate (m - length t) b'0')

drop_if_zero_lem :
    (c k : ℕ) (t : Text)
    → (j : ℕ) × (c ∷ (t ++ replicate k b'0') ≡ drop_if_zero c t ++ replicate j b'0')
drop_if_zero_lem c k [] = elim (Bool-cases (c == b'0')) [
  | inl z ↦ (suc k, ground arith)
  | inr z ↦ (k, ground arith)
]
drop_if_zero_lem c k (d ∷ t) = (k, refl)

-- `trim_zeros` takes off zeros at the end and nothing else.
trim_zeros_lem : (s : Text) → (k : ℕ) × (s ≡ trim_zeros s ++ replicate k b'0')
trim_zeros_lem [] = (0, refl)
trim_zeros_lem (c ∷ s) =
    let (k, e) = trim_zeros_lem s in
    let (j, e') = drop_if_zero_lem c k (trim_zeros s) in (j, ap (λ t. c ∷ t) e ∙ e')

has_nonzero_lem : (s : Text) → All IsDigit s → has_nonzero s ≡ false → value s ≡ 0
has_nonzero_lem [] h e = refl
has_nonzero_lem (c ∷ s) h e = ground (arith, has_nonzero_lem s h.1)

All-left : (s t : Text) → All IsDigit (s ++ t) → All IsDigit s
All-left [] t h = tt
All-left (c ∷ s) t h = (h.0, All-left s t h.1)

-- The fraction that is shown holds digits, and padded to the full scale it is the fraction.
shown_lem :
    (trimmed : Bool) (min : Option ℕ) (d : ℕ) (fp : Text)
    → length fp ≡ d
    → get_or_zero min ≤ d
    → All IsDigit fp
    → let f = shown_fraction trimmed min fp in
      All IsDigit f × (length f ≤ d) × (pad_end f d b'0' ≡ fp)
shown_lem false min d fp len fits h =
    (h, omega arith, ap (λ n. fp ++ replicate n b'0') none_missing ∙ append-nil fp)
  where
    none_missing : d - length fp ≡ 0
    none_missing = omega arith
shown_lem true min d fp len fits h =
    let (k, e) = trim_zeros_lem fp in
    let m = get_or_zero min in
    let t = trim_zeros fp in
    let (short, padded) = pad_twice t k m d (whole t k e) fits in
    (
      All-append IsDigit t _ (All-left t (replicate k b'0') (subst (All IsDigit) e h))
          (replicate-IsDigit (m - length t)),
      short,
      padded ∙ sym e,
    )
  where
    whole : (t : Text) (k : ℕ) → fp ≡ t ++ replicate k b'0' → length t + k ≡ d
    whole t k e =
        omega
          (arith, ap length e, length-append t (replicate k b'0'), length-replicate {A = ℕ} k b'0')

scale_fit :
    (s : Bool) (ip fp : Text) (d m : ℕ) (allow : Bool) (mode : RoundingMode)
    → length fp ≤ d
    → value (ip ++ pad_end fp d b'0') ≡ m
    → scale_parts s ip fp d allow mode ≡ ok (with_sign s (pos m))
unfolding scale_parts
scale_fit s ip fp d m allow mode short e = rw (not_long, e)
  where
    not_long : ltb d (length fp) ≡ false
    not_long = ground arith

with_sign-mag : (v : ℤ) → with_sign (is_neg v) (pos (mag v)) ≡ v
with_sign-mag v = ground arith

-- A text that is printed this way is read as the number.
read_parts :
    (v : ℤ) (ip fp : Text) (d : ℕ) (allow : Bool) (mode : RoundingMode)
    → ip ≢ []
    → All IsDigit ip
    → All IsDigit fp
    → length fp ≤ d
    → value (ip ++ pad_end fp d b'0') ≡ mag v
    → parse_decimal (sign_text (is_neg v) (join_parts ip fp)) d allow mode ≡ ok v
read_parts v [] fp d allow mode ne hi hf short e = absurd (ne refl)
read_parts v (c ∷ ip) fp d allow mode ne hi hf short e =
    parse_parts (is_neg v) c ip fp hi hf d allow mode
    ∙ scale_fit (is_neg v) (c ∷ ip) fp d (mag v) allow mode short e
    ∙ ap ok (with_sign-mag v)

-- The digits of the magnitude, with zeros in front up to one more than the scale.
module _ (v : ℤ) (d : ℕ) where
  abbrev all : Text
  all = pad_start (digits (mag v)) (d + 1) b'0'

  all-IsDigit : All IsDigit all
  all-IsDigit =
      All-append IsDigit _ (digits (mag v)) (replicate-IsDigit (d + 1 - length (digits (mag v))))
        (digits-IsDigit (mag v))

  value-all : value all ≡ mag v
  value-all =
      value_zeros (d + 1 - length (digits (mag v))) 0 (digits (mag v)) refl ∙ value-digits (mag v)

  length-all : d + 1 ≤ length all
  length-all = omega (
    arith,
    length-append (replicate (d + 1 - length (digits (mag v))) b'0') (digits (mag v)),
    length-replicate {A = ℕ} (d + 1 - length (digits (mag v))) b'0',
  )

  abbrev whole : Text
  whole = take (length all - d) all

  abbrev fraction : Text
  fraction = drop (length all - d) all

  length-fraction : length fraction ≡ d
  length-fraction = omega (arith, length-drop (length all - d) all, length-all)

  whole-ne-nil : whole ≢ []
  whole-ne-nil e = absurd (omega (arith, ap length e, length-take (length all - d) all, length-all))

  -- Every digit of the magnitude of a negative number cannot be zero.
  sign_shown : (is_neg v && has_nonzero all) ≡ is_neg v
  sign_shown = elim (Bool-cases (has_nonzero all)) [
    | inl some_digit ↦ rw some_digit (ground arith)
    | inr none_left ↦ ground (arith, has_nonzero_lem all all-IsDigit none_left, value-all)
  ]

mag-abs_big_int : (v : ℤ) → mag (abs_big_int v) ≡ mag v
unfolding abs_big_int
mag-abs_big_int v = ground arith

sign_text_lem : (s : Bool) (t : Text) → (if s then b'-' ∷ t else t) ≡ sign_text s t
sign_text_lem true t = refl
sign_text_lem false t = refl

-- The sign, the digits before the point, and the fraction that is shown.
format_decimal_lem :
    (v : ℤ) (d : ℕ) (trimmed : Bool) (min : Option ℕ)
    → format_decimal v (suc d) trimmed min
      ≡ sign_text
          (is_neg v)
          (join_parts (whole v (suc d)) (shown_fraction trimmed min (fraction v (suc d))))
unfolding format_decimal
format_decimal_lem v d trimmed min =
    rw (mag-abs_big_int v, is_neg_lem v, sign_shown v (suc d)) (sign_text_lem (is_neg v) _)

to_string_lem : (v : ℤ) → to_string v ≡ sign_text (is_neg v) (join_parts (digits (mag v)) [])
to_string_lem v = rw (is_neg_lem v) (sign_text_lem (is_neg v) (digits (mag v)))

-- What is printed at a scale is read back at that scale as the same number: with all digits of the
-- fraction or with its zeros trimmed, as long as no more digits are forced than the scale has.
pub parse_decimal-format_decimal :
    (v : ℤ) (d : ℕ) (trimmed : Bool) (min : Option ℕ) (allow : Bool) (mode : RoundingMode)
    → get_or_zero min ≤ d
    → parse_decimal (format_decimal v d trimmed min) d allow mode ≡ ok v
parse_decimal-format_decimal v zero trimmed min allow mode fits =
    unfold format_decimal in
    rw (to_string_lem v) (
      read_parts v (digits (mag v)) [] 0 allow mode (digits-ne-nil (mag v)) (digits-IsDigit (mag v))
        tt (omega arith) (rw append-nil (value-digits (mag v))))
parse_decimal-format_decimal v (suc d) trimmed min allow mode fits =
    let (digits_shown, short, padded) =
      shown_lem trimmed min (suc d) (fraction v (suc d)) (length-fraction v (suc d)) fits
        (All-drop (length (all v (suc d)) - suc d) (all v (suc d)) (all-IsDigit v (suc d))) in
    rw (format_decimal_lem v d trimmed min) (
      read_parts v (whole v (suc d)) (shown_fraction trimmed min (fraction v (suc d))) (suc d) allow
        mode (whole-ne-nil v (suc d))
        (All-take (length (all v (suc d)) - suc d) (all v (suc d)) (all-IsDigit v (suc d)))
        digits_shown short
        (ap (λ t. value (whole v (suc d) ++ t)) padded
          ∙ ap value (take-append-drop (length (all v (suc d)) - suc d) (all v (suc d)))
          ∙ value-all v (suc d)))
