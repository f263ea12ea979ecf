-- ===== src/Money/FixedPoint/Rounding.antt =====
-- What `divideRounded` returns: the result against the exact quotient, mode by mode.
use wallet_bot.Base.{
  ℕ, zero, suc, ◌+◌, ◌*◌, ◌/◌, ◌%◌, ◌≤◌, ◌<◌, Bool, true, false, ltb, leb, ◌==◌, ◌≡◌, ◌≢◌, refl,
  if◌then◌else◌, arith, inl, inr, Bool-cases, subst, ap, ◌∙◌,
}
use native.Mathlib.Nat.{add-zero, mul-div_cancel}
use wallet_bot.Base.Int.{
  ℤ, pos, negsuc, mag, is_neg, signed, neg_ℤ, ◌-ℤ◌, ◌*ℤ◌, ◌+ℤ◌, ◌≤ℤ◌, ◌<ℤ◌, eqb_ℤ, signed_mag,
  is_neg_lem, *ℤ_signed,
}
use wallet_bot.Base.Result.{ok}
use wallet_bot.Money.FixedPoint.{
  RoundingMode, floor, ceil, trunc, half_up, half_even, divide_rounded, divide_positive, round_by,
  away, abs_big_int,
}

-- Whether the magnitude is rounded up, by the mode, the sign, the truncated quotient and the
-- remainder.
abbrev rounds_up : RoundingMode → Bool → ℕ → ℕ → ℕ → Bool
rounds_up trunc s k r d = false
rounds_up floor s k r d = if r == 0 then false else s
rounds_up ceil s k r d = if r == 0 then false else if s then false else true
rounds_up half_up s k r d = if r == 0 then false else leb d (r * 2)
rounds_up half_even s k r d =
    if r == 0
    then false
    else if ltb d (r * 2)
    then true
    else if ltb (r * 2) d
    then false
    else if k % 2 == 0
    then false
    else true

nonzero_rem : (s : Bool) (r : ℕ) → eqb_ℤ (signed s r) (pos 0) ≡ (r == 0)
nonzero_rem s r = ground arith

rounds_up_exact :
    (mode : RoundingMode) (s : Bool) (k r d : ℕ) → (r == 0) ≡ true → rounds_up mode s k r d ≡ false
rounds_up_exact floor s k r d h = rw h
rounds_up_exact ceil s k r d h = rw h
rounds_up_exact trunc s k r d h = refl
rounds_up_exact half_up s k r d h = rw h
rounds_up_exact half_even s k r d h = rw h

away_signed : (s : Bool) (k : ℕ) → away s (signed s k) ≡ signed s (k + 1)
unfolding away ◌-ℤ◌ ◌+ℤ◌
away_signed s k = ground arith

round_by_signed :
    (mode : RoundingMode) (s : Bool) (k r d : ℕ)
    → (r == 0) ≡ false
    → round_by mode s (signed s k) (signed s r) d
      ≡ signed s (k + (if rounds_up mode s k r d then 1 else 0))
unfolding round_by abs_big_int ◌-ℤ◌ ◌+ℤ◌
round_by_signed floor s k r d h = ground arith
round_by_signed ceil s k r d h = ground arith
round_by_signed trunc s k r d h = ground arith
round_by_signed half_up s k r d h = ground arith
round_by_signed half_even s k r d h = ground arith

-- The truncated quotient, moved one away from zero where the mode says so.
divide_positive_lem :
    (n : ℤ) (d : ℕ) (mode : RoundingMode)
    → divide_positive n d mode
      ≡ signed
          (is_neg n)
          (mag n / d + (if rounds_up mode (is_neg n) (mag n / d) (mag n % d) d then 1 else 0))
unfolding divide_positive
divide_positive_lem n d mode = elim (Bool-cases (mag n % d == 0)) [
  | inl exact ↦
      rw
        (
          nonzero_rem (is_neg n) (mag n % d),
          exact,
          rounds_up_exact mode (is_neg n) (mag n / d) (mag n % d) d exact,
        )
        (rw add-zero)
  | inr rest ↦
      rw (nonzero_rem (is_neg n) (mag n % d), rest, is_neg_lem n)
        (round_by_signed mode (is_neg n) (mag n / d) (mag n % d) d rest)
]

-- `q` is the exact quotient `n / d` rounded by the mode, for a positive `d`.
abbrev pub IsRounded : RoundingMode → ℤ → ℕ → ℤ → Type 0
IsRounded floor n d q = (q *ℤ pos d ≤ℤ n) × (n <ℤ q *ℤ pos d +ℤ pos d)
IsRounded ceil n d q = (n ≤ℤ q *ℤ pos d) × (q *ℤ pos d <ℤ n +ℤ pos d)
IsRounded trunc n d q =
    (mag (q *ℤ pos d) ≤ mag n)
    × (mag n < mag (q *ℤ pos d) + d)
    × (pos 0 ≤ℤ n → pos 0 ≤ℤ q)
    × (n ≤ℤ pos 0 → q ≤ℤ pos 0)
IsRounded half_up n d q =
    (mag (n -ℤ q *ℤ pos d) * 2 ≤ d) × (mag (n -ℤ q *ℤ pos d) * 2 ≡ d → mag n < mag (q *ℤ pos d))
IsRounded half_even n d q =
    (mag (n -ℤ q *ℤ pos d) * 2 ≤ d) × (mag (n -ℤ q *ℤ pos d) * 2 ≡ d → mag q % 2 ≡ 0)

no_whole : (m k r d : ℕ) → m ≡ k * d + r → r < d → m ≡ 0 → k ≡ 0
no_whole m zero r d e lt z = refl
no_whole m (suc k) r d e lt z = omega arith

module _ (s : Bool) (m k r d : ℕ) (whole : m ≡ k * d + r) (part : r < d) where
  abbrev rounded_mag : RoundingMode → ℕ
  rounded_mag mode = k + (if rounds_up mode s k r d then 1 else 0)

  rounded_lem : (mode : RoundingMode) → IsRounded mode (signed s m) d (signed s (rounded_mag mode))
  unfolding ◌+ℤ◌ ◌-ℤ◌
  rounded_lem floor = rw (*ℤ_signed s (rounded_mag floor) d) (ground arith)
  rounded_lem ceil = rw (*ℤ_signed s (rounded_mag ceil) d) (ground arith)
  rounded_lem trunc =
      rw (*ℤ_signed s (rounded_mag trunc) d) (ground (arith, no_whole m k r d whole part))
  rounded_lem half_up = rw (*ℤ_signed s (rounded_mag half_up) d) (ground arith)
  rounded_lem half_even = rw (*ℤ_signed s (rounded_mag half_even) d) (ground arith)

divide_positive-IsRounded :
    (n : ℤ) (d : ℕ) (mode : RoundingMode)
    → IsRounded mode n (suc d) (divide_positive n (suc d) mode)
divide_positive-IsRounded n d mode = rw (divide_positive_lem n (suc d) mode) (
    subst
      (λ t. IsRounded mode t (suc d) (
        signed (is_neg n) (
          mag n / suc d
          + (if rounds_up mode (is_neg n) (mag n / suc d) (mag n % suc d) (suc d) then 1 else 0))))
      (signed_mag n)
      (rounded_lem (is_neg n) (mag n) (mag n / suc d) (mag n % suc d) (suc d) (omega arith)
        (omega arith) mode))

-- The numerator once the sign of the denominator is moved to it.
abbrev pub normalised : ℤ → ℤ → ℤ
normalised n d = if is_neg d then neg_ℤ n else n

-- For every mode and every denominator but zero, negative ones included, `divideRounded` returns,
-- and its result is the exact quotient of the two numbers rounded by that mode.
pub divide_rounded-IsRounded :
    (n d : ℤ) (mode : RoundingMode)
    → d ≢ pos 0
    → (q : ℤ) × (divide_rounded n d mode ≡ ok q) × IsRounded mode (normalised n d) (mag d) q
unfolding divide_rounded
divide_rounded-IsRounded n (pos zero) mode h = absurd (h refl)
divide_rounded-IsRounded n (pos (suc d)) mode h = (_, refl, divide_positive-IsRounded n d mode)
divide_rounded-IsRounded n (negsuc d) mode h = (_, refl, divide_positive-IsRounded (neg_ℤ n) d mode)

-- Truncation keeps the sign and divides the magnitudes.
pub divide_rounded_trunc :
    (n : ℤ) (d : ℕ) → divide_rounded n (pos (suc d)) trunc ≡ ok (signed (is_neg n) (mag n / suc d))
unfolding divide_rounded
divide_rounded_trunc n d =
    ap ok (divide_positive_lem n (suc d) trunc ∙ ap (signed (is_neg n)) (omega arith))

exact_quotient : (m f : ℕ) → (m * suc f / suc f ≡ m) × (m * suc f % suc f ≡ 0)
exact_quotient m f = (
  mul-div_cancel m {n = suc f} (omega arith),
  grind (arith, mul-div_cancel m {n = suc f} (omega arith)),
)

product_sign : (v : ℤ) (f : ℕ) → is_neg (v *ℤ pos (suc f)) ≡ is_neg v
unfolding ◌*ℤ◌
product_sign v f = ground arith

product_mag : (v : ℤ) (f : ℕ) → mag (v *ℤ pos f) ≡ mag v * f
unfolding ◌*ℤ◌
product_mag v f = ground arith

-- Where the division leaves nothing, every mode returns the quotient.
pub divide_rounded_exact :
    (v : ℤ) (f : ℕ) (mode : RoundingMode)
    → divide_rounded (v *ℤ pos (suc f)) (pos (suc f)) mode ≡ ok v
unfolding divide_rounded
divide_rounded_exact v f mode = ap ok (
    divide_positive_lem (v *ℤ pos (suc f)) (suc f) mode
    ∙ rw
        (
          product_sign v f,
          product_mag v (suc f),
          (exact_quotient (mag v) f).0,
          rounds_up_exact mode (is_neg v) (mag v) (mag v * suc f % suc f) (suc f) none_left,
          add-zero,
        )
        (signed_mag v))
  where
    none_left : (mag v * suc f % suc f == 0) ≡ true
    none_left = ground (arith, (exact_quotient (mag v) f).1)
