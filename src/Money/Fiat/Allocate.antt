-- ===== src/Money/Fiat/Allocate.antt =====
-- `FiatAmount.allocate` loses nothing and is even.
use wallet_bot.Base.{
  ℕ, zero, suc, ◌+◌, ◌-◌, ◌*◌, ◌/◌, ◌%◌, ◌≤◌, ◌<◌, Bool, List, [], ◌∷◌, ◌≡◌, refl, ap, ◌∙◌, arith,
  All, length, ltb, if◌then◌else◌, ◌⊎◌, inl, inr, Bool-cases, ◌==◌, false, ltb→lt, sym,
}
use wallet_bot.Base.Int.{
  ℤ, pos, negsuc, mag, is_neg, signed, ◌+ℤ◌, ◌-ℤ◌, ◌*ℤ◌, ltb_ℤ, +ℤ_signed, -ℤ_signed, *ℤ_signed,
  signed_mag, mag-signed,
}
use wallet_bot.Base.Result.{ok}
use wallet_bot.Money.FixedPoint.Rounding.{divide_rounded_trunc}
use wallet_bot.Money.Fiat.{FiatCurrency, FiatAmount, allocate, allocate_loop}

-- The sum of the minor units.
abbrev pub sum_minor : List FiatAmount → ℤ
sum_minor [] = pos 0
sum_minor (a ∷ as') = a.minor +ℤ sum_minor as'

-- A part of `n` in `parts`: the quotient or one more, with the sign of `n`.
abbrev pub IsShare : ℤ → ℕ → ℤ → Type 0
IsShare n parts x =
    (x ≡ signed (is_neg n) (mag n / parts)) ⊎ (x ≡ signed (is_neg n) (mag n / parts + 1))

module _ (c : FiatCurrency) (s : Bool) (k : ℕ) (step : ℤ) where
  length-loop : (left n : ℕ) → length (allocate_loop c (signed s k) step left n) ≡ n
  unfolding allocate_loop
  length-loop left zero = refl
  length-loop left (suc n) = ap suc (length-loop (left - 1) n)

  amount_lem :
      (left : ℕ)
      → (0 < left → step ≡ signed s 1)
      → (if ltb 0 left then signed s k +ℤ step else signed s k)
        ≡ signed s (if ltb 0 left then k + 1 else k)
  amount_lem left h = elim (Bool-cases (ltb 0 left)) [
    | inl some_left ↦ rw (some_left, h (ltb→lt 0 left some_left)) (+ℤ_signed s k 1)
    | inr none_left ↦ rw none_left
  ]

  sum-loop :
      (left n : ℕ)
      → (0 < left → step ≡ signed s 1)
      → left ≤ n
      → sum_minor (allocate_loop c (signed s k) step left n) ≡ signed s (n * k + left)
  unfolding allocate_loop
  sum-loop zero zero h le = ground arith
  sum-loop (suc left) zero h le = absurd (omega arith)
  sum-loop left (suc n) h le =
      rw (amount_lem left h, sum-loop (left - 1) n (λ p. h (omega arith)) (omega arith))
        (rw (+ℤ_signed s) (ap (signed s) (ground arith)))

  loop-IsShare :
      (left n : ℕ)
      → (0 < left → step ≡ signed s 1)
      → All
          (λ x. (x.currency ≡ c) × ((x.minor ≡ signed s k) ⊎ (x.minor ≡ signed s (k + 1))))
          (allocate_loop c (signed s k) step left n)
  unfolding allocate_loop
  loop-IsShare left zero h = tt
  loop-IsShare left (suc n) h = ((refl, share), loop-IsShare (left - 1) n (λ p. h (omega arith)))
    where
      share :
          ((if ltb 0 left then signed s k +ℤ step else signed s k) ≡ signed s k)
          ⊎ ((if ltb 0 left then signed s k +ℤ step else signed s k) ≡ signed s (k + 1))
      share = elim (Bool-cases (ltb 0 left)) [
        | inl some_left ↦ inr (amount_lem left h ∙ rw some_left)
        | inr none_left ↦ inl (rw none_left)
      ]

-- The remainder of the truncated quotient.
remainder_lem :
    (v : ℤ) (d : ℕ) → v -ℤ signed (is_neg v) (mag v / d) *ℤ pos d ≡ signed (is_neg v) (mag v % d)
remainder_lem v d = rw (*ℤ_signed (is_neg v) (mag v / d) d) (
    ap (λ t. t -ℤ signed (is_neg v) (mag v / d * d)) whole
    ∙ -ℤ_signed (is_neg v) (mag v / d * d) (mag v % d))
  where
    whole : v ≡ signed (is_neg v) (mag v / d * d + mag v % d)
    whole = sym (ap (signed (is_neg v)) (omega arith) ∙ signed_mag v)

step_lem :
    (s : Bool) (r : ℕ)
    → 0 < r
    → (if ltb_ℤ (signed s r) (pos 0) then negsuc 0 else pos 1) ≡ signed s 1
step_lem s r h = ground arith

-- For a positive number of parts `allocate` returns that many, of the same currency; each is the
-- truncated quotient or one more away from zero, and together they are the amount.
pub allocate_exact :
    (a : FiatAmount) (parts : ℕ)
    → 0 < parts
    → (shares : List FiatAmount) × (allocate a parts ≡ ok shares)
      × (length shares ≡ parts)
      × (sum_minor shares ≡ a.minor)
      × All (λ x. (x.currency ≡ a.currency) × IsShare a.minor parts x.minor) shares
unfolding allocate
allocate_exact a zero h = absurd (omega arith)
allocate_exact a (suc n) h = (
  allocate_loop a.currency (signed s k) step r (suc n),
  rw (divide_rounded_trunc a.minor n)
      (rw (remainder_lem a.minor (suc n)) (rw (mag-signed s r, not_zero))),
  length-loop a.currency s k step r (suc n),
  sum-loop a.currency s k step r (suc n) (step_lem s r) (omega arith) ∙ whole,
  loop-IsShare a.currency s k step r (suc n) (step_lem s r),
)
  where
    s : Bool
    s = is_neg a.minor

    k : ℕ
    k = mag a.minor / suc n

    r : ℕ
    r = mag a.minor % suc n

    step : ℤ
    step = if ltb_ℤ (signed s r) (pos 0) then negsuc 0 else pos 1

    not_zero : (suc n == 0) ≡ false
    not_zero = ground arith

    whole : signed s (suc n * k + r) ≡ a.minor
    whole = ap (signed s) (omega arith) ∙ signed_mag a.minor
