-- ===== src/Money/FixedPoint/Scale.antt =====
-- Powers of ten, and the change of scale of an amount.
use native.Mathlib.Nat.{pow-suc}
use wallet_bot.Base.{
  ℕ, zero, suc, ◌-◌, ◌*◌, ◌^◌, ◌≤◌, ◌<◌, ltb, ◌==◌, ◌≡◌, ap, ◌∙◌, arith, Bool-cases, inl, inr, true,
  false,
}
use wallet_bot.Base.Int.{ℤ, pos, ◌*ℤ◌}
use wallet_bot.Base.Result.{ok}
use wallet_bot.Money.FixedPoint.{RoundingMode, pow10, ten_loop, rescale}
use wallet_bot.Money.FixedPoint.Rounding.{divide_rounded_exact}

pow_pos : (e : ℕ) → 0 < 10 ^ e
pow_pos zero = omega arith
pow_pos (suc e) = rw (pow-suc 10 e) (omega (arith, pow_pos e))

ten_loop_lem : (i r : ℕ) → ten_loop i r ≡ r * 10 ^ i
unfolding ten_loop
ten_loop_lem zero r = omega arith
ten_loop_lem (suc i) r = ten_loop_lem i (r * 10) ∙ rw (pow-suc 10 i) (omega arith)

-- Within its range `pow10` is the power of ten, and it is positive.
pub pow10_lem : (e : ℕ) → e ≤ 96 → (f : ℕ) × (pow10 e ≡ ok (suc f)) × (suc f ≡ 10 ^ e)
unfolding pow10
pow10_lem e h = (
  10 ^ e - 1,
  rw (in_range, ten_loop_lem e 1) (ap ok (omega (arith, pow_pos e))),
  omega (arith, pow_pos e),
)
  where
    in_range : ltb 96 e ≡ false
    in_range = ground arith

-- Widening the scale by at most 96 digits and narrowing it again gives the amount back, whatever
-- the two modes are.
pub rescale-rescale :
    (v : ℤ) (narrow wide : ℕ) (up down : RoundingMode)
    → narrow ≤ wide
    → wide - narrow ≤ 96
    → (w : ℤ) × (rescale v narrow wide up ≡ ok w) × (rescale w wide narrow down ≡ ok v)
unfolding rescale
rescale-rescale v narrow wide up down le fits = elim (Bool-cases (narrow == wide)) [
  | inl same ↦ (v, rw same, rw (same' same))
  | inr differ ↦
      let (f, p, e) = pow10_lem (wide - narrow) fits in
      (
        v *ℤ pos (suc f),
        rw (differ, wider differ, p),
        rw (differ' differ, not_wider, p) (divide_rounded_exact v f down),
      )
]
  where
    same' : (narrow == wide) ≡ true → (wide == narrow) ≡ true
    same' h = ground arith

    differ' : (narrow == wide) ≡ false → (wide == narrow) ≡ false
    differ' h = ground arith

    wider : (narrow == wide) ≡ false → ltb narrow wide ≡ true
    wider h = ground arith

    not_wider : ltb wide narrow ≡ false
    not_wider = ground arith
