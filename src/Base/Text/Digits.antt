-- ===== src/Base/Text/Digits.antt =====
-- Decimal numerals: the number that digits spell, and the digits of a number.
use Prim.Native.Nat.{ℕ, zero, suc, ◌+◌, ◌-◌, ◌*◌, ◌/◌, ◌%◌, ◌≤◌, ◌<◌}
use mathlib.Core.Path.{◌≡◌, refl}
use mathlib.Core.Logic.{◌≢◌, inl, inr}
use mathlib.Core.List.{List, [], ◌∷◌, ◌++◌, cons-ne-nil}
use native.Mathlib.Omega.{arith}
use wallet_bot.Base.Tests.{◌==◌, if◌then◌else◌, Bool-cases}
use wallet_bot.Base.Lists.{replicate, All}

abbrev pub IsDigit : ℕ → Type 0
IsDigit c = (b'0' ≤ c) × (c ≤ b'9')

-- The number that digits spell behind `n`.
abbrev pub value_from : ℕ → List ℕ → ℕ
value_from n [] = n
value_from n (c ∷ s) = value_from (n * 10 + (c - b'0')) s

-- `BigInt(text)` of a text of digits.
abbrev pub value : List ℕ → ℕ
value = value_from 0

-- `toString` divides by ten until nothing is left. The fuel is one more than the number.
emit : ℕ → ℕ → List ℕ → List ℕ
emit zero n out = out
emit (suc f) n out =
    let rest = emit f (n / 10) ((b'0' + n % 10) ∷ out) in if n == 0 then out else rest

unfoldable pub digits : ℕ → List ℕ
unfolding emit
digits n = if n == 0 then b'0' ∷ [] else emit (suc n) n []

pub value_from-append :
    (n : ℕ) (s t : List ℕ) → value_from n (s ++ t) ≡ value_from (value_from n s) t
value_from-append n [] t = refl
value_from-append n (c ∷ s) t = value_from-append (n * 10 + (c - b'0')) s t

value_from-emit : (f n : ℕ) (out : List ℕ) → n < f → value_from 0 (emit f n out) ≡ value_from n out
unfolding emit
value_from-emit zero n out h = absurd (omega arith)
value_from-emit (suc f) n out h = elim (Bool-cases (n == 0)) [
  | inl z ↦ ground arith
  | inr z ↦ ground (arith, value_from-emit f (n / 10) ((b'0' + n % 10) ∷ out))
]

-- The digits of a number spell it.
pub value-digits : (n : ℕ) → value (digits n) ≡ n
unfolding digits
value-digits n = ground (arith, value_from-emit (suc n) n [] (omega arith))

emit-IsDigit : (f n : ℕ) (out : List ℕ) → All IsDigit out → All IsDigit (emit f n out)
unfolding emit
emit-IsDigit zero n out h = h
emit-IsDigit (suc f) n out h =
    ground (arith, emit-IsDigit f (n / 10) ((b'0' + n % 10) ∷ out) ((omega arith, omega arith), h))

pub digits-IsDigit : (n : ℕ) → All IsDigit (digits n)
unfolding digits
digits-IsDigit n = ground (arith, emit-IsDigit (suc n) n [] tt)

emit-ne-nil : (f n : ℕ) (out : List ℕ) → out ≢ [] → emit f n out ≢ []
unfolding emit
emit-ne-nil zero n out h = h
emit-ne-nil (suc f) n out h =
    ground (arith, emit-ne-nil f (n / 10) ((b'0' + n % 10) ∷ out) (cons-ne-nil _ out))

pub digits-ne-nil : (n : ℕ) → digits n ≢ []
unfolding digits emit
digits-ne-nil n = ground (arith, emit-ne-nil n (n / 10) ((b'0' + n % 10) ∷ []) (cons-ne-nil _ []))

-- Leading zeros add nothing.
pub value_zeros : (k n : ℕ) (s : List ℕ) → n ≡ 0 → value_from n (replicate k b'0' ++ s) ≡ value s
value_zeros zero n s h = ground arith
value_zeros (suc k) n s h = value_zeros k (n * 10 + (b'0' - b'0')) s (omega arith)

pub replicate-IsDigit : (k : ℕ) → All IsDigit (replicate k b'0')
replicate-IsDigit zero = tt
replicate-IsDigit (suc k) = ground (arith, replicate-IsDigit k)
