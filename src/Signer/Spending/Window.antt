-- ===== src/Signer/Spending/Window.antt =====
-- The records of a spend tracker, and those of a whole history that lie in its window.
use wallet_bot.Base.{
  ℕ, ◌+◌, ◌≤◌, true, false, List, [], ◌∷◌, ◌++◌, ◌≡◌, refl, arith, ltb, if◌then◌else◌, All,
  All-append, ◌∙◌, Bool-cases, inl, inr,
}
use wallet_bot.Base.Int.{ℤ, pos, ◌+ℤ◌, ◌≤ℤ◌, int_laws}
use wallet_bot.Signer.Spending.{SpendRecord, shift_old, total_from}

-- The records that are not older than the window.
abbrev pub keep_recent : ℕ → ℕ → List SpendRecord → List SpendRecord
keep_recent window now [] = []
keep_recent window now (r ∷ records) =
    let rest = keep_recent window now records in if ltb (r.at + window) now then rest else r ∷ rest

abbrev pub IsSorted : List SpendRecord → Type 0
IsSorted [] = Unit
IsSorted (r ∷ records) = All (λ x. r.at ≤ x.at) records × IsSorted records

abbrev pub sum : List SpendRecord → ℤ
sum [] = pos 0
sum (r ∷ records) = r.amount_minor +ℤ sum records

pub total_from-eq-sum : (total : ℤ) (l : List SpendRecord) → total_from total l ≡ total +ℤ sum l
total_from-eq-sum total [] = omega int_laws
total_from-eq-sum total (r ∷ l) = total_from-eq-sum (total +ℤ r.amount_minor) l ∙ omega int_laws

pub sum-append : (l m : List SpendRecord) → sum (l ++ m) ≡ sum l +ℤ sum m
sum-append [] m = omega int_laws
sum-append (r ∷ l) m = rw (sum-append l m) (omega int_laws)

module _ (window : ℕ) where
  keep-All :
      (now start : ℕ) (l : List SpendRecord)
      → ltb (start + window) now ≡ false
      → All (λ x. start ≤ x.at) l
      → keep_recent window now l ≡ l
  keep-All now start [] h all = refl
  keep-All now start (r ∷ l) h all = ground (arith, keep-All now start l h all.1)

  -- In a sorted list, what is shifted off the front is what is too old.
  pub shift_old_sorted :
      (now : ℕ) (l : List SpendRecord)
      → IsSorted l
      → shift_old window now l ≡ keep_recent window now l
  shift_old_sorted now [] h = refl
  shift_old_sorted now (r ∷ l) h = elim (Bool-cases (ltb (r.at + window) now)) [
    | inl old ↦ rw old (shift_old_sorted now l h.1)
    | inr recent ↦ rw (recent, keep-All now r.at l recent h.0)
  ]

  -- What is too old stays too old.
  pub keep_recent-keep_recent :
      (before now : ℕ) (l : List SpendRecord)
      → before ≤ now
      → keep_recent window now (keep_recent window before l) ≡ keep_recent window now l
  keep_recent-keep_recent before now [] le = refl
  keep_recent-keep_recent before now (r ∷ l) le =
      ground (arith, keep_recent-keep_recent before now l le)

  keep_recent-All :
      (start now : ℕ) (l : List SpendRecord)
      → All (λ x. start ≤ x.at) l
      → All (λ x. start ≤ x.at) (keep_recent window now l)
  keep_recent-All start now [] h = tt
  keep_recent-All start now (r ∷ l) h = elim (Bool-cases (ltb (r.at + window) now)) [
    | inl old ↦ rw old (keep_recent-All start now l h.1)
    | inr recent ↦ rw recent (h.0, keep_recent-All start now l h.1)
  ]

  pub keep_recent-IsSorted :
      (now : ℕ) (l : List SpendRecord) → IsSorted l → IsSorted (keep_recent window now l)
  keep_recent-IsSorted now [] h = tt
  keep_recent-IsSorted now (r ∷ l) h = elim (Bool-cases (ltb (r.at + window) now)) [
    | inl old ↦ rw old (keep_recent-IsSorted now l h.1)
    | inr recent ↦ rw recent (keep_recent-All r.at now l h.0, keep_recent-IsSorted now l h.1)
  ]

  pub keep_recent_last :
      (now : ℕ) (l : List SpendRecord) (r : SpendRecord)
      → r.at ≡ now
      → keep_recent window now (l ++ r ∷ []) ≡ keep_recent window now l ++ r ∷ []
  keep_recent_last now [] r e = ground arith
  keep_recent_last now (x ∷ l) r e = ground (arith, keep_recent_last now l r e)

  -- As time goes on less lies in the window, if no amount is negative.
  pub sum_recent_mono :
      (before now : ℕ) (l : List SpendRecord)
      → before ≤ now
      → All (λ x. pos 0 ≤ℤ x.amount_minor) l
      → sum (keep_recent window now l) ≤ℤ sum (keep_recent window before l)
  sum_recent_mono before now [] le h = omega arith
  sum_recent_mono before now (r ∷ l) le h = elim (Bool-cases (ltb (r.at + window) before)) [
    | inl old ↦ rw (old, older old) (sum_recent_mono before now l le h.1)
    | inr recent ↦ rw recent (elim (Bool-cases (ltb (r.at + window) now)) [
      | inl gone ↦ rw gone (omega (int_laws, sum_recent_mono before now l le h.1, h.0))
      | inr still ↦ rw still (omega (int_laws, sum_recent_mono before now l le h.1))
    ])
  ]
    where
      older : ltb (r.at + window) before ≡ true → ltb (r.at + window) now ≡ true
      older e = ground arith

pub IsSorted-last :
    (now : ℕ) (l : List SpendRecord) (r : SpendRecord)
    → IsSorted l
    → All (λ x. x.at ≤ now) l
    → r.at ≡ now
    → IsSorted (l ++ r ∷ [])
IsSorted-last now [] r s h e = (tt, tt)
IsSorted-last now (x ∷ l) r s h e =
    (All-append _ l (r ∷ []) s.0 (rw e h.0, tt), IsSorted-last now l r s.1 h.1 e)
