-- ===== src/Schedule/Payments/Claims.antt =====
-- Claims of scheduled payments: packages/db/src/repositories/planning.ts.
use wallet_bot.Base.{
  ℕ, zero, suc, ◌+◌, Bool, true, false, [], ◌∷◌, ◌≡◌, refl, sym, subst, Bool-cases, inl, inr, ◌||◌,
  take, arith, All, List, ◌++◌, not, ◌==◌, ◌∙◌, if◌then◌else◌,
}
use wallet_bot.Base.Text.{Text, eq_text, eq_text_sound}
use wallet_bot.Domain.Enums.{ScheduledPaymentStatus}
use wallet_bot.Domain.StateMachines.{scheduled_index}
use wallet_bot.Schedule.Payments.{
  PaymentRow, Payments, insert_by_time, due_payments, has_payment, claim_rows,
  claim_due_scheduled_payments,
}

pub has_payment-insert :
    (id : Text) (r : PaymentRow) (rows : Payments)
    → has_payment id (insert_by_time r rows) ≡ (eq_text r.id id || has_payment id rows)
has_payment-insert id r [] = refl
has_payment-insert id r (q ∷ rows) = ground (arith, has_payment-insert id r rows)

has_payment-take :
    (id : Text) (n : ℕ) (rows : Payments)
    → has_payment id rows ≡ false
    → has_payment id (take n rows) ≡ false
has_payment-take id zero rows h = refl
has_payment-take id (suc n) [] h = refl
has_payment-take id (suc n) (r ∷ rows) h = ground (arith, has_payment-take id n rows)

pub same_id :
    (id : Text) (r : PaymentRow) (l : Payments) (b : Bool)
    → eq_text r.id id ≡ true
    → has_payment id l ≡ b
    → has_payment r.id l ≡ b
same_id id r l b e h = subst (λ i. has_payment i l ≡ b) (sym (eq_text_sound r.id id e)) h

-- What was chosen for a claim is not due afterwards, at any time.
due_after :
    (id worker : Text) (until later : ℕ) (chosen rows : Payments)
    → has_payment id chosen ≡ true
    → has_payment id (due_payments later (claim_rows chosen worker until rows).1) ≡ false
due_after id worker until later chosen [] h = refl
due_after id worker until later chosen (r ∷ rows) h = elim (Bool-cases (has_payment r.id chosen)) [
  | inl e ↦ rw e (ground (arith, due_after id worker until later chosen rows h))
  | inr e ↦ rw e (
      ground (
        arith,
        due_after id worker until later chosen rows h,
        same_id id r chosen true,
        has_payment-insert id r (due_payments later (claim_rows chosen worker until rows).1),
      ))
]

claimed_chosen :
    (id worker : Text) (until : ℕ) (chosen rows : Payments)
    → has_payment id chosen ≡ false
    → has_payment id (claim_rows chosen worker until rows).0 ≡ false
claimed_chosen id worker until chosen [] h = refl
claimed_chosen id worker until chosen (r ∷ rows) h =
    ground (arith, claimed_chosen id worker until chosen rows, same_id id r chosen false)

-- A payment that one claim has returned is returned by no claim directly after it, whatever the
-- workers, limits, leases and times of the two are.
pub claim_exclusive :
    (id first second : Text) (n m lease lease' now later : ℕ) (rows : Payments)
    → has_payment id (claim_due_scheduled_payments first n lease now rows).0 ≡ true
    → has_payment id
        (claim_due_scheduled_payments second m lease' later
          (claim_due_scheduled_payments first n lease now rows).1).0
      ≡ false
unfolding claim_due_scheduled_payments
claim_exclusive id first second n m lease lease' now later rows h =
    elim (Bool-cases (has_payment id (take n (due_payments now rows)))) [
      | inl e ↦
          claimed_chosen id second (later + lease') (take m (due_payments later after)) after (
            has_payment-take id m (due_payments later after)
              (due_after id first (now + lease) later (take n (due_payments now rows)) rows e))
      | inr e ↦
          ground
            (arith, claimed_chosen id first (now + lease) (take n (due_payments now rows)) rows e)
    ]
  where
    after : Payments
    after = (claim_rows (take n (due_payments now rows)) first (now + lease) rows).1

-- The rows of an identifier.
abbrev pub rows_of : Text → Payments → Payments
rows_of id [] = []
rows_of id (r ∷ rows) = let rest = rows_of id rows in if eq_text r.id id then r ∷ rest else rest

-- The rows of the identifier have a status of which the test holds.
abbrev pub HasStatus : (ScheduledPaymentStatus → Bool) → Text → Payments → Type 0
HasStatus test id rows = All (λ r. test r.status ≡ true) (rows_of id rows)

abbrev pub is_processing : ScheduledPaymentStatus → Bool
is_processing status = scheduled_index status == scheduled_index ScheduledPaymentStatus.processing

abbrev pub is_waiting : ScheduledPaymentStatus → Bool
is_waiting status = scheduled_index status == scheduled_index ScheduledPaymentStatus.scheduled

-- One call of claimDueScheduledPayments.
pub record ClaimCall : Type 0 where
  pub worker : Text
  pub limit : ℕ
  pub lease : ℕ
  pub now : ℕ

-- All rows that a sequence of claims returns, and the table after it.
abbrev pub claim_all : List ClaimCall → Payments → Payments × Payments
claim_all [] rows = ([], rows)
claim_all (c ∷ claims) rows =
    let (claimed, after) = claim_due_scheduled_payments c.worker c.limit c.lease c.now rows in
    let (more, last) = claim_all claims after in (claimed ++ more, last)

not_due :
    (id : Text) (now : ℕ) (rows : Payments)
    → HasStatus (λ status. not (is_waiting status)) id rows
    → has_payment id (due_payments now rows) ≡ false
not_due id now [] h = refl
not_due id now (r ∷ rows) h = elim (Bool-cases (eq_text r.id id)) [
  | inl e ↦ ground (arith, e, not_due id now rows (rw e at h).1, (rw e at h).0)
  | inr e ↦
      ground
        (arith, e, not_due id now rows (rw e at h), has_payment-insert id r (due_payments now rows))
]

kept :
    (id worker : Text) (until : ℕ) (chosen rows : Payments)
    → has_payment id chosen ≡ false
    → rows_of id (claim_rows chosen worker until rows).1 ≡ rows_of id rows
kept id worker until chosen [] h = refl
kept id worker until chosen (r ∷ rows) h =
    ground (arith, kept id worker until chosen rows h, same_id id r chosen false)

has_payment-append :
    (id : Text) (a b : Payments)
    → has_payment id a ≡ false
    → has_payment id b ≡ false
    → has_payment id (a ++ b) ≡ false
has_payment-append id [] b h k = k
has_payment-append id (r ∷ a) b h k = ground (arith, h, has_payment-append id a b)

-- What does not wait is claimed by no sequence of claims, and stays as it is.
pub unclaimed :
    (id : Text) (claims : List ClaimCall) (rows : Payments)
    → HasStatus (λ status. not (is_waiting status)) id rows
    → (has_payment id (claim_all claims rows).0 ≡ false)
      × (rows_of id (claim_all claims rows).1 ≡ rows_of id rows)
unfolding claim_due_scheduled_payments
unclaimed id [] rows h = (refl, refl)
unclaimed id (c ∷ claims) rows h = (
  has_payment-append id (claim_rows chosen c.worker (c.now + c.lease) rows).0 _
      (claimed_chosen id c.worker (c.now + c.lease) chosen rows none)
      (unclaimed id claims after later).0,
  (unclaimed id claims after later).1 ∙ same,
)
  where
    chosen : Payments
    chosen = take c.limit (due_payments c.now rows)

    none : has_payment id chosen ≡ false
    none = has_payment-take id c.limit (due_payments c.now rows) (not_due id c.now rows h)

    after : Payments
    after = (claim_rows chosen c.worker (c.now + c.lease) rows).1

    same : rows_of id after ≡ rows_of id rows
    same = kept id c.worker (c.now + c.lease) chosen rows none

    later : HasStatus (λ status. not (is_waiting status)) id after
    later = subst (All (λ r. not (is_waiting r.status) ≡ true)) (sym same) h

All-status :
    (rows : Payments)
    → All (λ r. is_processing r.status ≡ true) rows
    → All (λ r. not (is_waiting r.status) ≡ true) rows
All-status [] h = tt
All-status (r ∷ rows) h = (ground (arith, h.0), All-status rows h.1)

-- Whatever else the table holds: a payment whose rows are being processed is returned by no claim of
-- any sequence of claims, at any times, so also after its lease has run out, and its rows are after
-- them what they were before.
pub processing_stays :
    (id : Text) (claims : List ClaimCall) (rows : Payments)
    → HasStatus is_processing id rows
    → (has_payment id (claim_all claims rows).0 ≡ false)
      × (rows_of id (claim_all claims rows).1 ≡ rows_of id rows)
processing_stays id claims rows h = unclaimed id claims rows (All-status (rows_of id rows) h)
