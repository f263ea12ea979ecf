-- ===== src/Tests/Schedule.antt =====
-- Scheduled payments on concrete inputs.
use wallet_bot.Base.{◌≡◌, refl, true, false, List, [], ◌∷◌, none, some, inr, arith}
use wallet_bot.Base.Text.{codes}
use wallet_bot.Domain.Enums.{ScheduledPaymentStatus, timeout}
use wallet_bot.Schedule.Payments.{
  PaymentRow, Payments, claim_due_scheduled_payments, has_payment, mark_failed,
}
use wallet_bot.Schedule.Payments.Claims.{
  ClaimCall, HasStatus, claim_all, claim_exclusive, is_processing, processing_stays, rows_of,
}
use wallet_bot.Schedule.Payments.Failures.{IsRefused, mark_failed-IsRefused}

abbrev payment : ScheduledPaymentStatus → PaymentRow
payment status = record {
  id = codes "p1";
  user_id = codes "u1";
  status = status;
  is_deleted = false;
  scheduled_at = 100;
  next_attempt_at = none;
  locked_by = none;
  locked_until = none;
  attempts = 0;
  max_attempts = 3;
  last_error_code = none;
}

abbrev pub waiting : Payments
waiting = payment ScheduledPaymentStatus.scheduled ∷ []

claimed_run :
    has_payment (codes "p1") (claim_due_scheduled_payments (codes "w1") 5 120 200 waiting).0 ≡ true
unfolding claim_due_scheduled_payments
claimed_run = refl

claim_exclusive_example :
    has_payment
      (codes "p1")
      (claim_due_scheduled_payments
        (codes "w2")
        5
        120
        9000
        (claim_due_scheduled_payments (codes "w1") 5 120 200 waiting).1).0
    ≡ false
claim_exclusive_example =
    claim_exclusive (codes "p1") (codes "w1") (codes "w2") 5 5 120 120 200 9000 waiting claimed_run

-- A payment whose lease has run out, beside one that is due.
abbrev mixed : Payments
mixed =
    record (payment ScheduledPaymentStatus.processing) {
      locked_by = some (codes "w0");
      locked_until = some 150;
      attempts = 3;
    }
    ∷ record (payment ScheduledPaymentStatus.scheduled) { id = codes "p2" }
    ∷ []

abbrev two_claims : List ClaimCall
two_claims =
    record { worker = codes "w1"; limit = 5; lease = 120; now = 200 }
    ∷ record { worker = codes "w2"; limit = 1; lease = 120; now = 9000 }
    ∷ []

p1-HasStatus : HasStatus is_processing (codes "p1") mixed
p1-HasStatus = (refl, tt)

other_claimed : has_payment (codes "p2") (claim_all two_claims mixed).0 ≡ true
unfolding claim_due_scheduled_payments
other_claimed = refl

processing_stays_example :
    (has_payment (codes "p1") (claim_all two_claims mixed).0 ≡ false)
    × (rows_of (codes "p1") (claim_all two_claims mixed).1 ≡ rows_of (codes "p1") mixed)
processing_stays_example = processing_stays (codes "p1") two_claims mixed p1-HasStatus

abbrev last_try : PaymentRow
last_try = record (payment ScheduledPaymentStatus.processing) { attempts = 3 }

mark_failed-IsRefused_example :
    IsRefused (codes "p1") timeout two_claims mixed (mark_failed last_try timeout 2000 300 mixed)
mark_failed-IsRefused_example =
    mark_failed-IsRefused last_try timeout 2000 300 two_claims mixed p1-HasStatus
      (inr (omega arith))
