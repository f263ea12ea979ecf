-- ===== src/Schedule/Payments/Failures.antt =====
-- What a failed execution does to a scheduled payment: packages/core/src/services/scheduler.ts.
-- The request of a user that puts a failed payment back, runScheduledPaymentNow of
-- packages/core/src/services/planning.ts, is not modelled.
use wallet_bot.Base.{
  ℕ, ◌≤◌, true, false, List, [], ◌∷◌, none, some, ◌≡◌, refl, ltb, arith, Bool-cases, inl, inr, ◌⊎◌,
  ◌&&◌, not, if◌then◌else◌,
}
use wallet_bot.Base.Result.{Result, ok}
use wallet_bot.Base.Text.{Text, eq_text}
use wallet_bot.Domain.Enums.{ScheduledPaymentStatus, ErrorCode}
use wallet_bot.Domain.StateMachines.{
  scheduled_index, scheduled_payment_transitions, assert_transition, can_transition,
}
use wallet_bot.Schedule.Payments.{
  PaymentRow, Payments, has_payment, mark_failed, is_transient, set_scheduled_payment_status,
}
use wallet_bot.Schedule.Payments.Claims.{
  ClaimCall, HasStatus, claim_all, is_processing, is_waiting, rows_of, unclaimed,
}

-- A row that has failed for good: without a lock, and without a time of a next attempt.
abbrev pub failed_row : ErrorCode → PaymentRow → PaymentRow
failed_row code r = record r {
  status = ScheduledPaymentStatus.failed;
  last_error_code = some code;
  next_attempt_at = none;
  locked_by = none;
  locked_until = none;
}

-- The table with the rows of the identifier failed, and the others as they are.
abbrev pub failed_rows : Text → ErrorCode → Payments → Payments
failed_rows id code [] = []
failed_rows id code (r ∷ rows) =
    let rest = failed_rows id code rows in
    if eq_text r.id id then failed_row code r ∷ rest else r ∷ rest

-- The update succeeds, the rows of the identifier have failed with the code, and the claims that
-- follow return none of them and leave them as they are.
abbrev pub IsRefused :
    Text → ErrorCode → List ClaimCall → Payments → Result ErrorCode Payments → Type 0
IsRefused id code claims rows x =
    (x ≡ ok (failed_rows id code rows))
    × (has_payment id (claim_all claims (failed_rows id code rows)).0 ≡ false)
    × (rows_of id (claim_all claims (failed_rows id code rows)).1
        ≡ rows_of id (failed_rows id code rows))

may_fail :
    assert_transition scheduled_index scheduled_payment_transitions
      ScheduledPaymentStatus.processing ScheduledPaymentStatus.failed
    ≡ ok tt
unfolding assert_transition can_transition
may_fail = refl

in_process :
    (status : ScheduledPaymentStatus)
    → is_processing status ≡ true
    → status ≡ ScheduledPaymentStatus.processing
in_process status h = ground (arith, h)

set_failed :
    (id : Text) (code : ErrorCode) (rows : Payments)
    → HasStatus is_processing id rows
    → set_scheduled_payment_status id ScheduledPaymentStatus.failed (some code) none true rows
      ≡ ok (failed_rows id code rows)
unfolding set_scheduled_payment_status
set_failed id code [] h = refl
set_failed id code (r ∷ rows) h = elim (Bool-cases (eq_text r.id id)) [
  | inl same ↦
      rw
        (
          same,
          in_process r.status (rw same at h).0,
          may_fail,
          set_failed id code rows (rw same at h).1,
        )
        refl
  | inr differ ↦ rw (differ, set_failed id code rows (rw differ at h)) refl
]

failed-HasStatus :
    (id : Text) (code : ErrorCode) (rows : Payments)
    → HasStatus (λ status. not (is_waiting status)) id (failed_rows id code rows)
failed-HasStatus id code [] = tt
failed-HasStatus id code (r ∷ rows) = elim (Bool-cases (eq_text r.id id)) [
  | inl same ↦ rw (same, same) (refl, failed-HasStatus id code rows)
  | inr differ ↦ rw (differ, differ) (failed-HasStatus id code rows)
]

-- Where the rows of a payment are being processed and its execution failed with a code that is not
-- transient, or on its last attempt, the update succeeds and gives the rows the status `failed`, the
-- code, no lock and no next attempt, with all other rows as they were. In the table after it, any
-- claims one after another, at any times, return no row of the payment and leave its rows failed.
pub mark_failed-IsRefused :
    (row : PaymentRow) (code : ErrorCode) (delay now : ℕ) (claims : List ClaimCall)
    (rows : Payments)
    → HasStatus is_processing row.id rows
    → (is_transient code ≡ false) ⊎ (row.max_attempts ≤ row.attempts)
    → IsRefused row.id code claims rows (mark_failed row code delay now rows)
unfolding mark_failed
mark_failed-IsRefused row code delay now claims rows h final =
    let stays =
      unclaimed row.id claims (failed_rows row.id code rows) (failed-HasStatus row.id code rows) in
    rw (refused final) (set_failed row.id code rows h, stays.0, stays.1)
  where
    refused :
        (is_transient code ≡ false) ⊎ (row.max_attempts ≤ row.attempts)
        → (is_transient code && ltb row.attempts row.max_attempts) ≡ false
    refused (inl e) = ground arith
    refused (inr e) = ground arith
