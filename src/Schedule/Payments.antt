-- ===== src/Schedule/Payments.antt =====
-- The table of scheduled payments: packages/db/src/repositories/planning.ts, and what
-- packages/core/src/services/scheduler.ts does with a failure, `markFailed`.
pub mod Claims
pub mod Failures
use wallet_bot.Base.{
  ℕ, ◌+◌, Bool, true, false, List, [], ◌∷◌, Option, none, some, ltb, leb, ◌==◌, ◌&&◌, ◌||◌, not,
  take, if◌then◌else◌,
}
use wallet_bot.Base.Result.{Result, ok, err}
use wallet_bot.Base.Text.{Text, eq_text}
use wallet_bot.Domain.Enums.{
  ScheduledPaymentStatus, ErrorCode, network_unavailable, provider_error, timeout, rate_limited,
  service_unavailable, exchange_rate_unavailable, price_unavailable,
}
use wallet_bot.Domain.StateMachines.{
  scheduled_index, scheduled_payment_transitions, assert_transition,
}

-- The columns that claims and failures read and write.
pub record PaymentRow : Type 0 where
  pub id : Text
  pub user_id : Text
  pub status : ScheduledPaymentStatus
  pub is_deleted : Bool
  pub scheduled_at : ℕ
  pub next_attempt_at : Option ℕ
  pub locked_by : Option Text
  pub locked_until : Option ℕ
  pub attempts : ℕ
  pub max_attempts : ℕ
  pub last_error_code : Option ErrorCode

abbrev pub Payments : Type 0
Payments = List PaymentRow

-- `next_attempt_at IS NULL OR next_attempt_at <= now()`.
abbrev has_come : Option ℕ → ℕ → Bool
has_come none now = true
has_come (some t) now = leb t now

-- `locked_until IS NULL OR locked_until < now()`.
abbrev is_unlocked : Option ℕ → ℕ → Bool
is_unlocked none now = true
is_unlocked (some t) now = ltb t now

abbrev pub is_due : ℕ → PaymentRow → Bool
is_due now r =
    scheduled_index r.status == scheduled_index ScheduledPaymentStatus.scheduled
    && not r.is_deleted
    && leb r.scheduled_at now
    && has_come r.next_attempt_at now
    && is_unlocked r.locked_until now

abbrev pub insert_by_time : PaymentRow → Payments → Payments
insert_by_time r [] = r ∷ []
insert_by_time r (q ∷ rows) =
    let rest = insert_by_time r rows in
    if leb r.scheduled_at q.scheduled_at then r ∷ q ∷ rows else q ∷ rest

-- What is due, in the order of its time.
abbrev pub due_payments : ℕ → Payments → Payments
due_payments now [] = []
due_payments now (r ∷ rows) =
    let rest = due_payments now rows in if is_due now r then insert_by_time r rest else rest

abbrev pub has_payment : Text → Payments → Bool
has_payment id [] = false
has_payment id (r ∷ rows) = eq_text r.id id || has_payment id rows

abbrev pub claimed_row : Text → ℕ → PaymentRow → PaymentRow
claimed_row worker until r = record r {
  status = ScheduledPaymentStatus.processing;
  attempts = r.attempts + 1;
  locked_by = some worker;
  locked_until = some until;
}

-- The rows that are returned, and the table after the update.
abbrev pub claim_rows : Payments → Text → ℕ → Payments → Payments × Payments
claim_rows chosen worker until [] = ([], [])
claim_rows chosen worker until (r ∷ rows) =
    let (claimed, rows') = claim_rows chosen worker until rows in
    if has_payment r.id chosen
    then (claimed_row worker until r ∷ claimed, claimed_row worker until r ∷ rows')
    else (claimed, r ∷ rows')

-- One statement, so no other claim comes in between; the lease is in milliseconds.
unfoldable pub claim_due_scheduled_payments : Text → ℕ → ℕ → ℕ → Payments → Payments × Payments
claim_due_scheduled_payments worker limit lease now rows =
    claim_rows (take limit (due_payments now rows)) worker (now + lease) rows

abbrev set_payment :
    ScheduledPaymentStatus → Option ErrorCode → Option ℕ → Bool → PaymentRow → PaymentRow
set_payment status error_code next_attempt_at release_lock r = record r {
  status = status;
  last_error_code = error_code;
  next_attempt_at = next_attempt_at;
  locked_by = if release_lock then none else r.locked_by;
  locked_until = if release_lock then none else r.locked_until;
}

abbrev cons_if :
    Result ErrorCode (Unit {0}) → PaymentRow → Result ErrorCode Payments → Result ErrorCode Payments
cons_if (err e) r rest = err e
cons_if (ok u) r (err e) = err e
cons_if (ok u) r (ok rows) = ok (r ∷ rows)

-- The trigger on the status throws on a transition that is not allowed.
unfoldable pub set_scheduled_payment_status :
    Text
    → ScheduledPaymentStatus
    → Option ErrorCode
    → Option ℕ
    → Bool
    → Payments
    → Result ErrorCode Payments
set_scheduled_payment_status id status error_code next_attempt_at release_lock [] = ok []
set_scheduled_payment_status id status error_code next_attempt_at release_lock (r ∷ rows) =
    let rest =
      set_scheduled_payment_status id status error_code next_attempt_at release_lock rows in
    if eq_text r.id id
    then cons_if (assert_transition scheduled_index scheduled_payment_transitions r.status status)
        (set_payment status error_code next_attempt_at release_lock r) rest
    else cons_if (ok tt) r rest

abbrev pub is_transient : ErrorCode → Bool
is_transient network_unavailable = true
is_transient provider_error = true
is_transient timeout = true
is_transient rate_limited = true
is_transient service_unavailable = true
is_transient exchange_rate_unavailable = true
is_transient price_unavailable = true
is_transient _ = false

-- `markFailed`, by the row that was claimed. The delay of the next attempt is random and so a
-- parameter; the audit row and the notification are left out.
unfoldable pub mark_failed : PaymentRow → ErrorCode → ℕ → ℕ → Payments → Result ErrorCode Payments
mark_failed row code delay now rows =
    if is_transient code && ltb row.attempts row.max_attempts
    then set_scheduled_payment_status row.id ScheduledPaymentStatus.scheduled (some code)
        (some (now + delay)) true rows
    else set_scheduled_payment_status row.id ScheduledPaymentStatus.failed (some code) none true
        rows

abbrev is_cancellable : Text → Text → PaymentRow → Bool
is_cancellable user_id id r =
    eq_text r.id id
    && eq_text r.user_id user_id
    && not r.is_deleted
    && (scheduled_index r.status == scheduled_index ScheduledPaymentStatus.scheduled
        || scheduled_index r.status == scheduled_index ScheduledPaymentStatus.failed)

unfoldable pub cancel_scheduled_payment : Text → Text → Payments → Option PaymentRow × Payments
cancel_scheduled_payment user_id id [] = (none, [])
cancel_scheduled_payment user_id id (r ∷ rows) =
    let (found, rows') = cancel_scheduled_payment user_id id rows in
    let gone = record r { status = ScheduledPaymentStatus.cancelled } in
    if is_cancellable user_id id r then (some gone, gone ∷ rows') else (found, r ∷ rows')
