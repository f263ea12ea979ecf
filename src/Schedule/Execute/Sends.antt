-- ===== src/Schedule/Execute/Sends.antt =====
-- What a tick hands to chains: packages/core/src/services/scheduler.ts.
use wallet_bot.Base.{
  ℕ, ◌+◌, ◌≤◌, ◌≡◌, refl, ap, Bool, true, false, [], ◌∷◌, Option, none, some, arith, inl, inr,
  length, not, if◌then◌else◌,
}
use wallet_bot.Base.Result.{Result, ok, err, Result-cases}
use wallet_bot.Base.Text.{Text}
use wallet_bot.Domain.Enums.{ErrorCode}
use wallet_bot.Send.Store.{Failure, SendRow, Table}
use wallet_bot.Send.Quote.{SendQuote, QuoteRequest}
use wallet_bot.Send.Execute.{Answer, execute}
use wallet_bot.Send.Execute.Handed.{length-execute}
use wallet_bot.Schedule.Payments.{PaymentRow, Payments, claim_due_scheduled_payments}
use wallet_bot.Schedule.Execute.{
  Scheduler, ScheduleWorld, Run, completed, after_execution, after_confirmation, after_quote,
  after_preparation, prepare, execute_one, marked, caught, then_next, execute_rows, tick, lease_ms,
}

module _ (scheduler : Scheduler) where
  abbrev sent_by : Run scheduler → ℕ
  sent_by x = length x.1.world.sent

  sent_of : ScheduleWorld → ℕ
  sent_of s = length s.world.sent

  completed-sent :
      (row : PaymentRow) (s : ScheduleWorld) (x : Result ErrorCode Payments)
      → (completed scheduler row s x).1.world.sent ≡ s.world.sent
  completed-sent row s (err e) = refl
  completed-sent row s (ok payments) =
      elim (Result-cases (scheduler.execution row).queue_executed) [
        | inl (u, e) ↦ rw e refl
        | inr (e', e) ↦ rw e refl
      ]

  execution-sent :
      (row : PaymentRow) (s : ScheduleWorld) (x : Answer)
      → (after_execution scheduler row s x).1.world.sent ≡ x.1.sent
  execution-sent row s (err e, w) = refl
  execution-sent row s (ok result, w) = completed-sent row (record s { world = w }) _

  confirmation-length :
      (row : PaymentRow) (id : Text) (s : ScheduleWorld) (x : Option SendRow × Table)
      → sent_by (after_confirmation scheduler row id s x) ≤ length s.world.sent + 1
  confirmation-length row id s (none, rows) = omega arith
  confirmation-length row id s (some r, rows) =
      let w = record s.world { rows = rows } in
      omega (
        arith,
        ap length (execution-sent row s (execute (scheduler.execution row).calls row.user_id id w)),
        length-execute (scheduler.execution row).calls row.user_id id w,
      )

  quote-length :
      (row : PaymentRow) (now : ℕ) (s : ScheduleWorld) (x : Result Failure (SendQuote × Table))
      → sent_by (after_quote scheduler row now s x) ≤ length s.world.sent + 1
  quote-length row now s (err e) = omega arith
  quote-length row now s (ok (q, rows)) = confirmation-length row q.row.id s _

  preparation-length :
      (row : PaymentRow) (now : ℕ) (s : ScheduleWorld) (x : Result Failure QuoteRequest)
      → sent_by (after_preparation scheduler row now s x) ≤ length s.world.sent + 1
  preparation-length row now s (err e) = omega arith
  preparation-length row now s (ok request) = quote-length row now s _

  marked-sent :
      (s : ScheduleWorld) (x : Result ErrorCode Payments)
      → (marked scheduler s x).1.world.sent ≡ s.world.sent
  marked-sent s (err e) = refl
  marked-sent s (ok payments) = refl

  caught-sent :
      (row : PaymentRow) (now : ℕ) (x : Run scheduler)
      → (caught scheduler row now x).1.world.sent ≡ x.1.world.sent
  caught-sent row now (ok u, s) = refl
  caught-sent row now (err e, s) = marked-sent s _

  one-length :
      (row : PaymentRow) (now : ℕ) (s : ScheduleWorld)
      → sent_by (caught scheduler row now (execute_one scheduler row now s))
        ≤ length s.world.sent + 1
  unfolding execute_one
  one-length row now s = omega (
    arith,
    ap length (caught-sent row now (after_preparation scheduler row now s (prepare scheduler row))),
    preparation-length row now s (prepare scheduler row),
  )

  next-length :
      (rest : ScheduleWorld → Run scheduler) (x : Run scheduler) (n m : ℕ)
      → ((s : ScheduleWorld) → sent_by (rest s) ≤ length s.world.sent + n)
      → sent_by x ≤ m
      → sent_by (then_next scheduler rest x) ≤ m + n
  next-length rest (ok u, s) n m h l = omega (arith, h s)
  next-length rest (err e, s) n m h l = omega arith

  rows-length :
      (rows : Payments) (now : ℕ) (s : ScheduleWorld)
      → sent_by (execute_rows scheduler rows now s) ≤ length s.world.sent + length rows
  rows-length [] now s = omega arith
  rows-length (row ∷ rows) now s = omega (
    arith,
    next-length (λ s'. execute_rows scheduler rows now s')
        (caught scheduler row now (execute_one scheduler row now s)) (length rows)
        (length s.world.sent + 1) (λ s'. rows-length rows now s') (one-length row now s),
  )

  choice-length :
      (b : Bool) (x y : Run scheduler) (m : ℕ)
      → sent_by x ≤ m
      → sent_by y ≤ m
      → sent_by (if b then x else y) ≤ m
  choice-length true x y m hx hy = hx
  choice-length false x y m hx hy = hy

  -- A tick hands at most one transaction to a chain for each payment that it claims.
  pub length-tick :
      (worker : Text) (limit now : ℕ) (s : ScheduleWorld)
      → length (tick scheduler worker limit now s).1.world.sent
        ≤ length s.world.sent
          + length (claim_due_scheduled_payments worker limit lease_ms now s.payments).0
  unfolding tick
  length-tick worker limit now s =
      let due = claim_due_scheduled_payments worker limit lease_ms now s.payments in
      choice-length (not scheduler.payments_enabled) (ok tt, s)
        (execute_rows scheduler due.0 now (record s { payments = due.1 }))
        (length s.world.sent + length due.0) (omega arith)
        (rows-length due.0 now (record s { payments = due.1 }))
