-- ===== src/Schedule/Execute/Disabled.antt =====
-- Sending that is disabled: packages/core/src/services/scheduler.ts.
use wallet_bot.Base.{
  ℕ, ◌≡◌, refl, ◌∙◌, Bool, true, false, [], ◌∷◌, ◌⊎◌, inl, inr, not, if◌then◌else◌, arith,
}
use wallet_bot.Base.Result.{Result, ok, err}
use wallet_bot.Base.Text.{Text}
use wallet_bot.Domain.Enums.{ErrorCode, sending_disabled}
use wallet_bot.Send.Store.{Failure, app, code_of}
use wallet_bot.Send.Quote.{QuoteRequest, assert_sending_enabled}
use wallet_bot.Send.Execute.{World}
use wallet_bot.Schedule.Payments.{PaymentRow, Payments, claim_due_scheduled_payments, mark_failed}
use wallet_bot.Schedule.Execute.{
  Scheduler, ScheduleWorld, Run, after_preparation, prepare, execute_one, marked, caught, then_next,
  execute_rows, tick, lease_ms,
}

-- One of the two switches is off.
abbrev pub IsDisabled : Scheduler → Type 0
IsDisabled scheduler =
    (scheduler.config.enabled ≡ false)
    ⊎ ((row : PaymentRow) → (scheduler.execution row).around.db_enabled ≡ false)

module _ (scheduler : Scheduler) (off : IsDisabled scheduler) where
  prepare_refused : (row : PaymentRow) → prepare scheduler row ≡ err (app sending_disabled)
  unfolding prepare assert_sending_enabled
  prepare_refused row = elim off [ inl e ↦ rw e refl | inr e ↦ ground (arith, e row) ]

  marked-world :
      (s : ScheduleWorld) (x : Result ErrorCode Payments) → (marked scheduler s x).1.world ≡ s.world
  marked-world s (err e) = refl
  marked-world s (ok payments) = refl

  refused-world :
      (row : PaymentRow) (now : ℕ) (s : ScheduleWorld) (x : Result Failure QuoteRequest)
      → x ≡ err (app sending_disabled)
      → (caught scheduler row now (after_preparation scheduler row now s x)).1.world ≡ s.world
  refused-world row now s (ok request) e = absurd cc
  refused-world row now s (err f) e =
      marked-world s (mark_failed row (code_of f) (scheduler.execution row).delay now s.payments)

  next-world :
      (rest : ScheduleWorld → Run scheduler) (x : Run scheduler) (w : World)
      → ((s : ScheduleWorld) → (rest s).1.world ≡ s.world)
      → x.1.world ≡ w
      → (then_next scheduler rest x).1.world ≡ w
  next-world rest (ok u, s) w keeps e = keeps s ∙ e
  next-world rest (err f, s) w keeps e = e

  rows-world :
      (rows : Payments) (now : ℕ) (s : ScheduleWorld)
      → (execute_rows scheduler rows now s).1.world ≡ s.world
  unfolding execute_one
  rows-world [] now s = refl
  rows-world (row ∷ rows) now s =
      next-world (λ s'. execute_rows scheduler rows now s')
        (caught scheduler row now (after_preparation scheduler row now s (prepare scheduler row)))
        s.world (λ s'. rows-world rows now s')
        (refused-world row now s (prepare scheduler row) (prepare_refused row))

  choice-world :
      (b : Bool) (x y : Run scheduler) (w : World)
      → x.1.world ≡ w
      → y.1.world ≡ w
      → (if b then x else y).1.world ≡ w
  choice-world true x y w hx hy = hx
  choice-world false x y w hx hy = hy

  -- While one of the two switches of sending is off, a tick makes no send request and hands no
  -- transaction to a chain.
  pub tick_disabled :
      (worker : Text) (limit now : ℕ) (s : ScheduleWorld)
      → (tick scheduler worker limit now s).1.world ≡ s.world
  unfolding tick
  tick_disabled worker limit now s =
      let due = claim_due_scheduled_payments worker limit lease_ms now s.payments in
      choice-world (not scheduler.payments_enabled) (ok tt, s)
        (execute_rows scheduler due.0 now (record s { payments = due.1 })) s.world refl
        (rows-world due.0 now (record s { payments = due.1 }))
