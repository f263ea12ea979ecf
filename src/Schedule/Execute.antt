-- ===== src/Schedule/Execute.antt =====
-- packages/core/src/services/scheduler.ts: `tick` and `executeOne`, over the send service. Audit
-- rows are left out.
pub mod Sends
pub mod Disabled
use wallet_bot.Base.{ℕ, Bool, true, false, List, [], ◌∷◌, Option, none, some, not, if◌then◌else◌}
use wallet_bot.Base.Int.{ℤ, pos}
use wallet_bot.Base.Result.{Result, ok, err, ◌>>=◌, ◌>>◌}
use wallet_bot.Base.Text.{Text, eq_text}
use wallet_bot.Domain.Enums.{
  ScheduledPaymentStatus, ErrorCode, not_found, wallet_not_found, wallet_inactive, asset_not_found,
  invalid_address, self_transfer_not_allowed, send_quote_expired,
}
use wallet_bot.Money.Decimal.{big, to_string}
use wallet_bot.Money.Token.{from_raw, to_decimal_string}
use wallet_bot.Util.Keys.{scheduled_execution_key}
use wallet_bot.Send.Store.{Failure, app, code_of, SendRow, Table, confirm_send_request}
use wallet_bot.Send.Quote.{
  SendingConfig, WalletRow, Surroundings, QuoteRequest, SendQuote, assert_sending_enabled, or_throw,
  app_if, lift_money, quote,
}
use wallet_bot.Send.Execute.{Calls, World, Answer, execute}
use wallet_bot.Schedule.Payments.{
  PaymentRow, Payments, claim_due_scheduled_payments, set_scheduled_payment_status, mark_failed,
}

-- The columns that say what is paid; they do not change.
pub record PaymentOrder : Type 0 where
  pub wallet_id : Text
  pub asset_id : Text
  pub to_address : Text
  pub raw_amount : ℤ
  pub memo : Option Text

-- What is read and called elsewhere while a payment is executed; the delay of the next attempt is
-- random.
pub record Execution : Type 0 where
  pub order : PaymentOrder
  pub around : Surroundings
  pub user_exists : Bool
  pub find_wallet_by_id : Text → Option WalletRow
  pub new_id : Text
  pub calls : Calls
  pub queue_executed : Result Failure (Unit {0})
  pub delay : ℕ

pub record Scheduler : Type 0 where
  pub config : SendingConfig
  pub payments_enabled : Bool
  pub quote_fingerprint : SendRow → Text
  pub execution : PaymentRow → Execution

-- The scheduled payments, the send requests and what was handed to a chain.
pub record ScheduleWorld : Type 0 where
  pub payments : Payments
  pub world : World

abbrev pub lease_ms : ℕ
lease_ms = 120000

module _ (scheduler : Scheduler) where
  -- Steps 1 to 3, and the request of step 4.
  unfoldable pub prepare : PaymentRow → Result Failure QuoteRequest
  prepare row = do
    let x = scheduler.execution row
    assert_sending_enabled scheduler.config x.around.db_enabled
    app_if (not x.user_exists) not_found
    wallet ← or_throw (x.find_wallet_by_id x.order.wallet_id) wallet_not_found
    app_if (not wallet.is_active) wallet_inactive
    asset ← or_throw (x.around.find_asset x.order.asset_id) asset_not_found
    to ← or_throw (x.around.validate_address wallet.network x.order.to_address) invalid_address
    app_if (eq_text to.canonical wallet.address_canonical) self_transfer_not_allowed
    amount ← lift_money (
        from_raw (big x.order.raw_amount)
          (record { asset_key = asset.id; symbol = asset.symbol; decimals = asset.decimals }))
    ok (record {
      wallet_id = wallet.id;
      asset_id = asset.id;
      to_address = x.order.to_address;
      amount = to_decimal_string amount;
      memo = x.order.memo;
      idempotency_key = scheduled_execution_key row.id (to_string (pos row.attempts));
    })

  abbrev pub Run : Type 0
  Run = Result Failure (Unit {0}) × ScheduleWorld

  abbrev pub with_world : ScheduleWorld → World → ScheduleWorld
  with_world s w = record s { world = w }

  -- The transaction after the execution: both of its statements, or none.
  abbrev completed : PaymentRow → ScheduleWorld → Result ErrorCode Payments → Run
  completed row s (err e) = (err (app e), s)
  completed row s (ok payments) = (
    (scheduler.execution row).queue_executed,
    elim (scheduler.execution row).queue_executed [
      | ok u ↦ record s { payments = payments }
      | err e ↦ s
    ],
  )

  abbrev pub after_execution : PaymentRow → ScheduleWorld → Answer → Run
  after_execution row s (err e, w) = (err e, with_world s w)
  after_execution row s (ok result, w) = completed row (with_world s w) (
      set_scheduled_payment_status row.id ScheduledPaymentStatus.completed none none true
        s.payments)

  -- Step 6, if the quote could be claimed.
  abbrev pub after_confirmation : PaymentRow → Text → ScheduleWorld → Option SendRow × Table → Run
  after_confirmation row id s (none, rows) =
      (err (app send_quote_expired), with_world s (record s.world { rows = rows }))
  after_confirmation row id s (some r, rows) =
      after_execution row s
        (execute (scheduler.execution row).calls row.user_id id (record s.world { rows = rows }))

  abbrev pub after_quote : PaymentRow → ℕ → ScheduleWorld → Result Failure (SendQuote × Table) → Run
  after_quote row now s (err e) = (err e, s)
  after_quote row now s (ok (q, rows)) =
      after_confirmation row q.row.id s
        (confirm_send_request row.user_id q.row.id q.row.fingerprint now rows)

  abbrev pub after_preparation : PaymentRow → ℕ → ScheduleWorld → Result Failure QuoteRequest → Run
  after_preparation row now s (err e) = (err e, s)
  after_preparation row now s (ok request) = after_quote row now s (
      quote scheduler.quote_fingerprint scheduler.config (scheduler.execution row).around
        (scheduler.execution row).new_id row.user_id request now s.world.rows)

  unfoldable pub execute_one : PaymentRow → ℕ → ScheduleWorld → Run
  execute_one row now s = after_preparation row now s (prepare row)

  abbrev marked : ScheduleWorld → Result ErrorCode Payments → Run
  marked s (err e) = (err (app e), s)
  marked s (ok payments) = (ok tt, record s { payments = payments })

  -- The `catch` of the loop. An error of the marking ends the tick.
  abbrev pub caught : PaymentRow → ℕ → Run → Run
  caught row now (ok u, s) = (ok tt, s)
  caught row now (err e, s) =
      marked s (mark_failed row (code_of e) (scheduler.execution row).delay now s.payments)

  abbrev pub then_next : (ScheduleWorld → Run) → Run → Run
  then_next rest (ok u, s) = rest s
  then_next rest (err e, s) = (err e, s)

  abbrev pub execute_rows : Payments → ℕ → ScheduleWorld → Run
  execute_rows [] now s = (ok tt, s)
  execute_rows (row ∷ rows) now s =
      then_next (λ s'. execute_rows rows now s') (caught row now (execute_one row now s))

  -- The time is read once; the counters of the answer are left out.
  unfoldable pub tick : Text → ℕ → ℕ → ScheduleWorld → Run
  tick worker limit now s =
      let (due, payments) = claim_due_scheduled_payments worker limit lease_ms now s.payments in
      if not scheduler.payments_enabled
      then (ok tt, s)
      else execute_rows due now (record s { payments = payments })
