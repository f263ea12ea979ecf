-- ===== src/Tests/Scheduler.antt =====
-- Ticks of the scheduler on concrete inputs.
use wallet_bot.Base.{ℕ, ◌+◌, ◌≤◌, ◌≡◌, refl, true, List, [], ◌∷◌, none, some, length, inl}
use wallet_bot.Base.Int.{pos}
use wallet_bot.Base.Result.{ok, err}
use wallet_bot.Base.Text.{Text, codes}
use wallet_bot.Domain.Enums.{tron, testnet, managed, timeout}
use wallet_bot.Money.Decimal.{to_string}
use wallet_bot.Send.Store.{app}
use wallet_bot.Send.Quote.{SendingConfig, WalletRow}
use wallet_bot.Send.Execute.{Calls}
use wallet_bot.Schedule.Payments.{PaymentRow, claim_due_scheduled_payments}
use wallet_bot.Schedule.Execute.{Execution, Scheduler, ScheduleWorld, tick, lease_ms}
use wallet_bot.Schedule.Execute.Sends.{length-tick}
use wallet_bot.Schedule.Execute.Disabled.{tick_disabled}
use wallet_bot.Tests.Send.{all_answer, sending, switched_off, surroundings, constant_fingerprint}
use wallet_bot.Tests.Schedule.{waiting}

-- The chain takes the transaction, and the answer of the provider is lost.
abbrev lost_answer : Calls
lost_answer = record all_answer { broadcast = λ signed. err (app timeout) }

abbrev wallet : WalletRow
wallet = record {
  id = codes "w1";
  network = tron;
  env = testnet;
  type = managed;
  address = codes "T0";
  address_canonical = codes "T0";
  is_active = true;
}

abbrev execution : Calls → PaymentRow → Execution
execution calls row = record {
  order = record {
    wallet_id = codes "w1";
    asset_id = codes "a1";
    to_address = codes "T9";
    raw_amount = pos 200;
    memo = none;
  };
  around = surroundings;
  user_exists = true;
  find_wallet_by_id = λ id. some wallet;
  new_id = to_string (pos row.attempts);
  calls = calls;
  queue_executed = ok tt;
  delay = 2000;
}

abbrev scheduler : SendingConfig → Calls → Scheduler
scheduler config calls = record {
  config = config;
  payments_enabled = true;
  quote_fingerprint = constant_fingerprint;
  execution = execution calls;
}

abbrev start : ScheduleWorld
start = record { payments = waiting; world = record { rows = []; sent = [] } }

length-tick_example :
    length (tick (scheduler sending all_answer) (codes "w") 5 1000 start).1.world.sent
    ≤ length start.world.sent
      + length (claim_due_scheduled_payments (codes "w") 5 lease_ms 1000 start.payments).0
length-tick_example = length-tick (scheduler sending all_answer) (codes "w") 5 1000 start

tick_disabled_example :
    (tick (scheduler switched_off all_answer) (codes "w") 5 1000 start).1.world ≡ start.world
tick_disabled_example =
    tick_disabled (scheduler switched_off all_answer) (inl refl) (codes "w") 5 1000 start

abbrev after_one : ScheduleWorld
after_one = (tick (scheduler sending lost_answer) (codes "w") 5 1000 start).1

-- One payment of which the answer is lost is handed to the chain by two ticks.
paid_twice :
    (tick (scheduler sending lost_answer) (codes "w") 5 9000 after_one).1.world.sent
    ≡ codes "signed" ∷ codes "signed" ∷ []
unfolding tick claim_due_scheduled_payments wallet_bot.Schedule.Execute.execute_one
    wallet_bot.Schedule.Execute.prepare wallet_bot.Send.Quote.assert_sending_enabled
    wallet_bot.Money.Token.from_raw wallet_bot.Money.Decimal.raw_integer wallet_bot.Money.Token.make
    wallet_bot.Send.Quote.quote wallet_bot.Send.Quote.load_pair wallet_bot.Send.Quote.check_funding
    wallet_bot.Money.Token.parse wallet_bot.Money.Decimal.parse_decimal
    wallet_bot.Money.Decimal.parse_trimmed wallet_bot.Base.Text.trim
    wallet_bot.Money.Token.to_decimal_string wallet_bot.Money.Decimal.format_decimal
    wallet_bot.Base.Int.◌+ℤ◌ wallet_bot.Base.Int.◌-ℤ◌ wallet_bot.Base.Text.Digits.digits
    wallet_bot.Domain.StateMachines.assert_transition wallet_bot.Domain.StateMachines.can_transition
    wallet_bot.Money.Decimal.is_decimal_string wallet_bot.Money.Decimal.scale_parts
    wallet_bot.Money.FixedPoint.abs_big_int wallet_bot.Money.FixedPoint.divide_rounded
    wallet_bot.Money.FixedPoint.pow10 wallet_bot.Money.Token.is_positive
    wallet_bot.Schedule.Payments.mark_failed
    wallet_bot.Schedule.Payments.set_scheduled_payment_status wallet_bot.Send.Execute.execute
    wallet_bot.Send.Execute.fail_request wallet_bot.Send.Quote.check_limits
    wallet_bot.Send.Quote.warnings_of wallet_bot.Send.Store.confirm_send_request
    wallet_bot.Send.Store.create_send_request wallet_bot.Send.Store.has_sent_to_address_before
    wallet_bot.Send.Store.set_send_request_status wallet_bot.Send.Store.spent_usd_minor_in_window
    wallet_bot.Util.Keys.asset_key wallet_bot.Util.Keys.join
    wallet_bot.Util.Keys.scheduled_execution_key wallet_bot.Util.Keys.segment
paid_twice = refl
