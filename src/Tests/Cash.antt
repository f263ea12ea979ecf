-- ===== src/Tests/Cash.antt =====
-- Manual entries and cash balances on concrete inputs.
use wallet_bot.Base.{ℕ, ◌≡◌, arith, refl, true, false, List, [], ◌∷◌, Option, none, some}
use wallet_bot.Base.Int.{ℤ, pos, negsuc}
use wallet_bot.Base.Result.{ok}
use wallet_bot.Base.Text.{Text, codes}
use wallet_bot.Money.Fiat.{usd, FiatAmount}
use wallet_bot.Domain.Enums.TxStatus.{confirmed}
use wallet_bot.Cash.{cash, income, money_in, manual, LedgerRow, CashAccountRow, Ledger}
use wallet_bot.Cash.Statements.{cash_sum, recompute_cash_balance}
use wallet_bot.Cash.Balance.{IsBalanced}
use wallet_bot.Cash.Run.{IsSound, kept-IsSound}
use wallet_bot.Cash.Entries.{
  Valuations, EntryContext, CreateCashRequest, ManualType, expense_entry, income_entry, create_cash,
  find_transaction,
}
use wallet_bot.Cash.History.{LedgerStep, creates, removes, ledger_after, ledger_after-IsSound}
use wallet_bot.Cash.Replay.{create_cash-IsReplay}

abbrev valuations : Valuations
valuations = record {
  to_usd = λ (a : FiatAmount). ok (some a.minor);
  to_ils = λ (a : FiatAmount). ok none;
}

abbrev context : Text → EntryContext
context row_id = record {
  user_id = codes "u";
  new_row_id = row_id;
  new_account_id = codes "a";
  now = 1000;
}

abbrev request : ManualType → Text → Text → CreateCashRequest
request type amount key = record {
  type = type;
  currency = usd;
  amount = amount;
  title = codes "x";
  occurred_at = none;
  cash_account_id = none;
  idempotency_key = key;
}

abbrev empty : Ledger
empty = record { accounts = []; rows = [] }

abbrev steps : List LedgerStep
steps =
    creates valuations (context (codes "r1")) (request income_entry (codes "20") (codes "k1"))
    ∷ creates valuations (context (codes "r2")) (request expense_entry (codes "5.5") (codes "k2"))
    ∷ creates valuations (context (codes "r3")) (request expense_entry (codes "7") (codes "k3"))
    ∷ removes (codes "u") (codes "r3")
    ∷ []

abbrev balances : List CashAccountRow → List ℤ
balances [] = []
balances (a ∷ accounts) = a.balance_minor ∷ balances accounts

fourteen_fifty : balances (ledger_after steps empty).accounts ≡ (pos 1450 ∷ [])
unfolding wallet_bot.Cash.Edits.remove wallet_bot.Cash.Edits.remove_found
    wallet_bot.Cash.Entries.create_parsed wallet_bot.Cash.Entries.create_valued
    wallet_bot.Cash.Entries.after_create wallet_bot.Cash.Entries.insert_for
    wallet_bot.Cash.Entries.account_for wallet_bot.Cash.Owned.ensure_cash_account
    wallet_bot.Cash.Owned.ensure_found wallet_bot.Cash.Owned.create_cash_account
    wallet_bot.Cash.Owned.clear_default wallet_bot.Cash.Owned.find_cash_account
    wallet_bot.Cash.Owned.find_default_cash_account wallet_bot.Cash.Entries.get
    wallet_bot.Cash.Entries.normalise wallet_bot.Cash.Entries.replay_existing find_transaction
    create_cash wallet_bot.Money.Fiat.parse wallet_bot.Money.Fiat.abs wallet_bot.Money.Fiat.negate
    wallet_bot.Money.Decimal.parse_decimal wallet_bot.Money.Decimal.parse_trimmed
    wallet_bot.Money.Decimal.is_decimal_string wallet_bot.Money.Decimal.scale_parts
    wallet_bot.Base.Text.trim wallet_bot.Base.Int.◌+ℤ◌ wallet_bot.Base.Int.◌-ℤ◌
    wallet_bot.Cash.cash_effective_amount wallet_bot.Cash.Statements.find_by_idempotency_key
    wallet_bot.Cash.Statements.insert_row wallet_bot.Cash.Statements.passes_checks
    wallet_bot.Cash.sync_insert wallet_bot.Cash.sync_update wallet_bot.Cash.Statements.update_rows
    wallet_bot.Money.FixedPoint.abs_big_int wallet_bot.Money.FixedPoint.divide_rounded
    wallet_bot.Money.FixedPoint.pow10
fourteen_fifty = refl

empty-IsBalanced : IsBalanced empty
unfolding IsBalanced
empty-IsBalanced = tt

empty-IsSound : IsSound empty
empty-IsSound = kept-IsSound empty empty-IsBalanced refl

ledger_after-IsSound_example : IsSound (ledger_after steps empty)
ledger_after-IsSound_example = ledger_after-IsSound steps empty empty-IsSound

abbrev first : LedgerRow
first = record {
  id = codes "r1";
  user_id = codes "u";
  kind = cash;
  type = income;
  direction = money_in;
  status = confirmed;
  source = manual;
  title = codes "x";
  occurred_at = 1000;
  cash_account_id = some (codes "a");
  fiat_currency = some usd;
  fiat_amount_minor = some (pos 2000);
  value_usd_minor = some (pos 2000);
  value_ils_minor = none;
  idempotency_key = some (codes "k1");
  is_deleted = false;
}

abbrev one_row : Ledger
one_row = record {
  accounts =
      record {
        id = codes "a";
        user_id = codes "u";
        name = codes "Cash ($)";
        currency = usd;
        balance_minor = pos 2000;
        is_default = true;
        is_deleted = false;
      }
      ∷ [];
  rows = first ∷ [];
}

create_cash-IsReplay_example :
    ((create_cash valuations
        (context (codes "r9"))
        (request expense_entry (codes "5") (codes "k1"))
        one_row).1
      ≡ one_row)
    × ((row : LedgerRow)
        → (create_cash valuations
            (context (codes "r9"))
            (request expense_entry (codes "5") (codes "k1"))
            one_row).0
          ≡ ok row
        → find_transaction (codes "u") (codes "r1") one_row.rows ≡ some row)
unfolding wallet_bot.Cash.Statements.find_by_idempotency_key
create_cash-IsReplay_example =
    create_cash-IsReplay (context (codes "r9")) (request expense_entry (codes "5") (codes "k1"))
      one_row first refl valuations

one_row-IsBalanced : IsBalanced one_row
unfolding IsBalanced cash_sum wallet_bot.Base.Int.◌+ℤ◌
one_row-IsBalanced = (refl, tt)
