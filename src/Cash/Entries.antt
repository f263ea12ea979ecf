-- ===== src/Cash/Entries.antt =====
-- Manual entries: createCash and get of packages/core/src/services/transactions.ts, and the reads of
-- transactions.ts in packages/db/src/repositories that they use.
use wallet_bot.Base.{ℕ, false, not, ◌&&◌, List, [], ◌∷◌, Option, none, some, if◌then◌else◌}
use wallet_bot.Base.Int.{ℤ, pos, ltb_ℤ, eqb_ℤ}
use wallet_bot.Base.Result.{Result, ok, err}
use wallet_bot.Base.Text.{Text, codes, eq_text}
use wallet_bot.Domain.Enums.{
  TxStatus, ErrorCode, validation_error, amount_too_small, cash_account_not_found,
  currency_mismatch, idempotency_key_reused, transaction_not_found,
}
use wallet_bot.Cash.Owned.{find_cash_account, ensure_cash_account}
use wallet_bot.Money.FixedPoint.{MoneyError}
use wallet_bot.Money.Fiat.{FiatCurrency, usd, ils, same_currency, FiatAmount, parse, negate, abs}
use wallet_bot.Cash.{
  cash, TxType, income, expense, adjustment, TxDirection, money_in, money_out, manual, LedgerRow,
  CashAccountRow, Ledger, LedgerError, thrown, unique_violation, micros,
}
use wallet_bot.Cash.Statements.{insert_row, find_by_idempotency_key}

-- The request has one of the three types of a manual entry.
pub data ManualType : Type 0 where
  income_entry expense_entry adjustment_entry : ManualType

abbrev pub type_of : ManualType → TxType
type_of income_entry = income
type_of expense_entry = expense
type_of adjustment_entry = adjustment

pub record CreateCashRequest : Type 0 where
  pub type : ManualType
  pub currency : FiatCurrency
  pub amount : Text
  pub title : Text
  pub occurred_at : Option ℕ
  pub cash_account_id : Option Text
  pub idempotency_key : Text

-- The sign and the direction that follow from the type.
unfoldable pub normalise : ManualType → FiatAmount → FiatAmount × TxDirection
normalise income_entry amount = (abs amount, money_in)
normalise expense_entry amount = (negate (abs amount), money_out)
normalise adjustment_entry amount =
    (amount, if ltb_ℤ amount.minor (pos 0) then money_out else money_in)

-- The conversions of the currency service, which may throw or have no rate.
pub record Valuations : Type 0 where
  pub to_usd : FiatAmount → Result ErrorCode (Option ℤ)
  pub to_ils : FiatAmount → Result ErrorCode (Option ℤ)

-- The ids that the tables give new rows, and the clock.
pub record EntryContext : Type 0 where
  pub user_id : Text
  pub new_row_id : Text
  pub new_account_id : Text
  pub now : ℕ

abbrev pub or_now : Option ℕ → ℕ → ℕ
or_now none now = now
or_now (some t) now = t

abbrev pub cash_name : FiatCurrency → Text
cash_name ils = codes "Cash (₪)"
cash_name usd = codes "Cash ($)"

abbrev pub cash_row :
    EntryContext
    → CreateCashRequest
    → FiatAmount
    → TxDirection
    → Option ℤ
    → Option ℤ
    → CashAccountRow
    → LedgerRow
cash_row context request amount direction value_usd value_ils account = record {
  id = context.new_row_id;
  user_id = context.user_id;
  kind = cash;
  type = type_of request.type;
  direction = direction;
  status = TxStatus.confirmed;
  source = manual;
  title = request.title;
  occurred_at = micros (or_now request.occurred_at context.now);
  cash_account_id = some account.id;
  fiat_currency = some request.currency;
  fiat_amount_minor = some amount.minor;
  value_usd_minor = value_usd;
  value_ils_minor = value_ils;
  idempotency_key = some request.idempotency_key;
  is_deleted = false;
}

-- A transaction on the ledger; what is thrown inside rolls it back.
abbrev pub settle :
    {A : Type 0} → Ledger → Result LedgerError A × Ledger → Result LedgerError A × Ledger
settle before (err e, inside) = (err e, before)
settle before (ok a, inside) = (ok a, inside)

abbrev pub account_found : Option CashAccountRow → Result LedgerError CashAccountRow
account_found none = err (thrown cash_account_not_found)
account_found (some a) = ok a

-- The account that the request names, or one of its currency.
unfoldable pub account_for :
    EntryContext
    → CreateCashRequest
    → Option Text
    → List CashAccountRow
    → Result LedgerError CashAccountRow × List CashAccountRow
account_for context request none accounts =
    ensure_cash_account context.new_account_id context.user_id (cash_name request.currency)
      request.currency accounts
account_for context request (some id) accounts =
    (account_found (find_cash_account context.user_id id accounts), accounts)

unfoldable pub insert_for :
    EntryContext
    → CreateCashRequest
    → FiatAmount
    → TxDirection
    → Option ℤ
    → Option ℤ
    → List LedgerRow
    → Result LedgerError CashAccountRow × List CashAccountRow
    → Result LedgerError LedgerRow × Ledger
insert_for context request amount direction value_usd value_ils rows (err e, accounts) =
    (err e, record { accounts = accounts; rows = rows })
insert_for context request amount direction value_usd value_ils rows (ok account, accounts) =
    if not (same_currency account.currency request.currency)
    then (err (thrown currency_mismatch), record { accounts = accounts; rows = rows })
    else insert_row (cash_row context request amount direction value_usd value_ils account)
        (record { accounts = accounts; rows = rows })

unfoldable pub find_transaction : Text → Text → List LedgerRow → Option LedgerRow
find_transaction user_id id [] = none
find_transaction user_id id (r ∷ rows) =
    if eq_text r.id id && eq_text r.user_id user_id && not r.is_deleted
    then some r
    else find_transaction user_id id rows

abbrev pub row_found : Option LedgerRow → Result LedgerError LedgerRow
row_found none = err (thrown transaction_not_found)
row_found (some r) = ok r

-- The row behind the transport form.
unfoldable pub get : Text → Text → Ledger → Result LedgerError LedgerRow
get user_id id ledger = row_found (find_transaction user_id id ledger.rows)

unfoldable pub replay_existing : Text → Option LedgerRow → Ledger → Result LedgerError LedgerRow
replay_existing user_id none ledger = err (thrown idempotency_key_reused)
replay_existing user_id (some existing) ledger = get user_id existing.id ledger

-- What createCash answers once its transaction has ended.
unfoldable pub after_create :
    Text → Text → Result LedgerError LedgerRow × Ledger → Result LedgerError LedgerRow × Ledger
after_create user_id key (ok row, ledger) = (get user_id row.id ledger, ledger)
after_create user_id key (err unique_violation, ledger) = (
  replay_existing user_id (find_by_idempotency_key user_id (some key) ledger.rows) ledger,
  ledger,
)
after_create user_id key (err e, ledger) = (err e, ledger)

unfoldable pub create_valued :
    EntryContext
    → CreateCashRequest
    → FiatAmount × TxDirection
    → Result ErrorCode (Option ℤ)
    → Result ErrorCode (Option ℤ)
    → Ledger
    → Result LedgerError LedgerRow × Ledger
create_valued context request signed (err e) in_ils ledger = (err (thrown e), ledger)
create_valued context request signed (ok value_usd) (err e) ledger = (err (thrown e), ledger)
create_valued context request (amount, direction) (ok value_usd) (ok value_ils) ledger =
    after_create context.user_id request.idempotency_key (
      settle ledger (
        insert_for context request amount direction value_usd value_ils ledger.rows
          (account_for context request request.cash_account_id ledger.accounts)))

unfoldable pub create_parsed :
    Valuations
    → EntryContext
    → CreateCashRequest
    → Result MoneyError FiatAmount
    → Ledger
    → Result LedgerError LedgerRow × Ledger
create_parsed valuations context request (err e) ledger = (err (thrown validation_error), ledger)
create_parsed valuations context request (ok amount) ledger =
    if eqb_ℤ amount.minor (pos 0)
    then (err (thrown amount_too_small), ledger)
    else (let signed = normalise request.type amount in
        create_valued context request signed (valuations.to_usd signed.0)
          (valuations.to_ils signed.0) ledger)

unfoldable pub create_cash :
    Valuations → EntryContext → CreateCashRequest → Ledger → Result LedgerError LedgerRow × Ledger
create_cash valuations context request ledger =
    create_parsed valuations context request (parse request.amount request.currency) ledger
