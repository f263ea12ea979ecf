-- ===== src/Cash.antt =====
-- Cash: the rows of `transactions` and of `cash_accounts`, after supabase/migrations/0004_ledger.sql,
-- and the trigger of 0006_functions.sql that keeps the balances.
pub mod Statements
pub mod Sync
pub mod Balance
pub mod Accounts
pub mod Owned
pub mod Entries
pub mod Edits
pub mod Run
pub mod History
pub mod Replay
pub mod Cursor
pub mod Listing
use wallet_bot.Base.{
  ℕ, ◌*◌, Bool, true, false, not, ◌&&◌, ◌||◌, List, [], ◌∷◌, ◌++◌, Option, none, some, ◌==◌,
  if◌then◌else◌,
}
use wallet_bot.Base.Int.{ℤ, pos, ◌+ℤ◌, ◌-ℤ◌, ltb_ℤ, eqb_ℤ}
use wallet_bot.Base.Result.{Result, ok, err}
use wallet_bot.Base.Text.{Text, eq_text}
use wallet_bot.Domain.Enums.{TxStatus, ErrorCode}
use wallet_bot.Domain.StateMachines.{tx_index, assert_transition}
use wallet_bot.Money.Fiat.{FiatCurrency, same_currency}

pub data TxKind : Type 0 where
  cash crypto : TxKind

pub data TxType : Type 0 where
  income expense transfer adjustment : TxType

pub data TxDirection : Type 0 where
  money_in money_out internal : TxDirection

pub data TxSource : Type 0 where
  manual chain scheduled system : TxSource

-- A time of the database, in microseconds, for a `Date`, in milliseconds.
abbrev pub micros : ℕ → ℕ
micros ms = ms * 1000

-- The columns that decide on cash, and the title for the texts that are only shown; `occurred_at` is in
-- microseconds.
pub record LedgerRow : Type 0 where
  pub id : Text
  pub user_id : Text
  pub kind : TxKind
  pub type : TxType
  pub direction : TxDirection
  pub status : TxStatus
  pub source : TxSource
  pub title : Text
  pub occurred_at : ℕ
  pub cash_account_id : Option Text
  pub fiat_currency : Option FiatCurrency
  pub fiat_amount_minor : Option ℤ
  pub value_usd_minor : Option ℤ
  pub value_ils_minor : Option ℤ
  pub idempotency_key : Option Text
  pub is_deleted : Bool

pub record CashAccountRow : Type 0 where
  pub id : Text
  pub user_id : Text
  pub name : Text
  pub currency : FiatCurrency
  pub balance_minor : ℤ
  pub is_default : Bool
  pub is_deleted : Bool

-- Both lists are in the order of creation.
pub record Ledger : Type 0 where
  pub accounts : List CashAccountRow
  pub rows : List LedgerRow

-- What a statement or the code around it throws.
pub data LedgerError : Type 0 where
  thrown : ErrorCode → LedgerError
  unique_violation check_violation foreign_key_violation : LedgerError

abbrev pub is_cash : TxKind → Bool
is_cash cash = true
is_cash crypto = false

-- app.cash_effective_amount
abbrev pub amount_or_zero : Option ℤ → ℤ
amount_or_zero none = pos 0
amount_or_zero (some amount) = amount

unfoldable pub cash_effective_amount : TxKind → TxStatus → Bool → Option ℤ → ℤ
cash_effective_amount kind status is_deleted amount =
    if not (is_cash kind)
    then pos 0
    else if is_deleted
    then pos 0
    else if not (tx_index status == tx_index TxStatus.confirmed)
    then pos 0
    else amount_or_zero amount

abbrev pub effective : LedgerRow → ℤ
effective r = cash_effective_amount r.kind r.status r.is_deleted r.fiat_amount_minor

-- `UPDATE cash_accounts SET balance_minor = balance_minor + delta WHERE id = ...`
abbrev pub add_to : Text → ℤ → CashAccountRow → CashAccountRow
add_to id delta a =
    if eq_text a.id id then record a { balance_minor = a.balance_minor +ℤ delta } else a

abbrev pub take_from : Text → ℤ → CashAccountRow → CashAccountRow
take_from id delta a =
    if eq_text a.id id then record a { balance_minor = a.balance_minor -ℤ delta } else a

abbrev pub each_account :
    (CashAccountRow → CashAccountRow) → List CashAccountRow → List CashAccountRow
each_account change [] = []
each_account change (a ∷ accounts) = change a ∷ each_account change accounts

-- An update of the account that a row names, if it names one and the amount is not zero.
abbrev pub if_named :
    (Text → ℤ → CashAccountRow → CashAccountRow)
    → Option Text
    → ℤ
    → List CashAccountRow
    → List CashAccountRow
if_named change none amount accounts = accounts
if_named change (some id) amount accounts =
    if eqb_ℤ amount (pos 0) then accounts else each_account (change id amount) accounts

abbrev pub same_account : Option Text → Option Text → Bool
same_account none none = true
same_account (some a) (some b) = eq_text a b
same_account _ _ = false

-- The amount of OLD or NEW in the trigger; a row without an account counts nothing.
abbrev pub named_amount : Option Text → ℤ → ℤ
named_amount none amount = pos 0
named_amount (some id) amount = amount

-- app.sync_cash_balance: AFTER INSERT, UPDATE, DELETE.
unfoldable pub sync_insert : LedgerRow → List CashAccountRow → List CashAccountRow
sync_insert new accounts =
    if_named add_to new.cash_account_id (named_amount new.cash_account_id (effective new) -ℤ pos 0)
      accounts

unfoldable pub sync_delete : LedgerRow → List CashAccountRow → List CashAccountRow
sync_delete old accounts =
    if_named add_to old.cash_account_id (pos 0 -ℤ named_amount old.cash_account_id (effective old))
      accounts

unfoldable pub sync_update : LedgerRow → LedgerRow → List CashAccountRow → List CashAccountRow
sync_update old new accounts =
    let old_amount = named_amount old.cash_account_id (effective old) in
    let new_amount = named_amount new.cash_account_id (effective new) in
    if same_account old.cash_account_id new.cash_account_id
    then if_named add_to new.cash_account_id (new_amount -ℤ old_amount) accounts
    else if_named add_to new.cash_account_id new_amount
        (if_named take_from old.cash_account_id old_amount accounts)
