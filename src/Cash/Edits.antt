-- ===== src/Cash/Edits.antt =====
-- Edits and deletions of entries: update and remove of
-- packages/core/src/services/transactions.ts.
use wallet_bot.Base.{ℕ, Bool, true, false, List, Option, none, some, if◌then◌else◌}
use wallet_bot.Base.Result.{Result, ok, err}
use wallet_bot.Base.Text.{Text}
use wallet_bot.Domain.Enums.{transaction_not_found, forbidden}
use wallet_bot.Cash.{
  TxSource, chain, LedgerRow, CashAccountRow, Ledger, LedgerError, thrown, micros,
}
use wallet_bot.Cash.Statements.{update_rows}
use wallet_bot.Cash.Entries.{find_transaction, get}

pub record UpdateInput : Type 0 where
  pub title : Option Text
  pub occurred_at : Option ℕ

abbrev pub or_kept : {A : Type 0} → Option A → A → A
or_kept none a = a
or_kept (some b) a = b

-- A `Date` as the column stores it.
abbrev pub stored_time : Option ℕ → Option ℕ
stored_time none = none
stored_time (some ms) = some (micros ms)

abbrev pub edited : UpdateInput → LedgerRow → LedgerRow
edited input r = record r {
  title = or_kept input.title r.title;
  occurred_at = or_kept (stored_time input.occurred_at) r.occurred_at;
}

-- An update that finds its row; the row's key names it.
abbrev pub with_rows : List LedgerRow × List CashAccountRow → Ledger
with_rows (rows, accounts) = record { accounts = accounts; rows = rows }

unfoldable pub update_found :
    Text → Text → UpdateInput → Option LedgerRow → Ledger → Result LedgerError LedgerRow × Ledger
update_found user_id id input none ledger = (err (thrown transaction_not_found), ledger)
update_found user_id id input (some r) ledger =
    let after = with_rows (update_rows id (edited input) ledger.rows ledger.accounts) in
    (get user_id id after, after)

unfoldable pub update : Text → Text → UpdateInput → Ledger → Result LedgerError LedgerRow × Ledger
update user_id id input ledger =
    update_found user_id id input (find_transaction user_id id ledger.rows) ledger

abbrev pub is_chain : TxSource → Bool
is_chain chain = true
is_chain _ = false

abbrev pub deleted : LedgerRow → LedgerRow
deleted r = record r { is_deleted = true }

unfoldable pub remove_found :
    Text → Option LedgerRow → Ledger → Result LedgerError (Unit {0}) × Ledger
remove_found id none ledger = (err (thrown transaction_not_found), ledger)
remove_found id (some r) ledger =
    if is_chain r.source
    then (err (thrown forbidden), ledger)
    else (ok tt, with_rows (update_rows id deleted ledger.rows ledger.accounts))

-- softDeleteTransaction, for a transaction that did not come from a chain.
unfoldable pub remove : Text → Text → Ledger → Result LedgerError (Unit {0}) × Ledger
remove user_id id ledger = remove_found id (find_transaction user_id id ledger.rows) ledger
