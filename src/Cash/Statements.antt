-- ===== src/Cash/Statements.antt =====
-- The constraints of supabase/migrations/0004_ledger.sql, and the statements on transactions and on
-- cash balances of transactions.ts in packages/db/src/repositories and of 0006_functions.sql.
use wallet_bot.Base.{
  Bool, true, false, not, ◌&&◌, ◌||◌, List, [], ◌∷◌, ◌++◌, Option, none, some, ◌==◌, if◌then◌else◌,
}
use wallet_bot.Base.Int.{ℤ, pos, ◌+ℤ◌, ltb_ℤ}
use wallet_bot.Base.Result.{Result, ok, err}
use wallet_bot.Base.Text.{Text, eq_text}
use wallet_bot.Domain.Enums.{TxStatus}
use wallet_bot.Domain.StateMachines.{tx_index}
use wallet_bot.Cash.{
  TxType, TxDirection, LedgerRow, CashAccountRow, Ledger, LedgerError, is_cash, amount_or_zero,
  each_account, same_account, sync_insert, sync_delete, sync_update, adjustment, money_in,
  money_out, internal, unique_violation, check_violation, foreign_key_violation,
}

-- The constraint `transactions_cash_sign`.
abbrev pub has_sign : TxType → TxDirection → Option ℤ → Bool
has_sign adjustment direction amount = true
has_sign _ internal amount = true
has_sign _ direction none = true
has_sign _ money_in (some amount) = ltb_ℤ (pos 0) amount
has_sign _ money_out (some amount) = ltb_ℤ amount (pos 0)

abbrev pub is_present : {A : Type 0} → Option A → Bool
is_present none = false
is_present (some a) = true

-- `transactions_cash_shape` and `transactions_crypto_shape`, of the columns of cash.
abbrev pub has_shape : LedgerRow → Bool
has_shape r =
    if is_cash r.kind
    then is_present r.fiat_currency && is_present r.fiat_amount_minor
    else not (is_present r.cash_account_id) && not (is_present r.fiat_amount_minor)

unfoldable pub passes_checks : LedgerRow → Bool
passes_checks r =
    has_shape r && (not (is_cash r.kind) || has_sign r.type r.direction r.fiat_amount_minor)

abbrev pub has_account : Text → List CashAccountRow → Bool
has_account id [] = false
has_account id (a ∷ accounts) = eq_text a.id id || has_account id accounts

abbrev pub names_account : Option Text → List CashAccountRow → Bool
names_account none accounts = true
names_account (some id) accounts = has_account id accounts

-- The unique index on (user_id, idempotency_key); rows that are deleted stay in it.
abbrev pub same_idempotency_key : Option Text → Option Text → Bool
same_idempotency_key (some a) (some b) = eq_text a b
same_idempotency_key _ _ = false

abbrev pub is_keyed : Text → Option Text → LedgerRow → Bool
is_keyed user_id key r = eq_text r.user_id user_id && same_idempotency_key r.idempotency_key key

unfoldable pub find_by_idempotency_key : Text → Option Text → List LedgerRow → Option LedgerRow
find_by_idempotency_key user_id key [] = none
find_by_idempotency_key user_id key (r ∷ rows) =
    if is_keyed user_id key r then some r else find_by_idempotency_key user_id key rows

abbrev pub has_row : Text → List LedgerRow → Bool
has_row id [] = false
has_row id (r ∷ rows) = eq_text r.id id || has_row id rows

-- An insertion: constraints, then the unique indexes, then the reference and the trigger.
unfoldable pub insert_row : LedgerRow → Ledger → Result LedgerError LedgerRow × Ledger
insert_row r ledger =
    if not (passes_checks r)
    then (err check_violation, ledger)
    else if has_row r.id ledger.rows
        || is_present (find_by_idempotency_key r.user_id r.idempotency_key ledger.rows)
    then (err unique_violation, ledger)
    else if not (names_account r.cash_account_id ledger.accounts)
    then (err foreign_key_violation, ledger)
    else (ok r, record { accounts = sync_insert r ledger.accounts; rows = ledger.rows ++ (r ∷ []) })

-- An update of one row, by its key, to new values of its columns.
unfoldable pub update_rows :
    Text
    → (LedgerRow → LedgerRow)
    → List LedgerRow
    → List CashAccountRow
    → List LedgerRow × List CashAccountRow
update_rows id change [] accounts = ([], accounts)
update_rows id change (r ∷ rows) accounts =
    let (rest, synced) = update_rows id change rows accounts in
    if eq_text r.id id
    then (change r ∷ rest, sync_update r (change r) synced)
    else (r ∷ rest, synced)

unfoldable pub delete_rows :
    Text → List LedgerRow → List CashAccountRow → List LedgerRow × List CashAccountRow
delete_rows id [] accounts = ([], accounts)
delete_rows id (r ∷ rows) accounts =
    let (rest, synced) = delete_rows id rows accounts in
    if eq_text r.id id then (rest, sync_delete r synced) else (r ∷ rest, synced)

-- Every row names an account that is there, or none.
abbrev pub all_named : List LedgerRow → List CashAccountRow → Bool
all_named [] accounts = true
all_named (r ∷ rows) accounts = names_account r.cash_account_id accounts && all_named rows accounts

-- An `UPDATE transactions` of any columns of one row, of which the reference is tested.
unfoldable pub change_row :
    Text → (LedgerRow → LedgerRow) → Ledger → Result LedgerError (Unit {0}) × Ledger
change_row id change ledger =
    let (rows, accounts) = update_rows id change ledger.rows ledger.accounts in
    if all_named rows ledger.accounts
    then (ok tt, record { accounts = accounts; rows = rows })
    else (err foreign_key_violation, ledger)

unfoldable pub delete_row : Text → Ledger → Ledger
delete_row id ledger =
    let (rows, accounts) = delete_rows id ledger.rows ledger.accounts in
    record { accounts = accounts; rows = rows }

-- app.recompute_cash_balance
abbrev pub counts_in : Text → LedgerRow → Bool
counts_in id r =
    same_account r.cash_account_id (some id)
    && is_cash r.kind
    && tx_index r.status == tx_index TxStatus.confirmed
    && not r.is_deleted

unfoldable pub cash_sum : Text → List LedgerRow → ℤ
cash_sum id [] = pos 0
cash_sum id (r ∷ rows) =
    let rest = cash_sum id rows in
    if counts_in id r then amount_or_zero r.fiat_amount_minor +ℤ rest else rest

abbrev pub with_total : Text → ℤ → CashAccountRow → CashAccountRow
with_total id total a = if eq_text a.id id then record a { balance_minor = total } else a

unfoldable pub recompute_cash_balance : Text → Ledger → ℤ × Ledger
recompute_cash_balance id ledger =
    let total = cash_sum id ledger.rows in
    (total, record ledger { accounts = each_account (with_total id total) ledger.accounts })
