-- ===== src/Cash/Run.antt =====
-- The ledger over every sequence of statements and service calls: the cached balances of
-- supabase/migrations/0006_functions.sql and packages/core/src/services/transactions.ts.
use wallet_bot.Base.{
  ◌≡◌, sym, ◌∙◌, Bool, true, false, Bool-cases, inl, inr, List, [], ◌∷◌, ◌++◌, not, ◌||◌,
  if◌then◌else◌,
}
use wallet_bot.Base.Int.{pos, ◌+ℤ◌, int_laws}
use wallet_bot.Base.Result.{Result}
use wallet_bot.Base.Text.{Text}
use wallet_bot.Cash.{LedgerRow, CashAccountRow, Ledger, LedgerError, sync_insert}
use wallet_bot.Cash.Statements.{
  names_account, all_named, cash_sum, update_rows, delete_rows, insert_row, change_row, delete_row,
  recompute_cash_balance, find_by_idempotency_key, passes_checks, has_row, is_present,
}
use wallet_bot.Cash.Sync.{IsCached, IsCached-cong, insert-IsCached}
use wallet_bot.Cash.Balance.{
  IsBalanced, cash_sum-append, update_rows-IsCached, delete_rows-IsCached, recompute-IsBalanced,
}
use wallet_bot.Cash.Accounts.{
  AreSame, insert-AreSame, update_rows-AreSame, delete_rows-AreSame, all_named_mono,
  all_named-append, all_named-delete,
}
use wallet_bot.Cash.Edits.{with_rows}

-- The cached balances agree with the ledger, and no row names an account that is missing.
unfoldable pub IsSound : Ledger → Type 0
IsSound ledger = IsBalanced ledger × (all_named ledger.rows ledger.accounts ≡ true)

kept_named :
    (rows : List LedgerRow) (before after : List CashAccountRow)
    → AreSame before after
    → all_named rows before ≡ true
    → all_named rows after ≡ true
kept_named rows before after same h =
    all_named_mono rows before after (λ id there. same id ∙ there) h

pub kept-IsSound :
    (ledger : Ledger)
    → IsBalanced ledger
    → all_named ledger.rows ledger.accounts ≡ true
    → IsSound ledger
unfolding IsSound
kept-IsSound ledger b n = (b, n)

pub sound-named : (ledger : Ledger) → IsSound ledger → all_named ledger.rows ledger.accounts ≡ true
unfolding IsSound
sound-named ledger h = h.1

inserted-IsSound :
    (r : LedgerRow) (ledger : Ledger)
    → IsSound ledger
    → names_account r.cash_account_id ledger.accounts ≡ true
    → IsSound (record { accounts = sync_insert r ledger.accounts; rows = ledger.rows ++ (r ∷ []) })
unfolding IsSound IsBalanced
inserted-IsSound r ledger h named = (
  IsCached-cong _ _ _ (λ i. sym (cash_sum-append i r ledger.rows))
      (insert-IsCached r _ ledger.accounts h.0),
  kept_named (ledger.rows ++ (r ∷ [])) ledger.accounts _ (insert-AreSame r ledger.accounts)
      (all_named-append ledger.rows r ledger.accounts h.1 named),
)

pub if-IsSound :
    {A : Type 0} (b : Bool) (x y : Result LedgerError A × Ledger)
    → IsSound x.1
    → IsSound y.1
    → IsSound (if b then x else y).1
if-IsSound true x y hx hy = hx
if-IsSound false x y hx hy = hy

pub insert-IsSound :
    (r : LedgerRow) (ledger : Ledger) → IsSound ledger → IsSound (insert_row r ledger).1
unfolding insert_row
insert-IsSound r ledger h = if-IsSound (not (passes_checks r)) _ _ h (
    if-IsSound
      (has_row r.id ledger.rows
        || is_present (find_by_idempotency_key r.user_id r.idempotency_key ledger.rows))
      _ _ h
      (elim (Bool-cases (names_account r.cash_account_id ledger.accounts)) [
        | inl e ↦ rw e (inserted-IsSound r ledger h e)
        | inr e ↦ rw e h
      ]))

zero-IsCached :
    (rows : List LedgerRow) (accounts : List CashAccountRow)
    → IsCached (λ i. cash_sum i rows) accounts
    → IsCached (λ i. pos 0 +ℤ cash_sum i rows) accounts
zero-IsCached rows accounts h = IsCached-cong _ _ accounts (λ i. omega int_laws) h

IsCached-zero :
    (rows : List LedgerRow) (accounts : List CashAccountRow)
    → IsCached (λ i. pos 0 +ℤ cash_sum i rows) accounts
    → IsCached (λ i. cash_sum i rows) accounts
IsCached-zero rows accounts h = IsCached-cong _ _ accounts (λ i. omega int_laws) h

-- An update whose new rows name accounts that are there.
pub updated-IsSound :
    (id : Text) (change : LedgerRow → LedgerRow) (ledger : Ledger)
    → IsSound ledger
    → all_named (update_rows id change ledger.rows ledger.accounts).0 ledger.accounts ≡ true
    → IsSound (with_rows (update_rows id change ledger.rows ledger.accounts))
unfolding IsSound IsBalanced
updated-IsSound id change ledger h named = (
  IsCached-zero _ _ (
      update_rows-IsCached id change ledger.accounts (λ i. pos 0) ledger.rows
        (zero-IsCached ledger.rows ledger.accounts h.0)),
  kept_named (update_rows id change ledger.rows ledger.accounts).0 ledger.accounts _
      (update_rows-AreSame id change ledger.rows ledger.accounts) named,
)

pub change-IsSound :
    (id : Text) (change : LedgerRow → LedgerRow) (ledger : Ledger)
    → IsSound ledger
    → IsSound (change_row id change ledger).1
unfolding change_row
change-IsSound id change ledger h =
    elim (Bool-cases
      (all_named (update_rows id change ledger.rows ledger.accounts).0 ledger.accounts)) [
        | inl e ↦ rw e (updated-IsSound id change ledger h e)
        | inr e ↦ rw e h
      ]

pub delete-IsSound : (id : Text) (ledger : Ledger) → IsSound ledger → IsSound (delete_row id ledger)
unfolding IsSound IsBalanced delete_row
delete-IsSound id ledger h = (
  IsCached-zero _ _ (
      delete_rows-IsCached id (λ r. r) ledger.accounts (λ i. pos 0) ledger.rows
        (zero-IsCached ledger.rows ledger.accounts h.0)),
  kept_named (delete_rows id ledger.rows ledger.accounts).0 ledger.accounts _
      (delete_rows-AreSame id ledger.rows ledger.accounts)
      (all_named-delete id ledger.rows ledger.accounts ledger.accounts h.1),
)

pub recompute-IsSound :
    (id : Text) (ledger : Ledger) → IsSound ledger → IsSound (recompute_cash_balance id ledger).1
unfolding IsSound
recompute-IsSound id ledger h = rw (recompute-IsBalanced id ledger h.0) h
