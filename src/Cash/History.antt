-- ===== src/Cash/History.antt =====
-- The ledger over every sequence of statements and service calls: the cached balances of
-- supabase/migrations/0006_functions.sql and packages/core/src/services/transactions.ts.
use wallet_bot.Base.{
  ◌≡◌, refl, sym, ◌∙◌, Bool, true, false, Bool-cases, inl, inr, List, [], ◌∷◌, ◌++◌, not, ◌&&◌,
  Option, none, some, arith, if◌then◌else◌,
}
use wallet_bot.Base.Int.{ℤ, pos, eqb_ℤ}
use wallet_bot.Base.Result.{Result, ok, err}
use wallet_bot.Base.Text.{Text}
use wallet_bot.Domain.Enums.{ErrorCode}
use wallet_bot.Money.Fiat.{FiatCurrency, FiatAmount, same_currency}
use wallet_bot.Money.FixedPoint.{MoneyError}
use wallet_bot.Cash.{
  LedgerRow, CashAccountRow, Ledger, LedgerError, thrown, unique_violation, check_violation,
  foreign_key_violation, TxDirection,
}
use wallet_bot.Cash.Statements.{
  has_account, insert_row, change_row, delete_row, recompute_cash_balance,
}
use wallet_bot.Cash.Sync.{IsCached}
use wallet_bot.Cash.Balance.{IsBalanced}
use wallet_bot.Cash.Accounts.{AreSame, all_named_mono, unnamed-cash_sum}
use wallet_bot.Cash.Entries.{
  Valuations, EntryContext, CreateCashRequest, create_cash, create_parsed, create_valued,
  after_create, settle, insert_for, account_for, cash_name,
}
use wallet_bot.Cash.Owned.{
  is_own, ensure_cash_account, ensure_found, create_cash_account, clear_default,
}
use wallet_bot.Cash.Edits.{
  UpdateInput, update, update_found, remove, remove_found, edited, deleted, is_chain,
}
use wallet_bot.Cash.Run.{
  IsSound, sound-named, if-IsSound, insert-IsSound, updated-IsSound, change-IsSound, delete-IsSound,
  recompute-IsSound,
}
use wallet_bot.Base.{All-append}
use wallet_bot.Cash.Accounts.{all_named-update}

-- A transaction's tables, with or without the account that it has made.
abbrev with_accounts : List LedgerRow → List CashAccountRow → Ledger
with_accounts rows accounts = record { accounts = accounts; rows = rows }

clear_default-IsCached :
    (user_id : Text) (f : Text → ℤ) (accounts : List CashAccountRow)
    → IsCached f accounts
    → IsCached f (clear_default user_id accounts)
unfolding clear_default
clear_default-IsCached user_id f [] h = tt
clear_default-IsCached user_id f (a ∷ accounts) h = (
  elim (Bool-cases (is_own user_id a && a.is_default)) [ inl e ↦ rw e h.0 | inr e ↦ rw e h.0 ],
  clear_default-IsCached user_id f accounts h.1,
)

clear_default-AreSame :
    (user_id : Text) (accounts : List CashAccountRow)
    → AreSame accounts (clear_default user_id accounts)
unfolding clear_default
clear_default-AreSame user_id [] id = refl
clear_default-AreSame user_id (a ∷ accounts) id =
    rw (clear_default-AreSame user_id accounts id)
      (elim (Bool-cases (is_own user_id a && a.is_default)) [
        | inl e ↦ rw e refl
        | inr e ↦ rw e refl
      ])

clear-IsSound :
    (user_id : Text) (rows : List LedgerRow) (accounts : List CashAccountRow)
    → IsSound (with_accounts rows accounts)
    → IsSound (with_accounts rows (clear_default user_id accounts))
unfolding IsSound IsBalanced
clear-IsSound user_id rows accounts h = (
  clear_default-IsCached user_id _ accounts h.0,
  all_named_mono rows accounts _ (λ id there. clear_default-AreSame user_id accounts id ∙ there)
      h.1,
)

has_account-append :
    (id : Text) (accounts : List CashAccountRow) (a : CashAccountRow)
    → has_account id accounts ≡ true
    → has_account id (accounts ++ (a ∷ [])) ≡ true
has_account-append id [] a there = absurd cc
has_account-append id (b ∷ accounts) a there =
    ground (arith, there, has_account-append id accounts a)

-- A new account starts at nothing, as the ledger says of it.
new-IsSound :
    (rows : List LedgerRow) (accounts : List CashAccountRow) (a : CashAccountRow)
    → a.balance_minor ≡ pos 0
    → has_account a.id accounts ≡ false
    → IsSound (with_accounts rows accounts)
    → IsSound (with_accounts rows (accounts ++ (a ∷ [])))
unfolding IsSound IsBalanced
new-IsSound rows accounts a nothing missing h = (
  All-append _ accounts (a ∷ []) h.0
      (nothing ∙ sym (unnamed-cash_sum a.id rows accounts missing h.1), tt),
  all_named_mono rows accounts _ (λ id there. has_account-append id accounts a there) h.1,
)

create_account-IsSound :
    (new_id user_id name : Text) (currency : FiatCurrency) (is_default : Bool)
    (rows : List LedgerRow) (accounts : List CashAccountRow)
    → IsSound (with_accounts rows accounts)
    → IsSound (
        with_accounts rows (create_cash_account new_id user_id name currency is_default accounts).1)
unfolding create_cash_account
create_account-IsSound new_id user_id name currency is_default rows accounts h =
    elim (Bool-cases (has_account new_id cleared)) [
      | inl e ↦ rw e sound
      | inr e ↦ rw e (new-IsSound rows cleared _ refl e sound)
    ]
  where
    cleared : List CashAccountRow
    cleared = if is_default then clear_default user_id accounts else accounts

    sound :
        IsSound
          (with_accounts rows (if is_default then clear_default user_id accounts else accounts))
    sound = go is_default
      where
        go :
            (b : Bool)
            → IsSound (with_accounts rows (if b then clear_default user_id accounts else accounts))
        go true = clear-IsSound user_id rows accounts h
        go false = h

account-IsSound :
    (context : EntryContext) (request : CreateCashRequest) (named : Option Text)
    (rows : List LedgerRow) (accounts : List CashAccountRow)
    → IsSound (with_accounts rows accounts)
    → IsSound (with_accounts rows (account_for context request named accounts).1)
unfolding account_for ensure_cash_account ensure_found
account-IsSound context request (some id) rows accounts h = h
account-IsSound context request none rows accounts h = found _
  where
    found :
        (existing : Option CashAccountRow)
        → IsSound (
            with_accounts rows
              (ensure_found context.new_account_id context.user_id
                (cash_name request.currency)
                request.currency
                existing
                accounts).1)
    found (some a) = h
    found none =
        create_account-IsSound context.new_account_id context.user_id _ request.currency _ rows
          accounts h

insert_for-IsSound :
    (context : EntryContext) (request : CreateCashRequest) (amount : FiatAmount)
    (direction : TxDirection) (value_usd value_ils : Option ℤ) (rows : List LedgerRow)
    (found : Result LedgerError CashAccountRow × List CashAccountRow)
    → IsSound (with_accounts rows found.1)
    → IsSound (insert_for context request amount direction value_usd value_ils rows found).1
unfolding insert_for
insert_for-IsSound context request amount direction value_usd value_ils rows (err e, accounts) h = h
insert_for-IsSound context request amount direction value_usd value_ils rows (ok a, accounts) h =
    if-IsSound (not (same_currency a.currency request.currency)) _ _ h (insert-IsSound _ _ h)

settle-IsSound :
    {A : Type 0} (before : Ledger) (r : Result LedgerError A × Ledger)
    → IsSound before
    → IsSound r.1
    → IsSound (settle before r).1
settle-IsSound before (err e, inside) h k = h
settle-IsSound before (ok a, inside) h k = k

after_create-IsSound :
    (user_id key : Text) (r : Result LedgerError LedgerRow × Ledger)
    → IsSound r.1
    → IsSound (after_create user_id key r).1
unfolding after_create
after_create-IsSound user_id key (ok row, ledger) h = h
after_create-IsSound user_id key (err unique_violation, ledger) h = h
after_create-IsSound user_id key (err (thrown e), ledger) h = h
after_create-IsSound user_id key (err check_violation, ledger) h = h
after_create-IsSound user_id key (err foreign_key_violation, ledger) h = h

valued-IsSound :
    (context : EntryContext) (request : CreateCashRequest) (signed : FiatAmount × TxDirection)
    (in_usd in_ils : Result ErrorCode (Option ℤ)) (ledger : Ledger)
    → IsSound ledger
    → IsSound (create_valued context request signed in_usd in_ils ledger).1
unfolding create_valued
valued-IsSound context request signed (err e) in_ils ledger h = h
valued-IsSound context request signed (ok value_usd) (err e) ledger h = h
valued-IsSound context request (amount, direction) (ok value_usd) (ok value_ils) ledger h =
    after_create-IsSound context.user_id request.idempotency_key _ (
      settle-IsSound ledger _ h (
        insert_for-IsSound context request amount direction value_usd value_ils ledger.rows _
          (account-IsSound context request request.cash_account_id ledger.rows ledger.accounts h)))

parsed-IsSound :
    (valuations : Valuations) (context : EntryContext) (request : CreateCashRequest)
    (parsed : Result MoneyError FiatAmount) (ledger : Ledger)
    → IsSound ledger
    → IsSound (create_parsed valuations context request parsed ledger).1
unfolding create_parsed
parsed-IsSound valuations context request (err e) ledger h = h
parsed-IsSound valuations context request (ok amount) ledger h =
    if-IsSound (eqb_ℤ amount.minor (pos 0)) _ _ h (valued-IsSound context request _ _ _ ledger h)

update-IsSound :
    (user_id id : Text) (input : UpdateInput) (ledger : Ledger)
    → IsSound ledger
    → IsSound (update user_id id input ledger).1
unfolding update update_found
update-IsSound user_id id input ledger h = found _
  where
    found : (row : Option LedgerRow) → IsSound (update_found user_id id input row ledger).1
    found none = h
    found (some r) = updated-IsSound id (edited input) ledger h (
        all_named-update id (edited input) ledger.rows ledger.accounts ledger.accounts (λ q. refl)
        ∙ sound-named ledger h)

remove-IsSound :
    (user_id id : Text) (ledger : Ledger) → IsSound ledger → IsSound (remove user_id id ledger).1
unfolding remove remove_found
remove-IsSound user_id id ledger h = found _
  where
    found : (row : Option LedgerRow) → IsSound (remove_found id row ledger).1
    found none = h
    found (some r) = if-IsSound (is_chain r.source) _ _ h (
        updated-IsSound id deleted ledger h (
          all_named-update id deleted ledger.rows ledger.accounts ledger.accounts (λ q. refl)
          ∙ sound-named ledger h))

-- A call of the service, or a statement of any other code on a row or an account.
pub data LedgerStep : Type 0 where
  creates : Valuations → EntryContext → CreateCashRequest → LedgerStep
  updates : Text → Text → UpdateInput → LedgerStep
  removes : Text → Text → LedgerStep
  inserts : LedgerRow → LedgerStep
  changes : Text → (LedgerRow → LedgerRow) → LedgerStep
  deletes : Text → LedgerStep
  recomputes : Text → LedgerStep

abbrev pub ledger_step : LedgerStep → Ledger → Ledger
ledger_step (creates valuations context request) ledger =
    (create_cash valuations context request ledger).1
ledger_step (updates user_id id input) ledger = (update user_id id input ledger).1
ledger_step (removes user_id id) ledger = (remove user_id id ledger).1
ledger_step (inserts r) ledger = (insert_row r ledger).1
ledger_step (changes id change) ledger = (change_row id change ledger).1
ledger_step (deletes id) ledger = delete_row id ledger
ledger_step (recomputes id) ledger = (recompute_cash_balance id ledger).1

abbrev pub ledger_after : List LedgerStep → Ledger → Ledger
ledger_after [] ledger = ledger
ledger_after (s ∷ steps) ledger = ledger_after steps (ledger_step s ledger)

step-IsSound : (s : LedgerStep) (ledger : Ledger) → IsSound ledger → IsSound (ledger_step s ledger)
unfolding create_cash
step-IsSound (creates valuations context request) ledger h =
    parsed-IsSound valuations context request _ ledger h
step-IsSound (updates user_id id input) ledger h = update-IsSound user_id id input ledger h
step-IsSound (removes user_id id) ledger h = remove-IsSound user_id id ledger h
step-IsSound (inserts r) ledger h = insert-IsSound r ledger h
step-IsSound (changes id change) ledger h = change-IsSound id change ledger h
step-IsSound (deletes id) ledger h = delete-IsSound id ledger h
step-IsSound (recomputes id) ledger h = recompute-IsSound id ledger h

-- From a ledger in which every cached balance is the sum of the confirmed cash rows of its account
-- that are not deleted, and in which rows name only accounts that are there, every sequence of
-- service calls, of insertions, changes of any columns and deletions of rows, and of recomputations
-- leads to such a ledger.
pub ledger_after-IsSound :
    (steps : List LedgerStep) (ledger : Ledger)
    → IsSound ledger
    → IsSound (ledger_after steps ledger)
ledger_after-IsSound [] ledger h = h
ledger_after-IsSound (s ∷ steps) ledger h =
    ledger_after-IsSound steps (ledger_step s ledger) (step-IsSound s ledger h)
