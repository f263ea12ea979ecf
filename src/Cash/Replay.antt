-- ===== src/Cash/Replay.antt =====
-- A retried entry: createCash of packages/core/src/services/transactions.ts with an idempotency key
-- that is used.
use wallet_bot.Base.{
  ◌≡◌, refl, sym, subst, Bool, true, false, Bool-cases, inl, inr, List, not, Option, none, some,
  arith, if◌then◌else◌,
}
use wallet_bot.Base.Int.{ℤ, pos, eqb_ℤ}
use wallet_bot.Base.Result.{Result, ok, err}
use wallet_bot.Base.Text.{Text}
use wallet_bot.Domain.Enums.{ErrorCode}
use wallet_bot.Money.Fiat.{FiatAmount, same_currency}
use wallet_bot.Money.FixedPoint.{MoneyError}
use wallet_bot.Cash.{
  LedgerRow, CashAccountRow, Ledger, LedgerError, thrown, unique_violation, check_violation,
  foreign_key_violation, TxDirection,
}
use wallet_bot.Cash.Statements.{insert_row, find_by_idempotency_key, passes_checks, has_row}
use wallet_bot.Cash.Entries.{
  Valuations, EntryContext, CreateCashRequest, create_cash, create_parsed, create_valued,
  after_create, settle, insert_for, get, row_found, replay_existing, find_transaction,
}

-- The transaction has thrown, and its tables are as before.
abbrev IsUndone : {A : Type 0} → Ledger → Result LedgerError A × Ledger → Type 0
IsUndone before r = (e : LedgerError) × (settle before r ≡ (err e, before))

-- Nothing has changed, and a row that is answered is the one with the id.
abbrev IsReplay : Text → Text → Ledger → Result LedgerError LedgerRow × Ledger → Type 0
IsReplay user_id id before r =
    (r.1 ≡ before)
    × ((row : LedgerRow) → r.0 ≡ ok row → find_transaction user_id id before.rows ≡ some row)

if-IsUndone :
    {A : Type 0} (before : Ledger) (b : Bool) (x y : Result LedgerError A × Ledger)
    → IsUndone before x
    → IsUndone before y
    → IsUndone before (if b then x else y)
if-IsUndone before true x y hx hy = hx
if-IsUndone before false x y hx hy = hy

insert-IsUndone :
    (r : LedgerRow) (before ledger : Ledger) (first : LedgerRow)
    → find_by_idempotency_key r.user_id r.idempotency_key ledger.rows ≡ some first
    → IsUndone before (insert_row r ledger)
unfolding insert_row
insert-IsUndone r before ledger first taken =
    if-IsUndone before (not (passes_checks r)) _ _ (_, refl)
      (elim (Bool-cases (has_row r.id ledger.rows)) [
        | inl e ↦ rw e (_, refl)
        | inr e ↦ rw (e, taken) (_, refl)
      ])

module _ (context : EntryContext) (request : CreateCashRequest) (ledger : Ledger)
    (first : LedgerRow)
    (taken : find_by_idempotency_key context.user_id (some request.idempotency_key) ledger.rows
      ≡ some first) where
  insert_for-IsUndone :
      (amount : FiatAmount) (direction : TxDirection) (value_usd value_ils : Option ℤ)
      (found : Result LedgerError CashAccountRow × List CashAccountRow)
      → IsUndone ledger
          (insert_for context request amount direction value_usd value_ils ledger.rows found)
  unfolding insert_for
  insert_for-IsUndone amount direction value_usd value_ils (err e, accounts) = (_, refl)
  insert_for-IsUndone amount direction value_usd value_ils (ok a, accounts) =
      if-IsUndone ledger (not (same_currency a.currency request.currency)) _ _ (_, refl)
        (insert-IsUndone _ ledger (record { accounts = accounts; rows = ledger.rows }) first taken)

  found-eq-ok :
      (found : Option LedgerRow) (row : LedgerRow) → row_found found ≡ ok row → found ≡ some row
  found-eq-ok none row ended = absurd cc
  found-eq-ok (some r) row ended = ground (arith, ended)

  after-IsReplay :
      (e : LedgerError)
      → IsReplay context.user_id first.id ledger
          (after_create context.user_id request.idempotency_key (err e, ledger))
  unfolding after_create replay_existing get
  after-IsReplay (thrown e) = (refl, λ row ended. absurd cc)
  after-IsReplay check_violation = (refl, λ row ended. absurd cc)
  after-IsReplay foreign_key_violation = (refl, λ row ended. absurd cc)
  after-IsReplay unique_violation = (
    refl,
    λ row ended.
        found-eq-ok _ row
          (subst (λ found. replay_existing context.user_id found ledger ≡ ok row) taken ended),
  )

  valued-IsReplay :
      (signed : FiatAmount × TxDirection) (in_usd in_ils : Result ErrorCode (Option ℤ))
      → IsReplay context.user_id first.id ledger
          (create_valued context request signed in_usd in_ils ledger)
  unfolding create_valued
  valued-IsReplay signed (err e) in_ils = (refl, λ row ended. absurd cc)
  valued-IsReplay signed (ok value_usd) (err e) = (refl, λ row ended. absurd cc)
  valued-IsReplay (amount, direction) (ok value_usd) (ok value_ils) =
      let (e, undone) = insert_for-IsUndone amount direction value_usd value_ils _ in
      subst
        (λ r.
          IsReplay context.user_id first.id ledger
            (after_create context.user_id request.idempotency_key r))
        (sym undone) (after-IsReplay e)

  parsed-IsReplay :
      (valuations : Valuations) (parsed : Result MoneyError FiatAmount)
      → IsReplay context.user_id first.id ledger
          (create_parsed valuations context request parsed ledger)
  unfolding create_parsed
  parsed-IsReplay valuations (err e) = (refl, λ row ended. absurd cc)
  parsed-IsReplay valuations (ok amount) = elim (Bool-cases (eqb_ℤ amount.minor (pos 0))) [
    | inl e ↦ rw e (refl, λ row ended. absurd cc)
    | inr e ↦ rw e (valued-IsReplay _ _ _)
  ]

  -- Where the user has a row with the key of the request, deleted or not: createCash changes nothing,
  -- whatever else the request says, and a row that it answers is that one.
  pub create_cash-IsReplay :
      (valuations : Valuations)
      → ((create_cash valuations context request ledger).1 ≡ ledger)
        × ((row : LedgerRow)
            → (create_cash valuations context request ledger).0 ≡ ok row
            → find_transaction context.user_id first.id ledger.rows ≡ some row)
  unfolding create_cash
  create_cash-IsReplay valuations = parsed-IsReplay valuations _
