-- ===== src/Cash/Balance.antt =====
-- Cached balances and the ledger agree: the statements on `transactions` with the trigger
-- sync_cash_balance of supabase/migrations/0006_functions.sql.
use wallet_bot.Base.{
  ◌≡◌, refl, sym, ◌∙◌, ap, Bool, true, false, Bool-cases, inl, inr, List, [], ◌∷◌, ◌++◌, arith,
  if◌then◌else◌,
}
use wallet_bot.Base.Int.{ℤ, pos, ◌+ℤ◌, ◌-ℤ◌, int_laws}
use wallet_bot.Base.Text.{Text, eq_text, eq_text_sound}
use wallet_bot.Cash.{
  LedgerRow, CashAccountRow, Ledger, cash_effective_amount, each_account, amount_or_zero,
}
use wallet_bot.Cash.Statements.{
  counts_in, cash_sum, update_rows, delete_rows, with_total, recompute_cash_balance,
}
use wallet_bot.Cash.Sync.{share, IsCached, IsCached-cong, update-IsCached, delete-IsCached}

-- app.recompute_cash_balance and the trigger count alike.
counted-eq-share :
    (id : Text) (r : LedgerRow)
    → (if counts_in id r then amount_or_zero r.fiat_amount_minor else pos 0) ≡ share id r
unfolding cash_effective_amount
counted-eq-share id r = ground arith

zero_plus : (a : ℤ) → pos 0 +ℤ a ≡ a
unfolding ◌+ℤ◌
zero_plus a = ground arith

if_plus : (b : Bool) (x y : ℤ) → (if b then x +ℤ y else y) ≡ (if b then x else pos 0) +ℤ y
if_plus true x y = refl
if_plus false x y = sym (zero_plus y)

plus_assoc : (a b c : ℤ) → a +ℤ (b +ℤ c) ≡ a +ℤ b +ℤ c
plus_assoc a b c = omega int_laws

plus_comm : (a b : ℤ) → a +ℤ b ≡ b +ℤ a
plus_comm a b = omega int_laws

pub cash_sum-cons :
    (id : Text) (r : LedgerRow) (rows : List LedgerRow)
    → cash_sum id (r ∷ rows) ≡ share id r +ℤ cash_sum id rows
unfolding cash_sum
cash_sum-cons id r rows =
    if_plus (counts_in id r) (amount_or_zero r.fiat_amount_minor) (cash_sum id rows)
    ∙ ap (λ x. x +ℤ cash_sum id rows) (counted-eq-share id r)

pub cash_sum-append :
    (id : Text) (r : LedgerRow) (rows : List LedgerRow)
    → cash_sum id (rows ++ (r ∷ [])) ≡ cash_sum id rows +ℤ share id r
cash_sum-append id r [] = cash_sum-cons id r [] ∙ plus_comm (share id r) (cash_sum id [])
cash_sum-append id r (q ∷ rows) =
    cash_sum-cons id q (rows ++ (r ∷ []))
    ∙ ap (λ x. share id q +ℤ x) (cash_sum-append id r rows)
    ∙ plus_assoc (share id q) (cash_sum id rows) (share id r)
    ∙ ap (λ x. x +ℤ share id r) (sym (cash_sum-cons id q rows))

-- Every account's cached balance is the sum that the ledger justifies.
unfoldable pub IsBalanced : Ledger → Type 0
IsBalanced ledger = IsCached (λ i. cash_sum i ledger.rows) ledger.accounts

module _ (id : Text) (change : LedgerRow → LedgerRow) (accounts : List CashAccountRow) where
  cons-IsCached :
      (f : Text → ℤ) (r : LedgerRow) (rows : List LedgerRow) (some_accounts : List CashAccountRow)
      → IsCached (λ i. f i +ℤ cash_sum i (r ∷ rows)) some_accounts
      → IsCached (λ i. f i +ℤ share i r +ℤ cash_sum i rows) some_accounts
  cons-IsCached f r rows some_accounts h =
      IsCached-cong _ _ some_accounts
        (λ i.
          ap (λ x. f i +ℤ x) (cash_sum-cons i r rows)
          ∙ plus_assoc (f i) (share i r) (cash_sum i rows))
        h

  IsCached-cons :
      (f : Text → ℤ) (r : LedgerRow) (rows : List LedgerRow) (some_accounts : List CashAccountRow)
      → IsCached (λ i. f i +ℤ share i r +ℤ cash_sum i rows) some_accounts
      → IsCached (λ i. f i +ℤ cash_sum i (r ∷ rows)) some_accounts
  IsCached-cons f r rows some_accounts h =
      IsCached-cong _ _ some_accounts
        (λ i. sym (
          ap (λ x. f i +ℤ x) (cash_sum-cons i r rows)
          ∙ plus_assoc (f i) (share i r) (cash_sum i rows)))
        h

  pub update_rows-IsCached :
      (f : Text → ℤ) (rows : List LedgerRow)
      → IsCached (λ i. f i +ℤ cash_sum i rows) accounts
      → IsCached
          (λ i. f i +ℤ cash_sum i (update_rows id change rows accounts).0)
          (update_rows id change rows accounts).1
  unfolding update_rows
  update_rows-IsCached f [] h = h
  update_rows-IsCached f (r ∷ rows) h =
      let (rest, synced) = update_rows id change rows accounts in
      let below =
        update_rows-IsCached (λ i. f i +ℤ share i r) rows (cons-IsCached f r rows accounts h) in
      elim (Bool-cases (eq_text r.id id)) [
        | inr e ↦ rw e (IsCached-cons f r rest synced below)
        | inl e ↦ rw e (
            IsCached-cons f (change r) rest _ (
              IsCached-cong _ _ _
                (λ i. exchanged (f i) (share i r) (cash_sum i rest) (share i (change r)))
                (update-IsCached r (change r) _ synced below)))
      ]
    where
      exchanged : (a b c d : ℤ) → a +ℤ b +ℤ c -ℤ b +ℤ d ≡ a +ℤ d +ℤ c
      exchanged a b c d = omega int_laws

  pub delete_rows-IsCached :
      (f : Text → ℤ) (rows : List LedgerRow)
      → IsCached (λ i. f i +ℤ cash_sum i rows) accounts
      → IsCached
          (λ i. f i +ℤ cash_sum i (delete_rows id rows accounts).0)
          (delete_rows id rows accounts).1
  unfolding delete_rows
  delete_rows-IsCached f [] h = h
  delete_rows-IsCached f (r ∷ rows) h =
      let (rest, synced) = delete_rows id rows accounts in
      let below =
        delete_rows-IsCached (λ i. f i +ℤ share i r) rows (cons-IsCached f r rows accounts h) in
      elim (Bool-cases (eq_text r.id id)) [
        | inr e ↦ rw e (IsCached-cons f r rest synced below)
        | inl e ↦ rw e (
            IsCached-cong _ _ _ (λ i. removed (f i) (share i r) (cash_sum i rest))
              (delete-IsCached r _ synced below))
      ]
    where
      removed : (a b c : ℤ) → a +ℤ b +ℤ c -ℤ b ≡ a +ℤ c
      removed a b c = omega int_laws

with_total-cached :
    (id : Text) (f : Text → ℤ) (accounts : List CashAccountRow)
    → IsCached f accounts
    → each_account (with_total id (f id)) accounts ≡ accounts
with_total-cached id f [] h = refl
with_total-cached id f (a ∷ accounts) h = λ i. same i ∷ with_total-cached id f accounts h.1 i
  where
    same : with_total id (f id) a ≡ a
    same = elim (Bool-cases (eq_text a.id id)) [
      | inr e ↦ rw e refl
      | inl e ↦
          rw e
            (ap (λ b. record a { balance_minor = b }) (sym (h.0 ∙ ap f (eq_text_sound a.id id e))))
    ]

-- Where the cached balances agree with the ledger, recompute_cash_balance answers the sum of the
-- ledger and changes nothing.
pub recompute-IsBalanced :
    (id : Text) (ledger : Ledger)
    → IsBalanced ledger
    → recompute_cash_balance id ledger ≡ (cash_sum id ledger.rows, ledger)
unfolding recompute_cash_balance IsBalanced
recompute-IsBalanced id ledger h =
    ap (λ accounts. (cash_sum id ledger.rows, record ledger { accounts = accounts }))
      (with_total-cached id (λ i. cash_sum i ledger.rows) ledger.accounts h)
