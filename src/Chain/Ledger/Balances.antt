-- ===== src/Chain/Ledger/Balances.antt =====
-- Balances and chain rows agree: packages/db/src/repositories/transactions.ts and wallets.ts.
use wallet_bot.Base.{
  ◌≡◌, refl, sym, subst, Bool, true, false, [], ◌∷◌, ◌++◌, ◌&&◌, ◌||◌, not, arith, Bool-cases, inl,
  inr, if◌then◌else◌,
}
use wallet_bot.Base.Int.{ℤ, pos, ◌+ℤ◌, int_laws}
use wallet_bot.Base.Text.{Text, eq_text, eq_text_sound, eq_text_refl}
use wallet_bot.Chain.Ledger.{
  TransactionRow, Transactions, TxSource, is_same_movement, has_movement, BalanceRow, Balances,
  is_balance_of, raw_balance, at_least_zero, adjust_wallet_balance,
}

-- No two rows are of the same movement.
abbrev pub is_repeated : TransactionRow → Transactions → Bool
is_repeated r [] = false
is_repeated r (q ∷ rows) = is_same_movement q r || is_repeated r rows

abbrev pub distinct : Transactions → Bool
distinct [] = true
distinct (r ∷ rows) = not (is_repeated r rows) && distinct rows

is_repeated-append :
    (r q : TransactionRow) (rows : Transactions)
    → is_repeated r (rows ++ (q ∷ [])) ≡ (is_repeated r rows || is_same_movement q r)
is_repeated-append r q [] = ground arith
is_repeated-append r q (p ∷ rows) = ground (arith, is_repeated-append r q rows)

pub distinct-append :
    (q : TransactionRow) (rows : Transactions)
    → distinct rows ≡ true
    → has_movement q rows ≡ false
    → distinct (rows ++ (q ∷ [])) ≡ true
distinct-append q [] h fresh = refl
distinct-append q (r ∷ rows) h fresh =
    ground (arith, distinct-append q rows, is_repeated-append r q rows)

-- What the chain rows of a wallet and an asset add up to, where no sum goes below zero.
abbrev is_chain : TxSource → Bool
is_chain TxSource.chain = true
is_chain _ = false

abbrev pub counts_for : Text → Text → TransactionRow → Bool
counts_for wallet_id asset_id r =
    is_chain r.source && eq_text r.wallet_id wallet_id && eq_text r.asset_id asset_id

abbrev pub running : Text → Text → ℤ → Transactions → ℤ
running wallet_id asset_id b [] = b
running wallet_id asset_id b (r ∷ rows) =
    running wallet_id asset_id
      (if counts_for wallet_id asset_id r then at_least_zero (b +ℤ r.raw_amount) else b) rows

pub running-append :
    (w a : Text) (b : ℤ) (q : TransactionRow) (rows : Transactions)
    → running w a b (rows ++ (q ∷ [])) ≡ (
        if counts_for w a q
        then at_least_zero (running w a b rows +ℤ q.raw_amount)
        else running w a b rows)
running-append w a b q [] = refl
running-append w a b q (r ∷ rows) =
    running-append w a (if counts_for w a r then at_least_zero (b +ℤ r.raw_amount) else b) q rows

zero_plus : (n : ℤ) → pos 0 +ℤ n ≡ n
zero_plus n = grind int_laws

adjusted_same :
    (w a source : Text) (d : ℤ) (rows : Balances)
    → raw_balance w a (adjust_wallet_balance w a d source rows)
      ≡ at_least_zero (raw_balance w a rows +ℤ d)
unfolding adjust_wallet_balance
adjusted_same w a source d [] = ground (arith, eq_text_refl w, eq_text_refl a, zero_plus d)
adjusted_same w a source d (b ∷ rows) = ground (arith, adjusted_same w a source d rows)

eq_text_join : (x y z : Text) → eq_text x y ≡ true → eq_text x z ≡ true → eq_text y z ≡ true
eq_text_join x y z h h' = subst (λ u. eq_text u z ≡ true) (eq_text_sound x y h) h'

same_row :
    (w a w' a' : Text) (b : BalanceRow)
    → is_balance_of w' a' b ≡ true
    → is_balance_of w a b ≡ true
    → (eq_text w' w && eq_text a' a) ≡ true
same_row w a w' a' b h h' =
    ground (arith, eq_text_join b.wallet_id w' w, eq_text_join b.asset_id a' a)

adjusted_other :
    (w a w' a' source : Text) (d : ℤ) (rows : Balances)
    → (eq_text w' w && eq_text a' a) ≡ false
    → raw_balance w a (adjust_wallet_balance w' a' d source rows) ≡ raw_balance w a rows
unfolding adjust_wallet_balance
adjusted_other w a w' a' source d [] h = ground arith
adjusted_other w a w' a' source d (b ∷ rows) h =
    ground (arith, adjusted_other w a w' a' source d rows, same_row w a w' a' b)

adjusted_equal :
    (w a w' a' source : Text) (d : ℤ) (rows : Balances)
    → w' ≡ w
    → a' ≡ a
    → raw_balance w a (adjust_wallet_balance w' a' d source rows)
      ≡ at_least_zero (raw_balance w a rows +ℤ d)
adjusted_equal w a w' a' source d rows e f =
    subst
      (λ u.
        raw_balance w a (adjust_wallet_balance u a' d source rows)
        ≡ at_least_zero (raw_balance w a rows +ℤ d))
      (sym e)
      (subst
        (λ u.
          raw_balance w a (adjust_wallet_balance w u d source rows)
          ≡ at_least_zero (raw_balance w a rows +ℤ d))
        (sym f) (adjusted_same w a source d rows))

pub raw_balance-adjust_wallet_balance :
    (w a w' a' source : Text) (d : ℤ) (rows : Balances)
    → raw_balance w a (adjust_wallet_balance w' a' d source rows) ≡ (
        if eq_text w' w && eq_text a' a
        then at_least_zero (raw_balance w a rows +ℤ d)
        else raw_balance w a rows)
raw_balance-adjust_wallet_balance w a w' a' source d rows =
    elim (Bool-cases (eq_text w' w && eq_text a' a)) [
      | inl e ↦ rw e (
          adjusted_equal w a w' a' source d rows (eq_text_sound w' w (ground arith))
            (eq_text_sound a' a (ground arith)))
      | inr e ↦ rw e (adjusted_other w a w' a' source d rows e)
    ]
