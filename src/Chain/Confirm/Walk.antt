-- ===== src/Chain/Confirm/Walk.antt =====
-- Which rows are walked to their end: packages/core/src/services/chain-sync.ts, trackConfirmations.
use wallet_bot.Base.{ℕ, zero, suc, ◌≡◌, refl, sym, subst, [], ◌∷◌, arith, take, All}
use wallet_bot.Base.Result.{ok}
use wallet_bot.Domain.Enums.{TxStatus}
use wallet_bot.Chain.Ledger.{
  TransactionRow, Transactions, in_flight, list_in_flight_chain_transactions,
}
use wallet_bot.Chain.Tables.{Tables, Collaborators}
use wallet_bot.Chain.Confirm.{track_rows, track_confirmations}

none_in_flight :
    (older_than now : ℕ) (rows : Transactions)
    → All (λ r. r.status ≡ TxStatus.pending) rows
    → in_flight older_than now rows ≡ []
none_in_flight older_than now [] h = refl
none_in_flight older_than now (r ∷ rows) h = ground (arith, none_in_flight older_than now rows h.1)

take-nil : (n : ℕ) → take {A = TransactionRow} n [] ≡ []
take-nil zero = refl
take-nil (suc n) = refl

module _ {Cursor : Type 0} (calls : Collaborators Cursor) where
  -- Rows that are pending, as those of simulated transfers are, stay so: the walk to confirmation
  -- changes nothing, however late it comes.
  pub pending_stays :
      (limit older_than now : ℕ) (s : Tables Cursor)
      → All (λ r. r.status ≡ TxStatus.pending) s.transactions
      → track_confirmations calls limit older_than now s ≡ (ok tt, s)
  unfolding track_confirmations list_in_flight_chain_transactions
  pending_stays limit older_than now s h =
      subst (λ rows. track_rows calls (take limit rows) now s ≡ (ok tt, s))
        (sym (none_in_flight older_than now s.transactions h))
        (subst (λ rows. track_rows calls rows now s ≡ (ok tt, s)) (sym (take-nil limit)) refl)
