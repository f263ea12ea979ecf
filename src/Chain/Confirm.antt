-- ===== src/Chain/Confirm.antt =====
-- packages/core/src/services/chain-sync.ts, trackConfirmations and reconcileBalances.
pub mod Walk
use wallet_bot.Base.{
  ℕ, ◌+◌, Bool, true, false, List, [], ◌∷◌, Option, none, some, ◌&&◌, ◌||◌, ◌==◌, not,
  if◌then◌else◌,
}
use wallet_bot.Base.Int.{ℤ, pos, leb_ℤ}
use wallet_bot.Base.Result.{Result, ok, err, ◌>>=◌}
use wallet_bot.Base.Text.{Text, codes, eq_text}
use wallet_bot.Domain.Enums.{TxStatus, ErrorCode, wallet_not_found, Network, NetworkEnv}
use wallet_bot.Domain.StateMachines.{tx_index}
use wallet_bot.Util.Keys.{notification_key}
use wallet_bot.Chain.Ledger.{
  TransactionRow, Transactions, NotificationRow, enqueue_notification, Balances,
  upsert_wallet_balance, list_in_flight_chain_transactions, update_chain_transaction_status,
}
use wallet_bot.Chain.Tables.{
  Tables, Collaborators, ChainTransactionStatus, TokenBalance, AssetRow, WalletRow,
}
use wallet_bot.Chain.Sync.{find_wallet, assets_of, non_empty}

abbrev starts_with : Text → Text → Bool
starts_with [] s = true
starts_with (c ∷ prefix) [] = false
starts_with (c ∷ prefix) (d ∷ s) = c == d && starts_with prefix s

-- A transaction that was not handed to a chain.
abbrev pub is_simulated : Text → Bool
is_simulated hash = starts_with (codes "sim-") hash || starts_with (codes "mock-") hash

abbrev pub next_status : ChainTransactionStatus → ℤ → TxStatus
next_status status required =
    if not status.succeeded
    then TxStatus.failed
    else if leb_ℤ required status.confirmations
    then TxStatus.confirmed
    else TxStatus.confirming

module _ {Cursor : Type 0} (calls : Collaborators Cursor) where
  abbrev notice : Text → TransactionRow → List NotificationRow → List NotificationRow
  notice type row rows =
      enqueue_notification
        (record {
          user_id = row.user_id;
          type = type;
          dedupe_key = notification_key type row.id none;
        })
        rows

  abbrev is_confirmed : TxStatus → Bool
  is_confirmed status = tx_index status == tx_index TxStatus.confirmed

  abbrev notices : TransactionRow → TxStatus → List NotificationRow → List NotificationRow
  notices row next rows =
      if is_confirmed next && not (is_confirmed row.status)
      then notice (codes "crypto_confirmed") row rows
      else if tx_index next == tx_index TxStatus.failed
      then notice (codes "crypto_failed") row rows
      else rows

  abbrev after_update :
      TransactionRow
      → TxStatus
      → Tables Cursor
      → Result ErrorCode (Option TransactionRow × Transactions)
      → Tables Cursor
  after_update row next s (err e) = s
  after_update row next s (ok (none, rows)) = record s { transactions = rows }
  after_update row next s (ok (some updated, rows)) = record s {
    transactions = rows;
    notifications = notices row next s.notifications;
  }

  abbrev required_of : TransactionRow → Option ℤ → ℤ
  required_of row none = calls.required_confirmations row.network
  required_of row (some n) = n

  -- What is done with the provider's answer; an error of it, or of the transaction, is only logged.
  abbrev pub track_status :
      TransactionRow → ℕ → Tables Cursor → Result ErrorCode ChainTransactionStatus → Tables Cursor
  track_status row now s (err e) = s
  track_status row now s (ok status) =
      let next = next_status status (required_of row row.required_confirmations) in
      if not status.found
      then s
      else after_update row next s (
          update_chain_transaction_status row.id next (some status.confirmations)
            status.block_number now s.transactions)

  abbrev or_one : Option ℤ → ℤ
  or_one none = pos 1
  or_one (some n) = n

  abbrev simulated_rows :
      Tables Cursor
      → Result ErrorCode (Option TransactionRow × Transactions)
      → Result ErrorCode (Tables Cursor)
  simulated_rows s (err e) = err e
  simulated_rows s (ok (found, rows)) = ok (record s { transactions = rows })

  -- One round of the loop. The update of a simulated row is not in the `try`.
  abbrev pub track_row : TransactionRow → ℕ → Tables Cursor → Result ErrorCode (Tables Cursor)
  track_row row now s =
      if is_simulated row.tx_hash
      then simulated_rows s (
          update_chain_transaction_status row.id TxStatus.confirmed
            (some (or_one row.required_confirmations)) none now s.transactions)
      else ok (track_status row now s (calls.get_transaction_status row.network row.tx_hash))

  abbrev then_track :
      (Tables Cursor → Result ErrorCode (Unit {0}) × Tables Cursor)
      → Tables Cursor
      → Result ErrorCode (Tables Cursor)
      → Result ErrorCode (Unit {0}) × Tables Cursor
  then_track rest s (ok s') = rest s'
  then_track rest s (err e) = (err e, s)

  abbrev pub track_rows :
      Transactions → ℕ → Tables Cursor → Result ErrorCode (Unit {0}) × Tables Cursor
  track_rows [] now s = (ok tt, s)
  track_rows (row ∷ rows) now s =
      then_track (λ s'. track_rows rows now s') s
        (if eq_text row.tx_hash [] then ok s else track_row row now s)

  -- The counters of the answer are left out.
  unfoldable pub track_confirmations :
      ℕ → ℕ → ℕ → Tables Cursor → Result ErrorCode (Unit {0}) × Tables Cursor
  track_confirmations limit older_than now s =
      track_rows (list_in_flight_chain_transactions limit older_than now s.transactions) now s

  abbrev active : List AssetRow → List AssetRow
  active [] = []
  active (a ∷ assets) = let rest = active assets in if a.is_active then a ∷ rest else rest

  abbrev has_contract : Option Text → Option Text → Bool
  has_contract (some c) (some d) = eq_text c d
  has_contract none none = true
  has_contract _ _ = false

  -- The first asset with the contract of the balance, or the first one without a contract.
  abbrev balance_asset : Option Text → List AssetRow → Option AssetRow
  balance_asset contract [] = none
  balance_asset contract (a ∷ assets) =
      if has_contract contract a.contract_address then some a else balance_asset contract assets

  abbrev set_balance : Text → ℤ → Option AssetRow → Balances → Balances
  set_balance wallet_id raw none balances = balances
  set_balance wallet_id raw (some asset) balances =
      upsert_wallet_balance wallet_id asset.id raw (codes "reconcile") balances

  abbrev set_balances : Text → List AssetRow → List TokenBalance → Balances → Balances
  set_balances wallet_id assets [] balances = balances
  set_balances wallet_id assets (b ∷ found) balances = set_balances wallet_id assets found (
      set_balance wallet_id b.raw_amount (balance_asset (non_empty calls b.contract_address) assets)
        balances)

  abbrev reconciled :
      WalletRow Cursor
      → List AssetRow
      → Tables Cursor
      → Result ErrorCode (List TokenBalance)
      → Result ErrorCode (Tables Cursor)
  reconciled wallet assets s (err e) = err e
  reconciled wallet assets s (ok found) =
      ok (record s { balances = set_balances wallet.id assets found s.balances })

  abbrev reconcile_found :
      Option (WalletRow Cursor) → Tables Cursor → Result ErrorCode (Tables Cursor)
  reconcile_found none s = err wallet_not_found
  reconcile_found (some wallet) s =
      let assets = active (assets_of calls wallet.network wallet.env s.assets) in
      reconciled wallet assets s (calls.get_token_balances wallet.network wallet.address assets)

  unfoldable pub reconcile_balances : Text → Tables Cursor → Result ErrorCode (Tables Cursor)
  reconcile_balances wallet_id s = reconcile_found (find_wallet calls wallet_id s.wallets) s
