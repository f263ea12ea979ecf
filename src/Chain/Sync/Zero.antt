-- ===== src/Chain/Sync/Zero.antt =====
-- Transfers of nothing: packages/core/src/services/chain-sync.ts and the constraint
-- transactions_crypto_sign of supabase/migrations/0004_ledger.sql.
use wallet_bot.Base.{ℕ, ◌≡◌, refl, true, false, List, ◌∷◌, Option, none, some, arith}
use wallet_bot.Base.Int.{ℤ, pos}
use wallet_bot.Base.Result.{Result, ok, err}
use wallet_bot.Base.Text.{Text}
use wallet_bot.Domain.Enums.{internal_error}
use wallet_bot.Money.FixedPoint.{MoneyError}
use wallet_bot.Money.Token.{TokenAmount}
use wallet_bot.Chain.Ledger.{
  TxDirection, incoming, outgoing, has_sign, TransactionRow, claim_event, has_event,
  insert_chain_transaction_if_new,
}
use wallet_bot.Chain.Tables.{ChainTransfer, AssetRow, WalletRow, Tables, Collaborators}
use wallet_bot.Chain.Ingest.{event_key, ingest_transfer, ingest_amount, record_movement}
use wallet_bot.Chain.Sync.{
  ScanResult, scan_known, scan_transfer, scan_transfers, find_asset, non_empty, scan_wallet,
  find_wallet, assets_of, no_counts, scan_failed, scan_page_size,
}

module _ {Cursor : Type 0} (calls : Collaborators Cursor) where
  no_direction : (d : TxDirection) (n : ℤ) → n ≡ pos 0 → has_sign d n ≡ false
  no_direction incoming n e = rw e refl
  no_direction outgoing n e = rw e refl

  no_sign :
      (key : Text) (row : TransactionRow) (s : Tables Cursor)
      → row.raw_amount ≡ pos 0
      → has_event key s.events ≡ false
      → record_movement calls key row s ≡ err internal_error
  unfolding claim_event insert_chain_transaction_if_new
  no_sign key row s nothing fresh =
      ground (arith, fresh, no_direction row.direction row.raw_amount nothing)

  amount_refused :
      (wallet : WalletRow Cursor) (asset : AssetRow) (t : ChainTransfer) (required : ℤ) (now : ℕ)
      (s : Tables Cursor) (r : Result MoneyError TokenAmount)
      → t.raw_amount ≡ pos 0
      → has_event (event_key calls wallet t) s.events ≡ false
      → ingest_amount calls wallet asset t required now s r ≡ err internal_error
  amount_refused wallet asset t required now s (err e) nothing fresh = refl
  amount_refused wallet asset t required now s (ok amount) nothing fresh =
      no_sign _ _ s nothing fresh

  known_refused :
      (wallet : WalletRow Cursor) (asset : AssetRow) (found : Option AssetRow) (now : ℕ)
      (t : ChainTransfer) (counts : ScanResult) (s : Tables Cursor)
      → found ≡ some asset
      → t.raw_amount ≡ pos 0
      → has_event (event_key calls wallet t) s.events ≡ false
      → scan_known calls wallet found now t counts s ≡ (err internal_error, s)
  unfolding ingest_transfer
  known_refused wallet asset none now t counts s h nothing fresh = absurd cc
  known_refused wallet asset (some a) now t counts s h nothing fresh =
      rw
        (amount_refused wallet a t (calls.required_confirmations wallet.network) now s _ nothing
          fresh)
        refl

  first_refused :
      (wallet : WalletRow Cursor) (assets : List AssetRow) (asset : AssetRow) (now : ℕ)
      (t : ChainTransfer) (ts : List ChainTransfer) (counts : ScanResult) (s : Tables Cursor)
      → t.succeeded ≡ true
      → find_asset calls (non_empty calls t.contract_address) assets ≡ some asset
      → t.raw_amount ≡ pos 0
      → has_event (event_key calls wallet t) s.events ≡ false
      → scan_transfers calls wallet assets now (t ∷ ts) counts s ≡ (err internal_error, s)
  unfolding scan_transfers scan_transfer
  first_refused wallet assets asset now t ts counts s done known nothing fresh = ground (
    arith,
    known_refused wallet asset (find_asset calls (non_empty calls t.contract_address) assets) now t
        counts s known nothing fresh,
  )

  -- A scan whose page starts with a transfer of nothing that succeeded, is of a known asset and was not
  -- seen before throws, records nothing of the whole page, and leaves the cursor where it was.
  pub zero_transfer_stops :
      (id : Text) (wallet : WalletRow Cursor) (asset : AssetRow) (t : ChainTransfer)
      (ts : List ChainTransfer) (end : Option Cursor) (now : ℕ) (s : Tables Cursor)
      → find_wallet calls id s.wallets ≡ some wallet
      → calls.list_transfers wallet.network wallet.address wallet.scan_cursor scan_page_size
        ≡ ok (record { transfers = t ∷ ts; cursor = end })
      → t.succeeded ≡ true
      → find_asset calls
          (non_empty calls t.contract_address)
          (assets_of calls wallet.network wallet.env s.assets)
        ≡ some asset
      → t.raw_amount ≡ pos 0
      → has_event (event_key calls wallet t) s.events ≡ false
      → scan_wallet calls id now s ≡ scan_failed calls wallet.id internal_error now s
  unfolding scan_wallet
  zero_transfer_stops id wallet asset t ts end now s found listed done known nothing fresh =
      rw
        (
          found,
          listed,
          first_refused wallet (assets_of calls wallet.network wallet.env s.assets) asset now t ts
              (no_counts calls) s done known nothing fresh,
        )
        refl
