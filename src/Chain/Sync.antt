-- ===== src/Chain/Sync.antt =====
-- packages/core/src/services/chain-sync.ts, scanWallet. Its transactions are steps: what they did
-- before an error stays.
pub mod Once
pub mod Zero
pub mod Cursors
pub mod Pages
pub mod Agree
use wallet_bot.Base.{
  ℕ, ◌+◌, Bool, true, false, List, [], ◌∷◌, Option, none, some, ltb, leb, ◌&&◌, ◌||◌, not,
  if◌then◌else◌, min,
}
use wallet_bot.Base.Int.{ℤ, pos, neg_ℤ, leb_ℤ}
use wallet_bot.Base.Result.{Result, ok, err, ◌>>=◌}
use wallet_bot.Base.Text.{Text, codes, eq_text}
use wallet_bot.Domain.Enums.{
  Network, NetworkEnv, same_network, same_env, TxStatus, ErrorCode, internal_error,
  wallet_not_found,
}
use wallet_bot.Money.FixedPoint.{MoneyError, half_even}
use wallet_bot.Money.Decimal.{RawInteger, big, to_string}
use wallet_bot.Money.Fiat.{FiatAmount}
use wallet_bot.Money.Token.{AssetMeta, TokenAmount, from_raw}
use wallet_bot.Money.Rate.{AssetPrice, value}
use wallet_bot.Util.Keys.{asset_key, chain_event_key, notification_key}
use wallet_bot.Chain.Ledger.{
  TxDirection, incoming, outgoing, TxSource, TransactionRow, Transactions, claim_event,
  insert_chain_transaction_if_new, Balances, adjust_wallet_balance, upsert_wallet_balance,
  NotificationRow, enqueue_notification, list_in_flight_chain_transactions,
  update_chain_transaction_status,
}
use wallet_bot.Chain.Tables.{
  AssetRow, ChainTransactionStatus, ChainTransfer, Collaborators, Tables, TokenBalance,
  TransferPage, WalletRow,
}
use wallet_bot.Chain.Ingest.{ingest_transfer}

-- The counters of a scan, less the number of transfers seen and whether the cursor moved.
pub record ScanResult : Type 0 where
  pub ingested : ℕ
  pub skipped_unknown_asset : ℕ
  pub skipped_duplicate : ℕ

abbrev pub scan_page_size : ℕ
scan_page_size = 50

module _ {Cursor : Type 0} (calls : Collaborators Cursor) where
  -- An empty text is no address.
  abbrev pub non_empty : Option Text → Option Text
  non_empty none = none
  non_empty (some []) = none
  non_empty (some (c ∷ s)) = some (c ∷ s)

  abbrev same_contract : Option Text → Option Text → Bool
  same_contract none none = true
  same_contract (some a) (some b) = eq_text a b
  same_contract _ _ = false

  abbrev later : Option AssetRow → Option AssetRow → Option AssetRow
  later a none = a
  later a (some b) = some b

  -- The last asset with the contract, or the last one without a contract.
  abbrev pub find_asset : Option Text → List AssetRow → Option AssetRow
  find_asset contract [] = none
  find_asset contract (a ∷ assets) =
      let rest = find_asset contract assets in
      if same_contract (non_empty a.contract_address) contract then later (some a) rest else rest

  abbrev pub assets_of : Network → NetworkEnv → List AssetRow → List AssetRow
  assets_of network env [] = []
  assets_of network env (a ∷ assets) =
      let rest = assets_of network env assets in
      if same_network a.network network && same_env a.env env then a ∷ rest else rest

  abbrev pub no_counts : ScanResult
  no_counts = record { ingested = 0; skipped_unknown_asset = 0; skipped_duplicate = 0 }

  abbrev pub count_ingest : Bool → ScanResult → ScanResult
  count_ingest true counts = record counts { ingested = counts.ingested + 1 }
  count_ingest false counts = record counts { skipped_duplicate = counts.skipped_duplicate + 1 }

  abbrev pub ingested :
      ScanResult
      → Tables Cursor
      → Result ErrorCode (Bool × Tables Cursor)
      → Result ErrorCode ScanResult × Tables Cursor
  ingested counts s (ok (b, s')) = (ok (count_ingest b counts), s')
  ingested counts s (err e) = (err e, s)

  abbrev pub scan_known :
      WalletRow Cursor
      → Option AssetRow
      → ℕ
      → ChainTransfer
      → ScanResult
      → Tables Cursor
      → Result ErrorCode ScanResult × Tables Cursor
  scan_known wallet none now t counts s =
      (ok (record counts { skipped_unknown_asset = counts.skipped_unknown_asset + 1 }), s)
  scan_known wallet (some asset) now t counts s =
      ingested counts s
        (ingest_transfer calls wallet asset t (calls.required_confirmations wallet.network) now s)

  -- One round of the loop.
  unfoldable pub scan_transfer :
      WalletRow Cursor
      → List AssetRow
      → ℕ
      → ChainTransfer
      → ScanResult
      → Tables Cursor
      → Result ErrorCode ScanResult × Tables Cursor
  scan_transfer wallet assets now t counts s =
      if not t.succeeded
      then (ok counts, s)
      else scan_known wallet (find_asset (non_empty t.contract_address) assets) now t counts s

  abbrev pub then_scan :
      (ScanResult → Tables Cursor → Result ErrorCode ScanResult × Tables Cursor)
      → Result ErrorCode ScanResult × Tables Cursor
      → Result ErrorCode ScanResult × Tables Cursor
  then_scan rest (ok counts, s) = rest counts s
  then_scan rest (err e, s) = (err e, s)

  -- The loop over a page. What it did before an error stays.
  unfoldable pub scan_transfers :
      WalletRow Cursor
      → List AssetRow
      → ℕ
      → List ChainTransfer
      → ScanResult
      → Tables Cursor
      → Result ErrorCode ScanResult × Tables Cursor
  scan_transfers wallet assets now [] counts s = (ok counts, s)
  scan_transfers wallet assets now (t ∷ transfers) counts s =
      then_scan (λ counts' s'. scan_transfers wallet assets now transfers counts' s')
        (scan_transfer wallet assets now t counts s)

  abbrev pub find_wallet : Text → List (WalletRow Cursor) → Option (WalletRow Cursor)
  find_wallet id [] = none
  find_wallet id (w ∷ wallets) = if eq_text w.id id then some w else find_wallet id wallets

  unfoldable pub mark_scan_success :
      Text → Option Cursor → ℕ → List (WalletRow Cursor) → List (WalletRow Cursor)
  mark_scan_success id cursor now [] = []
  mark_scan_success id cursor now (w ∷ wallets) =
      let rest = mark_scan_success id cursor now wallets in
      if eq_text w.id id
      then record w {
        last_scanned_at = some now;
        scan_cursor = cursor;
        last_scan_error = none;
        consecutive_failures = 0;
      }
        ∷ rest
      else w ∷ rest

  unfoldable pub mark_scan_failure :
      Text → ErrorCode → ℕ → List (WalletRow Cursor) → List (WalletRow Cursor)
  mark_scan_failure id error now [] = []
  mark_scan_failure id error now (w ∷ wallets) =
      let rest = mark_scan_failure id error now wallets in
      if eq_text w.id id
      then record w {
        last_scanned_at = some now;
        last_scan_error = some error;
        consecutive_failures = min (w.consecutive_failures + 1) 1000;
      }
        ∷ rest
      else w ∷ rest

  abbrev pub scan_failed :
      Text → ErrorCode → ℕ → Tables Cursor → Result ErrorCode ScanResult × Tables Cursor
  scan_failed id error now s =
      (err error, record s { wallets = mark_scan_failure id error now s.wallets })

  abbrev pub scan_done :
      Text
      → Option Cursor
      → ℕ
      → Result ErrorCode ScanResult × Tables Cursor
      → Result ErrorCode ScanResult × Tables Cursor
  scan_done id cursor now (ok counts, s) =
      (ok counts, record s { wallets = mark_scan_success id cursor now s.wallets })
  scan_done id cursor now (err error, s) = scan_failed id error now s

  abbrev pub scan_page :
      WalletRow Cursor
      → ℕ
      → Tables Cursor
      → Result ErrorCode (TransferPage Cursor)
      → Result ErrorCode ScanResult × Tables Cursor
  scan_page wallet now s (err error) = scan_failed wallet.id error now s
  scan_page wallet now s (ok page) = scan_done wallet.id page.cursor now (
      scan_transfers wallet (assets_of wallet.network wallet.env s.assets) now page.transfers
        no_counts s)

  abbrev pub scan_found :
      Option (WalletRow Cursor) → ℕ → Tables Cursor → Result ErrorCode ScanResult × Tables Cursor
  scan_found none now s = (err wallet_not_found, s)
  scan_found (some wallet) now s =
      scan_page wallet now s
        (calls.list_transfers wallet.network wallet.address wallet.scan_cursor scan_page_size)

  unfoldable pub scan_wallet :
      Text → ℕ → Tables Cursor → Result ErrorCode ScanResult × Tables Cursor
  scan_wallet wallet_id now s = scan_found (find_wallet wallet_id s.wallets) now s
