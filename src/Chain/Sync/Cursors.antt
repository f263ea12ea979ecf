-- ===== src/Chain/Sync/Cursors.antt =====
-- When the cursor of a wallet moves on: packages/core/src/services/chain-sync.ts, scanWallet.
use wallet_bot.Base.{
  ℕ, ◌≡◌, refl, sym, ap, subst, ◌∙◌, Bool, true, List, [], ◌∷◌, Option, none, some, arith, All,
}
use wallet_bot.Base.Result.{Result, ok, err}
use wallet_bot.Base.Text.{Text}
use wallet_bot.Domain.Enums.{ErrorCode}
use wallet_bot.Money.FixedPoint.{MoneyError}
use wallet_bot.Money.Token.{TokenAmount}
use wallet_bot.Chain.Ledger.{TransactionRow, claim_event, insert_chain_transaction_if_new}
use wallet_bot.Chain.Tables.{
  ChainTransfer, AssetRow, WalletRow, Tables, Collaborators, TransferPage,
}
use wallet_bot.Chain.Ingest.{ingest_transfer, ingest_amount, record_movement}
use wallet_bot.Chain.Sync.{
  ScanResult, ingested, scan_known, scan_transfer, scan_transfers, then_scan, find_asset, non_empty,
  scan_done, scan_page, scan_found, scan_wallet, find_wallet, assets_of, no_counts, scan_page_size,
  mark_scan_success, mark_scan_failure,
}
use wallet_bot.Chain.Sync.Once.{tables_after}
use wallet_bot.Chain.Sync.Pages.{is_handled, AllHandled, scan_transfers-AllHandled}

module _ {Cursor : Type 0} (calls : Collaborators Cursor) where
  movement-wallets :
      (key : Text) (row : TransactionRow) (s : Tables Cursor)
      → (tables_after s (record_movement calls key row s)).wallets ≡ s.wallets
  unfolding claim_event insert_chain_transaction_if_new
  movement-wallets key row s = ground arith

  amount-wallets :
      (wallet : WalletRow Cursor) (asset : AssetRow) (t : ChainTransfer) (now : ℕ)
      (counts : ScanResult) (s : Tables Cursor) (r : Result MoneyError TokenAmount)
      → (tables_after s (
          ingest_amount calls wallet asset t
            (calls.required_confirmations wallet.network)
            now
            s
            r)).wallets
        ≡ s.wallets
  amount-wallets wallet asset t now counts s (err e) = refl
  amount-wallets wallet asset t now counts s (ok amount) = movement-wallets _ _ s

  ingested-wallets :
      (counts : ScanResult) (s : Tables Cursor) (r : Result ErrorCode (Bool × Tables Cursor))
      → (tables_after s r).wallets ≡ s.wallets
      → (ingested calls counts s r).1.wallets ≡ s.wallets
  ingested-wallets counts s (ok (b, s')) h = h
  ingested-wallets counts s (err e) h = h

  known-wallets :
      (wallet : WalletRow Cursor) (asset : Option AssetRow) (now : ℕ) (t : ChainTransfer)
      (counts : ScanResult) (s : Tables Cursor)
      → (scan_known calls wallet asset now t counts s).1.wallets ≡ s.wallets
  unfolding ingest_transfer
  known-wallets wallet none now t counts s = refl
  known-wallets wallet (some asset) now t counts s =
      ingested-wallets counts s
        (ingest_transfer calls wallet asset t (calls.required_confirmations wallet.network) now s)
        (amount-wallets wallet asset t now counts s _)

  transfer-wallets :
      (wallet : WalletRow Cursor) (assets : List AssetRow) (now : ℕ) (t : ChainTransfer)
      (counts : ScanResult) (s : Tables Cursor)
      → (scan_transfer calls wallet assets now t counts s).1.wallets ≡ s.wallets
  unfolding scan_transfer
  transfer-wallets wallet assets now t counts s = ground (
    arith,
    known-wallets wallet (find_asset calls (non_empty calls t.contract_address) assets) now t counts
        s,
  )

  then-wallets :
      (rest : ScanResult → Tables Cursor → Result ErrorCode ScanResult × Tables Cursor)
      (r : Result ErrorCode ScanResult × Tables Cursor) (ws : List (WalletRow Cursor))
      → r.1.wallets ≡ ws
      → ((c : ScanResult) (s : Tables Cursor) → (rest c s).1.wallets ≡ s.wallets)
      → (then_scan calls rest r).1.wallets ≡ ws
  then-wallets rest (ok c, s) ws h keeps = keeps c s ∙ h
  then-wallets rest (err e, s) ws h keeps = h

  scan_transfers-wallets :
      (wallet : WalletRow Cursor) (assets : List AssetRow) (now : ℕ) (ts : List ChainTransfer)
      (counts : ScanResult) (s : Tables Cursor)
      → (scan_transfers calls wallet assets now ts counts s).1.wallets ≡ s.wallets
  unfolding scan_transfers
  scan_transfers-wallets wallet assets now [] counts s = refl
  scan_transfers-wallets wallet assets now (t ∷ ts) counts s =
      then-wallets _ (scan_transfer calls wallet assets now t counts s) s.wallets
        (transfer-wallets wallet assets now t counts s)
        (λ c s'. scan_transfers-wallets wallet assets now ts c s')

  abbrev pub cursors : List (WalletRow Cursor) → List (Option Cursor)
  cursors [] = []
  cursors (w ∷ wallets) = w.scan_cursor ∷ cursors wallets

  failure-cursors :
      (id : Text) (e : ErrorCode) (now : ℕ) (ws : List (WalletRow Cursor))
      → cursors (mark_scan_failure calls id e now ws) ≡ cursors ws
  unfolding mark_scan_failure
  failure-cursors id e now [] = refl
  failure-cursors id e now (w ∷ ws) = ground (arith, failure-cursors id e now ws)

  abbrev pub IsScanned :
      WalletRow Cursor
      → TransferPage Cursor
      → ℕ
      → Tables Cursor
      → Result ErrorCode ScanResult × Tables Cursor
      → Type 0
  IsScanned wallet page now s (ok counts, s') =
      All
        (λ t.
          is_handled calls wallet (assets_of calls wallet.network wallet.env s.assets) s' t ≡ true)
        page.transfers
      × (s'.wallets ≡ mark_scan_success calls wallet.id page.cursor now s.wallets)
  IsScanned wallet page now s (err e, s') = cursors s'.wallets ≡ cursors s.wallets

  done-IsScanned :
      (wallet : WalletRow Cursor) (page : TransferPage Cursor) (now : ℕ) (s : Tables Cursor)
      (r : Result ErrorCode ScanResult × Tables Cursor)
      → r.1.wallets ≡ s.wallets
      → AllHandled calls wallet
          (assets_of calls wallet.network wallet.env s.assets)
          now
          page.transfers
          r
      → IsScanned wallet page now s (scan_done calls wallet.id page.cursor now r)
  done-IsScanned wallet page now s (ok counts, s') e h =
      (h, ap (mark_scan_success calls wallet.id page.cursor now) e)
  done-IsScanned wallet page now s (err x, s') e h =
      failure-cursors wallet.id x now s'.wallets ∙ ap cursors e

  scanned :
      (wallet : WalletRow Cursor) (page : TransferPage Cursor) (now : ℕ) (s : Tables Cursor)
      → IsScanned wallet page now s (scan_page calls wallet now s (ok page))
  scanned wallet page now s =
      done-IsScanned wallet page now s
        (scan_transfers calls wallet (assets_of calls wallet.network wallet.env s.assets) now
          page.transfers (no_counts calls) s)
        (scan_transfers-wallets wallet _ now page.transfers (no_counts calls) s)
        (scan_transfers-AllHandled calls wallet _ now page.transfers (no_counts calls) s)

  -- What a scan of a wallet gives by the provider's answer: a page, or an error.
  abbrev pub IsAnswered :
      WalletRow Cursor
      → ℕ
      → Tables Cursor
      → Result ErrorCode (TransferPage Cursor)
      → Result ErrorCode ScanResult × Tables Cursor
      → Type 0
  IsAnswered wallet now s (ok page) r = IsScanned wallet page now s r
  IsAnswered wallet now s (err e) r =
      (r.0 ≡ err e)
      × (cursors r.1.wallets ≡ cursors s.wallets)
      × (record r.1 { wallets = s.wallets } ≡ s)

  answered :
      (wallet : WalletRow Cursor) (now : ℕ) (s : Tables Cursor)
      (answer : Result ErrorCode (TransferPage Cursor))
      → IsAnswered wallet now s answer (scan_page calls wallet now s answer)
  answered wallet now s (ok page) = scanned wallet page now s
  answered wallet now s (err e) = (refl, failure-cursors wallet.id e now s.wallets, refl)

  pub scan_wallet-IsAnswered :
      (id : Text) (wallet : WalletRow Cursor) (now : ℕ) (s : Tables Cursor)
      → find_wallet calls id s.wallets ≡ some wallet
      → IsAnswered wallet now s
          (calls.list_transfers wallet.network wallet.address wallet.scan_cursor scan_page_size)
          (scan_wallet calls id now s)
  unfolding scan_wallet
  scan_wallet-IsAnswered id wallet now s found =
      subst
        (λ o.
          IsAnswered wallet now s
            (calls.list_transfers wallet.network wallet.address wallet.scan_cursor scan_page_size)
            (scan_found calls o now s))
        (sym found)
        (answered wallet now s
          (calls.list_transfers wallet.network wallet.address wallet.scan_cursor scan_page_size))
