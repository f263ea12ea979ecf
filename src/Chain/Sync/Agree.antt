-- ===== src/Chain/Sync/Agree.antt =====
-- What the synchronisation keeps of the ledger: packages/core/src/services/chain-sync.ts.
use wallet_bot.Base.{
  ℕ, ◌≡◌, refl, ◌∙◌, Bool, true, false, List, [], ◌∷◌, ◌++◌, Option, none, some, ◌&&◌, not, arith,
  Bool-cases, inl, inr, if◌then◌else◌,
}
use wallet_bot.Base.Int.{ℤ, pos}
use wallet_bot.Base.Result.{Result, ok, err}
use wallet_bot.Base.Text.{Text, codes}
use wallet_bot.Domain.Enums.{ErrorCode}
use wallet_bot.Money.FixedPoint.{MoneyError}
use wallet_bot.Money.Token.{TokenAmount}
use wallet_bot.Chain.Ledger.{
  TransactionRow, TxSource, claim_event, has_event, insert_chain_transaction_if_new, has_movement,
  has_sign, is_count, raw_balance,
}
use wallet_bot.Chain.Ledger.Balances.{
  distinct, distinct-append, running, running-append, raw_balance-adjust_wallet_balance,
}
use wallet_bot.Chain.Tables.{
  ChainTransfer, AssetRow, WalletRow, Tables, Collaborators, TransferPage,
}
use wallet_bot.Chain.Ingest.{record_movement, ingest_amount, ingest_transfer, after_insert}
use wallet_bot.Chain.Sync.{
  ScanResult, ingested, scan_known, scan_transfer, scan_transfers, then_scan, find_asset, non_empty,
  scan_done, scan_page, scan_found, scan_wallet, find_wallet, no_counts,
}

-- No movement has two rows, and each balance is what the chain rows of its wallet and its asset add
-- up to, in their order, where a sum below zero counts as zero.
pub record IsLedger {Cursor : Type 0} (s : Tables Cursor) : Type 0 where
  pub is_distinct : distinct s.transactions ≡ true
  pub agrees : (w a : Text) → raw_balance w a s.balances ≡ running w a (pos 0) s.transactions

-- A scan: the wallet, the time, and what the collaborators answer in it.
pub record Scan (Cursor : Type 0) : Type 0 where
  pub calls : Collaborators Cursor
  pub wallet_id : Text
  pub now : ℕ

if_both : {A : Type 0} (P : A → Type 0) (b : Bool) (x y : A) → P x → P y → P (if b then x else y)
if_both P true x y hx hy = hx
if_both P false x y hx hy = hy

module _ {Cursor : Type 0} where
  abbrev pub AfterIs :
      (Tables Cursor → Type 0) → Tables Cursor → Result ErrorCode (Bool × Tables Cursor) → Type 0
  AfterIs P s (ok (b, s')) = P s'
  AfterIs P s (err e) = P s

  inserted :
      (calls : Collaborators Cursor) (events : List Text) (row : TransactionRow) (s : Tables Cursor)
      → row.source ≡ TxSource.chain
      → has_movement row s.transactions ≡ false
      → IsLedger s
      → IsLedger (after_insert calls events s (some row, s.transactions ++ (row ∷ []))).1
  inserted calls events row s is_chain fresh l = record {
    is_distinct = distinct-append row s.transactions l.is_distinct fresh;
    agrees = λ w a.
        raw_balance-adjust_wallet_balance w a row.wallet_id row.asset_id (codes "chain-event")
          row.raw_amount s.balances
        ∙ ground (arith, l.agrees w a, running-append w a (pos 0) row s.transactions);
  }

  movement-IsLedger :
      (calls : Collaborators Cursor) (key : Text) (row : TransactionRow) (s : Tables Cursor)
      → row.source ≡ TxSource.chain
      → IsLedger s
      → AfterIs IsLedger s (record_movement calls key row s)
  unfolding claim_event insert_chain_transaction_if_new
  movement-IsLedger calls key row s is_chain l = elim (Bool-cases (has_event key s.events)) [
    | inl e ↦ rw e l
    | inr e ↦
        rw e
          (elim (Bool-cases
            (not (has_sign row.direction row.raw_amount && is_count row.confirmations))) [
              | inl f ↦ rw f l
              | inr f ↦ rw f (elim (Bool-cases (has_movement row s.transactions)) [
                | inl g ↦ rw g (record { is_distinct = l.is_distinct; agrees = l.agrees })
                | inr g ↦ rw g (inserted calls (key ∷ s.events) row s is_chain g l)
              ])
            ])
  ]

  amount-IsLedger :
      (calls : Collaborators Cursor) (wallet : WalletRow Cursor) (asset : AssetRow)
      (t : ChainTransfer) (required : ℤ) (now : ℕ) (s : Tables Cursor)
      (r : Result MoneyError TokenAmount)
      → IsLedger s
      → AfterIs IsLedger s (ingest_amount calls wallet asset t required now s r)
  amount-IsLedger calls wallet asset t required now s (err e) l = l
  amount-IsLedger calls wallet asset t required now s (ok amount) l =
      movement-IsLedger calls _ _ s refl l

  pub ingest_transfer-IsLedger :
      (calls : Collaborators Cursor) (wallet : WalletRow Cursor) (asset : AssetRow)
      (t : ChainTransfer) (required : ℤ) (now : ℕ) (s : Tables Cursor)
      → IsLedger s
      → AfterIs IsLedger s (ingest_transfer calls wallet asset t required now s)
  unfolding ingest_transfer
  ingest_transfer-IsLedger calls wallet asset t required now s l =
      amount-IsLedger calls wallet asset t required now s _ l

  counted-IsLedger :
      (calls : Collaborators Cursor) (counts : ScanResult) (s : Tables Cursor)
      (r : Result ErrorCode (Bool × Tables Cursor))
      → AfterIs IsLedger s r
      → IsLedger (ingested calls counts s r).1
  counted-IsLedger calls counts s (ok (b, s')) l = l
  counted-IsLedger calls counts s (err e) l = l

  known-IsLedger :
      (calls : Collaborators Cursor) (wallet : WalletRow Cursor) (asset : Option AssetRow) (now : ℕ)
      (t : ChainTransfer) (counts : ScanResult) (s : Tables Cursor)
      → IsLedger s
      → IsLedger (scan_known calls wallet asset now t counts s).1
  known-IsLedger calls wallet none now t counts s l = l
  known-IsLedger calls wallet (some asset) now t counts s l =
      counted-IsLedger calls counts s
        (ingest_transfer calls wallet asset t (calls.required_confirmations wallet.network) now s)
        (ingest_transfer-IsLedger calls wallet asset t _ now s l)

  scan_transfer-IsLedger :
      (calls : Collaborators Cursor) (wallet : WalletRow Cursor) (assets : List AssetRow) (now : ℕ)
      (t : ChainTransfer) (counts : ScanResult) (s : Tables Cursor)
      → IsLedger s
      → IsLedger (scan_transfer calls wallet assets now t counts s).1
  unfolding scan_transfer
  scan_transfer-IsLedger calls wallet assets now t counts s l =
      if_both (λ (r : Result ErrorCode ScanResult × Tables Cursor). IsLedger r.1) (not t.succeeded)
        _ _ l
        (known-IsLedger calls wallet (find_asset calls (non_empty calls t.contract_address) assets)
          now t counts s l)

  then-IsLedger :
      (calls : Collaborators Cursor)
      (rest : ScanResult → Tables Cursor → Result ErrorCode ScanResult × Tables Cursor)
      (r : Result ErrorCode ScanResult × Tables Cursor)
      → ((counts : ScanResult) (s : Tables Cursor) → IsLedger s → IsLedger (rest counts s).1)
      → IsLedger r.1
      → IsLedger (then_scan calls rest r).1
  then-IsLedger calls rest (ok counts, s) h l = h counts s l
  then-IsLedger calls rest (err e, s) h l = l

  scan_transfers-IsLedger :
      (calls : Collaborators Cursor) (wallet : WalletRow Cursor) (assets : List AssetRow) (now : ℕ)
      (ts : List ChainTransfer) (counts : ScanResult) (s : Tables Cursor)
      → IsLedger s
      → IsLedger (scan_transfers calls wallet assets now ts counts s).1
  unfolding scan_transfers
  scan_transfers-IsLedger calls wallet assets now [] counts s l = l
  scan_transfers-IsLedger calls wallet assets now (t ∷ ts) counts s l =
      then-IsLedger calls _ (scan_transfer calls wallet assets now t counts s)
        (λ counts' s' l'. scan_transfers-IsLedger calls wallet assets now ts counts' s' l')
        (scan_transfer-IsLedger calls wallet assets now t counts s l)

  done-IsLedger :
      (calls : Collaborators Cursor) (id : Text) (cursor : Option Cursor) (now : ℕ)
      (r : Result ErrorCode ScanResult × Tables Cursor)
      → IsLedger r.1
      → IsLedger (scan_done calls id cursor now r).1
  done-IsLedger calls id cursor now (ok counts, s) l = record {
    is_distinct = l.is_distinct;
    agrees = l.agrees;
  }
  done-IsLedger calls id cursor now (err e, s) l = record {
    is_distinct = l.is_distinct;
    agrees = l.agrees;
  }

  page-IsLedger :
      (calls : Collaborators Cursor) (wallet : WalletRow Cursor) (now : ℕ) (s : Tables Cursor)
      (page : Result ErrorCode (TransferPage Cursor))
      → IsLedger s
      → IsLedger (scan_page calls wallet now s page).1
  page-IsLedger calls wallet now s (err e) l = record {
    is_distinct = l.is_distinct;
    agrees = l.agrees;
  }
  page-IsLedger calls wallet now s (ok page) l =
      done-IsLedger calls wallet.id page.cursor now _
        (scan_transfers-IsLedger calls wallet _ now page.transfers (no_counts calls) s l)

  found-IsLedger :
      (calls : Collaborators Cursor) (wallet : Option (WalletRow Cursor)) (now : ℕ)
      (s : Tables Cursor)
      → IsLedger s
      → IsLedger (scan_found calls wallet now s).1
  found-IsLedger calls none now s l = l
  found-IsLedger calls (some wallet) now s l = page-IsLedger calls wallet now s _ l

  abbrev pub scan_all : List (Scan Cursor) → Tables Cursor → Tables Cursor
  scan_all [] s = s
  scan_all (x ∷ scans) s = scan_all scans (scan_wallet x.calls x.wallet_id x.now s).1

  -- After any sequence of scans of any wallets, whatever the providers report and however often, no
  -- movement has two rows and each balance is what the chain rows of its wallet and its asset add up
  -- to, in their order, where a sum below zero counts as zero, if that was so before.
  pub scan_all-IsLedger :
      (scans : List (Scan Cursor)) (s : Tables Cursor) → IsLedger s → IsLedger (scan_all scans s)
  unfolding scan_wallet
  scan_all-IsLedger [] s l = l
  scan_all-IsLedger (x ∷ scans) s l =
      scan_all-IsLedger scans _
        (found-IsLedger x.calls (find_wallet x.calls x.wallet_id s.wallets) x.now s l)
