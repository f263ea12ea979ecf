-- ===== src/Chain/Sync/Pages.antt =====
-- What a scan leaves of a page: packages/core/src/services/chain-sync.ts, scanWallet.
use wallet_bot.Base.{
  ℕ, ◌≡◌, refl, sym, ap, subst, Bool, true, false, List, [], ◌∷◌, Option, none, some, ◌||◌, not,
  arith, All,
}
use wallet_bot.Base.Result.{Result, ok, err}
use wallet_bot.Base.Text.{Text}
use wallet_bot.Domain.Enums.{ErrorCode}
use wallet_bot.Chain.Ledger.{has_event}
use wallet_bot.Chain.Tables.{ChainTransfer, AssetRow, WalletRow, Tables, Collaborators}
use wallet_bot.Chain.Ingest.{event_key}
use wallet_bot.Chain.Sync.{
  ScanResult, ingested, scan_known, scan_transfer, scan_transfers, then_scan, find_asset, non_empty,
}
use wallet_bot.Chain.Sync.Once.{Delivery, ingest, deliver-has_event, ingest-claims, tables_after}

abbrev is_none : Option AssetRow → Bool
is_none none = true
is_none (some a) = false

module _ {Cursor : Type 0} where
  -- The transfer failed on its chain, or is of no registered asset, or its event is claimed.
  abbrev pub is_handled :
      Collaborators Cursor → WalletRow Cursor → List AssetRow → Tables Cursor → ChainTransfer → Bool
  is_handled calls wallet assets s t =
      not t.succeeded
      || is_none (find_asset calls (non_empty calls t.contract_address) assets)
      || has_event (event_key calls wallet t) s.events

  module _ (calls : Collaborators Cursor) (wallet : WalletRow Cursor) (assets : List AssetRow)
      (now : ℕ) where
    abbrev delivery : AssetRow → ChainTransfer → Delivery Cursor
    delivery asset t = record {
      calls = calls;
      wallet = wallet;
      asset = asset;
      transfer = t;
      required = calls.required_confirmations wallet.network;
      now = now;
    }

    ingested-tables :
        (counts : ScanResult) (s : Tables Cursor) (r : Result ErrorCode (Bool × Tables Cursor))
        → (ingested calls counts s r).1 ≡ tables_after s r
    ingested-tables counts s (ok (b, s')) = refl
    ingested-tables counts s (err e) = refl

    known_keeps :
        (k : Text) (asset : Option AssetRow) (t : ChainTransfer) (counts : ScanResult)
        (s : Tables Cursor)
        → has_event k s.events ≡ true
        → has_event k (scan_known calls wallet asset now t counts s).1.events ≡ true
    known_keeps k none t counts s h = h
    known_keeps k (some asset) t counts s h =
        subst (λ u. has_event k u.events ≡ true)
          (sym (ingested-tables counts s (ingest (delivery asset t) s)))
          (deliver-has_event (delivery asset t) k s h)

    transfer_keeps :
        (k : Text) (t : ChainTransfer) (counts : ScanResult) (s : Tables Cursor)
        → has_event k s.events ≡ true
        → has_event k (scan_transfer calls wallet assets now t counts s).1.events ≡ true
    unfolding scan_transfer
    transfer_keeps k t counts s h = ground (
      arith,
      known_keeps k (find_asset calls (non_empty calls t.contract_address) assets) t counts s h,
    )

    then_keeps :
        (k : Text) (rest : ScanResult → Tables Cursor → Result ErrorCode ScanResult × Tables Cursor)
        (r : Result ErrorCode ScanResult × Tables Cursor)
        → ((counts : ScanResult) (s : Tables Cursor)
            → has_event k s.events ≡ true
            → has_event k (rest counts s).1.events ≡ true)
        → has_event k r.1.events ≡ true
        → has_event k (then_scan calls rest r).1.events ≡ true
    then_keeps k rest (ok counts, s) keeps h = keeps counts s h
    then_keeps k rest (err e, s) keeps h = h

    scan_keeps :
        (k : Text) (ts : List ChainTransfer) (counts : ScanResult) (s : Tables Cursor)
        → has_event k s.events ≡ true
        → has_event k (scan_transfers calls wallet assets now ts counts s).1.events ≡ true
    unfolding scan_transfers
    scan_keeps k [] counts s h = h
    scan_keeps k (t ∷ ts) counts s h =
        then_keeps k _ (scan_transfer calls wallet assets now t counts s)
          (λ counts' s' h'. scan_keeps k ts counts' s' h') (transfer_keeps k t counts s h)

    ingested_claims :
        (asset : AssetRow) (t : ChainTransfer) (counts c : ScanResult) (s s' : Tables Cursor)
        (r : Result ErrorCode (Bool × Tables Cursor))
        → ingest (delivery asset t) s ≡ r
        → ingested calls counts s r ≡ (ok c, s')
        → has_event (event_key calls wallet t) s'.events ≡ true
    ingested_claims asset t counts c s s' (ok (b, u)) e h =
        subst (λ (v : Tables Cursor). has_event (event_key calls wallet t) v.events ≡ true)
          (ap (λ p. p.1) h) (ingest-claims (delivery asset t) s b u e)
    ingested_claims asset t counts c s s' (err x) e h = absurd cc

    known_handled :
        (asset : Option AssetRow) (t : ChainTransfer) (counts c : ScanResult) (s s' : Tables Cursor)
        → scan_known calls wallet asset now t counts s ≡ (ok c, s')
        → (is_none asset || has_event (event_key calls wallet t) s'.events) ≡ true
    known_handled none t counts c s s' h = refl
    known_handled (some asset) t counts c s s' h =
        ingested_claims asset t counts c s s' (ingest (delivery asset t) s) refl h

    transfer_handled :
        (t : ChainTransfer) (counts c : ScanResult) (s s' : Tables Cursor)
        → scan_transfer calls wallet assets now t counts s ≡ (ok c, s')
        → is_handled calls wallet assets s' t ≡ true
    unfolding scan_transfer
    transfer_handled t counts c s s' h = ground (
      arith,
      known_handled (find_asset calls (non_empty calls t.contract_address) assets) t counts c s s',
    )

    stays_handled :
        (t : ChainTransfer) (ts : List ChainTransfer) (c : ScanResult) (s : Tables Cursor)
        → is_handled calls wallet assets s t ≡ true
        → is_handled calls wallet assets (scan_transfers calls wallet assets now ts c s).1 t ≡ true
    stays_handled t ts c s h = ground (arith, scan_keeps (event_key calls wallet t) ts c s)

    abbrev pub AllHandled :
        List ChainTransfer → Result ErrorCode ScanResult × Tables Cursor → Type 0
    AllHandled ts (ok c, s) = All (λ t. is_handled calls wallet assets s t ≡ true) ts
    AllHandled ts (err e, s) = Unit

    abbrev IsHandledBy : ChainTransfer → Result ErrorCode ScanResult × Tables Cursor → Type 0
    IsHandledBy t (ok c, s) = is_handled calls wallet assets s t ≡ true
    IsHandledBy t (err e, s) = Unit

    after_transfer :
        (t : ChainTransfer) (counts : ScanResult) (s : Tables Cursor)
        (r : Result ErrorCode ScanResult × Tables Cursor)
        → scan_transfer calls wallet assets now t counts s ≡ r
        → IsHandledBy t r
    after_transfer t counts s (ok c, s') h = transfer_handled t counts c s s' h
    after_transfer t counts s (err e, s') h = tt

    both_handled :
        (t : ChainTransfer) (ts : List ChainTransfer)
        (r : Result ErrorCode ScanResult × Tables Cursor)
        → IsHandledBy t r
        → AllHandled ts r
        → AllHandled (t ∷ ts) r
    both_handled t ts (ok c, s) h hs = (h, hs)
    both_handled t ts (err e, s) h hs = tt

    IsHandledBy-rest :
        (t : ChainTransfer) (ts : List ChainTransfer)
        (r : Result ErrorCode ScanResult × Tables Cursor) (s : Tables Cursor)
        → r.1 ≡ s
        → is_handled calls wallet assets s t ≡ true
        → IsHandledBy t r
    IsHandledBy-rest t ts (ok c, s') s e h =
        subst (λ u. is_handled calls wallet assets u t ≡ true) (sym e) h
    IsHandledBy-rest t ts (err x, s') s e h = tt

    then_handled :
        (t : ChainTransfer) (ts : List ChainTransfer)
        (r : Result ErrorCode ScanResult × Tables Cursor)
        → IsHandledBy t r
        → ((c : ScanResult) (s : Tables Cursor)
            → AllHandled ts (scan_transfers calls wallet assets now ts c s))
        → AllHandled
            (t ∷ ts)
            (then_scan calls (λ c s. scan_transfers calls wallet assets now ts c s) r)
    then_handled t ts (ok c, s) h hs =
        both_handled t ts (scan_transfers calls wallet assets now ts c s)
          (IsHandledBy-rest t ts (scan_transfers calls wallet assets now ts c s) _ refl
            (stays_handled t ts c s h))
          (hs c s)
    then_handled t ts (err e, s) h hs = tt

    pub scan_transfers-AllHandled :
        (ts : List ChainTransfer) (counts : ScanResult) (s : Tables Cursor)
        → AllHandled ts (scan_transfers calls wallet assets now ts counts s)
    unfolding scan_transfers
    scan_transfers-AllHandled [] counts s = tt
    scan_transfers-AllHandled (t ∷ ts) counts s =
        then_handled t ts (scan_transfer calls wallet assets now t counts s)
          (after_transfer t counts s _ refl) (λ c s'. scan_transfers-AllHandled ts c s')
