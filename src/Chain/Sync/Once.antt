-- ===== src/Chain/Sync/Once.antt =====
-- At-least-once delivery and exactly-once effect: packages/core/src/services/chain-sync.ts.
use wallet_bot.Base.{
  ℕ, ◌≡◌, refl, sym, subst, Bool, true, false, List, [], ◌∷◌, arith, ◌⊎◌, inl, inr,
}
use wallet_bot.Base.Int.{ℤ}
use wallet_bot.Base.Result.{Result, ok, err}
use wallet_bot.Base.Text.{Text, eq_text_refl}
use wallet_bot.Domain.Enums.{ErrorCode}
use wallet_bot.Money.FixedPoint.{MoneyError}
use wallet_bot.Money.Token.{TokenAmount}
use wallet_bot.Chain.Ledger.{
  TransactionRow, claim_event, has_event, insert_chain_transaction_if_new,
}
use wallet_bot.Chain.Tables.{ChainTransfer, AssetRow, WalletRow, Tables, Collaborators}
use wallet_bot.Chain.Ingest.{event_key, record_movement, ingest_amount, ingest_transfer}

-- One call of `ingestTransfer`: a transfer that a page of a wallet reports, whenever it does.
pub record Delivery (Cursor : Type 0) : Type 0 where
  pub calls : Collaborators Cursor
  pub wallet : WalletRow Cursor
  pub asset : AssetRow
  pub transfer : ChainTransfer
  pub required : ℤ
  pub now : ℕ

module _ {Cursor : Type 0} where
  abbrev pub key_of : Delivery Cursor → Text
  key_of d = event_key d.calls d.wallet d.transfer

  abbrev pub ingest : Delivery Cursor → Tables Cursor → Result ErrorCode (Bool × Tables Cursor)
  ingest d s = ingest_transfer d.calls d.wallet d.asset d.transfer d.required d.now s

  abbrev pub tables_after : Tables Cursor → Result ErrorCode (Bool × Tables Cursor) → Tables Cursor
  tables_after s (ok (b, s')) = s'
  tables_after s (err e) = s

  -- A call that throws leaves the tables as they were.
  abbrev pub deliver : Delivery Cursor → Tables Cursor → Tables Cursor
  deliver d s = tables_after s (ingest d s)

  abbrev pub deliver_all : List (Delivery Cursor) → Tables Cursor → Tables Cursor
  deliver_all [] s = s
  deliver_all (d ∷ ds) s = deliver_all ds (deliver d s)

  keeps_events :
      (calls : Collaborators Cursor) (key k : Text) (row : TransactionRow) (s : Tables Cursor)
      → has_event k s.events ≡ true
      → has_event k (tables_after s (record_movement calls key row s)).events ≡ true
  unfolding claim_event insert_chain_transaction_if_new
  keeps_events calls key k row s h = ground arith

  amount_keeps_events :
      (d : Delivery Cursor) (k : Text) (s : Tables Cursor) (r : Result MoneyError TokenAmount)
      → has_event k s.events ≡ true
      → has_event k
          (tables_after s
            (ingest_amount d.calls d.wallet d.asset d.transfer d.required d.now s r)).events
        ≡ true
  amount_keeps_events d k s (err e) h = h
  amount_keeps_events d k s (ok amount) h = keeps_events d.calls (key_of d) k _ s h

  pub deliver-has_event :
      (d : Delivery Cursor) (k : Text) (s : Tables Cursor)
      → has_event k s.events ≡ true
      → has_event k (deliver d s).events ≡ true
  unfolding ingest_transfer
  deliver-has_event d k s h = amount_keeps_events d k s _ h

  deliver_all-has_event :
      (ds : List (Delivery Cursor)) (k : Text) (s : Tables Cursor)
      → has_event k s.events ≡ true
      → has_event k (deliver_all ds s).events ≡ true
  deliver_all-has_event [] k s h = h
  deliver_all-has_event (d ∷ ds) k s h =
      deliver_all-has_event ds k (deliver d s) (deliver-has_event d k s h)

  movement_claims :
      (calls : Collaborators Cursor) (key : Text) (row : TransactionRow) (s : Tables Cursor)
      (b : Bool) (s' : Tables Cursor)
      → record_movement calls key row s ≡ ok (b, s')
      → has_event key s'.events ≡ true
  unfolding claim_event insert_chain_transaction_if_new
  movement_claims calls key row s b s' h = ground (arith, eq_text_refl key)

  amount_claims :
      (d : Delivery Cursor) (s : Tables Cursor) (b : Bool) (s' : Tables Cursor)
      (r : Result MoneyError TokenAmount)
      → ingest_amount d.calls d.wallet d.asset d.transfer d.required d.now s r ≡ ok (b, s')
      → has_event (key_of d) s'.events ≡ true
  amount_claims d s b s' (err e) h = absurd cc
  amount_claims d s b s' (ok amount) h = movement_claims d.calls (key_of d) _ s b s' h

  pub ingest-claims :
      (d : Delivery Cursor) (s : Tables Cursor) (b : Bool) (s' : Tables Cursor)
      → ingest d s ≡ ok (b, s')
      → has_event (key_of d) s'.events ≡ true
  unfolding ingest_transfer
  ingest-claims d s b s' h = amount_claims d s b s' _ h

  abbrev pub IsIgnored : Delivery Cursor → Tables Cursor → Type 0
  IsIgnored d s = (ingest d s ≡ ok (false, s)) ⊎ ((e : ErrorCode) × (ingest d s ≡ err e))

  movement_ignored :
      (calls : Collaborators Cursor) (key : Text) (row : TransactionRow) (s : Tables Cursor)
      → has_event key s.events ≡ true
      → record_movement calls key row s ≡ ok (false, s)
  unfolding claim_event
  movement_ignored calls key row s h = rw h refl

  amount_ignored :
      (d : Delivery Cursor) (s : Tables Cursor) (r : Result MoneyError TokenAmount)
      → has_event (key_of d) s.events ≡ true
      → let result = ingest_amount d.calls d.wallet d.asset d.transfer d.required d.now s r in
        (result ≡ ok (false, s)) ⊎ ((e : ErrorCode) × (result ≡ err e))
  amount_ignored d s (err e) h = inr (_, refl)
  amount_ignored d s (ok amount) h = inl (movement_ignored d.calls (key_of d) _ s h)

  pub claimed-IsIgnored :
      (d : Delivery Cursor) (s : Tables Cursor)
      → has_event (key_of d) s.events ≡ true
      → IsIgnored d s
  unfolding ingest_transfer
  claimed-IsIgnored d s h = amount_ignored d s _ h

  -- Once a transfer has been ingested without an error, each delivery with the same event key, after
  -- whatever deliveries came between, changes no table: it reports a duplicate, or throws if its
  -- asset has an amount that cannot be made. It may be of another wallet, with other collaborators.
  pub delivered_once :
      (first again : Delivery Cursor) (between : List (Delivery Cursor)) (s s' : Tables Cursor)
      (b : Bool)
      → ingest first s ≡ ok (b, s')
      → key_of again ≡ key_of first
      → IsIgnored again (deliver_all between s')
  delivered_once first again between s s' b done same =
      claimed-IsIgnored again (deliver_all between s') (
        subst (λ k. has_event k (deliver_all between s').events ≡ true) (sym same)
          (deliver_all-has_event between (key_of first) s' (ingest-claims first s b s' done)))
