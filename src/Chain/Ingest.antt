-- ===== src/Chain/Ingest.antt =====
-- packages/core/src/services/chain-sync.ts, ingestTransfer: one transaction of the database. One that
-- throws leaves the tables as they were.
use wallet_bot.Base.{ℕ, Bool, true, false, List, Option, none, some, not, if◌then◌else◌}
use wallet_bot.Base.Int.{ℤ, pos, neg_ℤ}
use wallet_bot.Base.Result.{Result, ok, err, ◌>>=◌}
use wallet_bot.Base.Text.{Text, codes}
use wallet_bot.Domain.Enums.{TxStatus, ErrorCode, internal_error}
use wallet_bot.Money.FixedPoint.{MoneyError, half_even}
use wallet_bot.Money.Decimal.{big, to_string}
use wallet_bot.Money.Fiat.{FiatAmount}
use wallet_bot.Money.Token.{TokenAmount, from_raw}
use wallet_bot.Money.Rate.{AssetPrice, value}
use wallet_bot.Util.Keys.{asset_key, chain_event_key, notification_key}
use wallet_bot.Chain.Ledger.{
  TxDirection, incoming, outgoing, TxSource, TransactionRow, Transactions, claim_event,
  insert_chain_transaction_if_new, adjust_wallet_balance, enqueue_notification,
}
use wallet_bot.Chain.Tables.{AssetRow, ChainTransfer, Collaborators, Tables, WalletRow}

module _ {Cursor : Type 0} (calls : Collaborators Cursor) where
  -- A valuation: the value in dollars and the value in shekels.
  abbrev Valuation : Type 0
  Valuation = Option ℤ × Option ℤ

  abbrev value_ils : Result ErrorCode (Option FiatAmount) → Option ℤ
  value_ils (ok (some ils)) = some ils.minor
  value_ils (ok none) = none
  value_ils (err e) = none

  abbrev value_usd : Result MoneyError FiatAmount → Valuation
  value_usd (ok usd) = (some usd.minor, value_ils (calls.convert_to_ils usd))
  value_usd (err e) = (none, none)

  abbrev value_by : TokenAmount → Result ErrorCode (Option AssetPrice) → Valuation
  value_by amount (ok (some price)) = value_usd (value price amount half_even)
  value_by amount (ok none) = (none, none)
  value_by amount (err e) = (none, none)

  abbrev pub signed_value : TxDirection → Option ℤ → Option ℤ
  signed_value direction none = none
  signed_value incoming (some v) = some v
  signed_value outgoing (some v) = some (neg_ℤ v)

  abbrev pub event_key : WalletRow Cursor → ChainTransfer → Text
  event_key wallet transfer =
      chain_event_key wallet.network wallet.env transfer.tx_hash (to_string transfer.log_index)

  abbrev or_now : Option ℕ → ℕ → ℕ
  or_now none now = now
  or_now (some t) now = t

  abbrev or_zero : Option ℤ → Option ℤ
  or_zero none = some (pos 0)
  or_zero (some n) = some n

  abbrev pub chain_row :
      WalletRow Cursor
      → AssetRow
      → ChainTransfer
      → ℤ
      → Valuation
      → ℕ
      → Tables Cursor
      → TransactionRow
  chain_row wallet asset transfer required v now s = record {
    id = calls.new_id s.transactions;
    user_id = wallet.user_id;
    direction = transfer.direction;
    status = TxStatus.detected;
    source = TxSource.chain;
    is_deleted = false;
    occurred_at = or_now transfer.block_time now;
    updated_at = now;
    wallet_id = wallet.id;
    asset_id = asset.id;
    raw_amount = transfer.raw_amount;
    network = wallet.network;
    env = wallet.env;
    tx_hash = transfer.tx_hash;
    log_index = transfer.log_index;
    counterparty_address = transfer.counterparty;
    memo = transfer.memo;
    fee_raw_amount = transfer.fee_raw_amount;
    confirmations = or_zero transfer.confirmations;
    required_confirmations = some required;
    block_number = transfer.block_number;
    block_time = transfer.block_time;
    value_usd_minor = signed_value transfer.direction v.0;
    value_ils_minor = signed_value transfer.direction v.1;
  }

  abbrev movement_type : TxDirection → Text
  movement_type incoming = codes "crypto_received"
  movement_type outgoing = codes "crypto_sent"

  -- What follows an insertion, in the same transaction.
  abbrev pub after_insert :
      List Text → Tables Cursor → Option TransactionRow × Transactions → Bool × Tables Cursor
  after_insert events s (none, rows) = (false, record s { events = events; transactions = rows })
  after_insert events s (some row, rows) = (
    true,
    record s {
      events = events;
      transactions = rows;
      balances =
          adjust_wallet_balance row.wallet_id row.asset_id row.raw_amount (codes "chain-event")
            s.balances;
      notifications =
          enqueue_notification
            (record {
              user_id = row.user_id;
              type = movement_type row.direction;
              dedupe_key = notification_key (movement_type row.direction) row.id none;
            })
            s.notifications;
    },
  )

  -- The transaction: the claim of the event, the row, the balance and the notification.
  abbrev pub record_movement :
      Text → TransactionRow → Tables Cursor → Result ErrorCode (Bool × Tables Cursor)
  record_movement key row s =
      let (claimed, events) = claim_event key s.events in
      if not claimed then ok (false, s) else (do
        inserted ← insert_chain_transaction_if_new row s.transactions
        ok (after_insert events s inserted))

  abbrev token_amount : AssetRow → ℤ → Result MoneyError TokenAmount
  token_amount asset raw = from_raw (big raw) (record {
    asset_key = asset_key asset.network asset.env asset.contract_address asset.symbol;
    symbol = asset.symbol;
    decimals = asset.decimals;
  })

  abbrev pub ingest_amount :
      WalletRow Cursor
      → AssetRow
      → ChainTransfer
      → ℤ
      → ℕ
      → Tables Cursor
      → Result MoneyError TokenAmount
      → Result ErrorCode (Bool × Tables Cursor)
  ingest_amount wallet asset transfer required now s (err e) = err internal_error
  ingest_amount wallet asset transfer required now s (ok amount) =
      record_movement (event_key wallet transfer)
        (chain_row wallet asset transfer required (value_by amount (calls.get_price asset)) now s) s

  unfoldable pub ingest_transfer :
      WalletRow Cursor
      → AssetRow
      → ChainTransfer
      → ℤ
      → ℕ
      → Tables Cursor
      → Result ErrorCode (Bool × Tables Cursor)
  ingest_transfer wallet asset transfer required now s =
      ingest_amount wallet asset transfer required now s (token_amount asset transfer.raw_amount)
