-- ===== src/Chain/Ledger.antt =====
-- The statements on the tables that the synchronisation writes: claimEvent and enqueueNotification
-- of packages/db/src/repositories/ops.ts, the chain rows of transactions.ts and the balances and
-- cursors of wallets.ts in the same folder.
pub mod Balances
use wallet_bot.Base.{
  ℕ, ◌+◌, Bool, true, false, List, [], ◌∷◌, ◌++◌, Option, none, some, ltb, leb, ◌==◌, ◌&&◌, ◌||◌,
  not, if◌then◌else◌, take, min,
}
use wallet_bot.Base.Int.{ℤ, pos, ◌+ℤ◌, ltb_ℤ, eqb_ℤ}
use wallet_bot.Base.Result.{Result, ok, err}
use wallet_bot.Base.Text.{Text, eq_text}
use wallet_bot.Domain.Enums.{
  Network, NetworkEnv, same_network, same_env, TxStatus, ErrorCode, internal_error,
}
use wallet_bot.Domain.StateMachines.{tx_index, tx_status_transitions, assert_transition}

-- The directions of movements on a chain; rows of the third, `internal`, are not made here.
pub data TxDirection : Type 0 where
  incoming outgoing : TxDirection

pub data TxSource : Type 0 where
  manual chain scheduled system : TxSource

-- The columns of crypto rows, less the texts that are only shown.
pub record TransactionRow : Type 0 where
  pub id : Text
  pub user_id : Text
  pub direction : TxDirection
  pub status : TxStatus
  pub source : TxSource
  pub is_deleted : Bool
  pub occurred_at : ℕ
  pub updated_at : ℕ
  pub wallet_id : Text
  pub asset_id : Text
  pub raw_amount : ℤ
  pub network : Network
  pub env : NetworkEnv
  pub tx_hash : Text
  pub log_index : ℤ
  pub counterparty_address : Option Text
  pub memo : Option Text
  pub fee_raw_amount : Option ℤ
  pub confirmations : Option ℤ
  pub required_confirmations : Option ℤ
  pub block_number : Option ℤ
  pub block_time : Option ℕ
  pub value_usd_minor : Option ℤ
  pub value_ils_minor : Option ℤ

abbrev pub Transactions : Type 0
Transactions = List TransactionRow

-- `ON CONFLICT (network, env, tx_hash, log_index)`.
abbrev pub is_same_movement : TransactionRow → TransactionRow → Bool
is_same_movement r q =
    same_network r.network q.network
    && same_env r.env q.env
    && eq_text r.tx_hash q.tx_hash
    && eqb_ℤ r.log_index q.log_index

abbrev pub has_movement : TransactionRow → Transactions → Bool
has_movement r [] = false
has_movement r (q ∷ rows) = is_same_movement r q || has_movement r rows

-- The constraint `transactions_crypto_sign`.
abbrev pub has_sign : TxDirection → ℤ → Bool
has_sign incoming raw = ltb_ℤ (pos 0) raw
has_sign outgoing raw = ltb_ℤ raw (pos 0)

-- The constraint `transactions_confirmations`.
abbrev pub is_count : Option ℤ → Bool
is_count none = true
is_count (some n) = not (ltb_ℤ n (pos 0))

-- The table's constraints come before its unique index.
unfoldable pub insert_chain_transaction_if_new :
    TransactionRow → Transactions → Result ErrorCode (Option TransactionRow × Transactions)
insert_chain_transaction_if_new row rows =
    if not (has_sign row.direction row.raw_amount && is_count row.confirmations)
    then err internal_error
    else if has_movement row rows
    then ok (none, rows)
    else ok (some row, rows ++ (row ∷ []))

-- A key of the scope `chain`; these claims have no expiry.
abbrev pub has_event : Text → List Text → Bool
has_event key [] = false
has_event key (k ∷ events) = eq_text key k || has_event key events

unfoldable pub claim_event : Text → List Text → Bool × List Text
claim_event key events = if has_event key events then (false, events) else (true, key ∷ events)

pub record BalanceRow : Type 0 where
  pub wallet_id : Text
  pub asset_id : Text
  pub raw_amount : ℤ
  pub source : Text

abbrev pub Balances : Type 0
Balances = List BalanceRow

abbrev pub is_balance_of : Text → Text → BalanceRow → Bool
is_balance_of wallet_id asset_id b = eq_text b.wallet_id wallet_id && eq_text b.asset_id asset_id

-- What the table says of a balance; a missing row is nothing.
abbrev pub raw_balance : Text → Text → Balances → ℤ
raw_balance wallet_id asset_id [] = pos 0
raw_balance wallet_id asset_id (b ∷ rows) =
    if is_balance_of wallet_id asset_id b then b.raw_amount else raw_balance wallet_id asset_id rows

-- `GREATEST(n, 0)`.
abbrev pub at_least_zero : ℤ → ℤ
at_least_zero n = if ltb_ℤ n (pos 0) then pos 0 else n

unfoldable pub adjust_wallet_balance : Text → Text → ℤ → Text → Balances → Balances
adjust_wallet_balance wallet_id asset_id delta source [] =
    record {
      wallet_id = wallet_id;
      asset_id = asset_id;
      raw_amount = at_least_zero delta;
      source = source;
    }
    ∷ []
adjust_wallet_balance wallet_id asset_id delta source (b ∷ rows) =
    let rest = adjust_wallet_balance wallet_id asset_id delta source rows in
    if is_balance_of wallet_id asset_id b
    then record b { raw_amount = at_least_zero (b.raw_amount +ℤ delta); source = source } ∷ rows
    else b ∷ rest

unfoldable pub upsert_wallet_balance : Text → Text → ℤ → Text → Balances → Balances
upsert_wallet_balance wallet_id asset_id raw_amount source [] =
    record { wallet_id = wallet_id; asset_id = asset_id; raw_amount = raw_amount; source = source }
    ∷ []
upsert_wallet_balance wallet_id asset_id raw_amount source (b ∷ rows) =
    let rest = upsert_wallet_balance wallet_id asset_id raw_amount source rows in
    if is_balance_of wallet_id asset_id b
    then record b { raw_amount = raw_amount; source = source } ∷ rows
    else b ∷ rest

-- What identifies a notification; its payload is left out.
pub record NotificationRow : Type 0 where
  pub user_id : Text
  pub type : Text
  pub dedupe_key : Text

abbrev pub has_notification : NotificationRow → List NotificationRow → Bool
has_notification n [] = false
has_notification n (q ∷ rows) =
    (eq_text n.user_id q.user_id && eq_text n.dedupe_key q.dedupe_key) || has_notification n rows

unfoldable pub enqueue_notification : NotificationRow → List NotificationRow → List NotificationRow
enqueue_notification n rows = if has_notification n rows then rows else rows ++ (n ∷ [])

-- `listInFlightChainTransactions`: the rows that are not final, the one that was left alone longest
-- first. The delay is in milliseconds.
abbrev pub is_in_flight : ℕ → ℕ → TransactionRow → Bool
is_in_flight older_than now r =
    (tx_index r.status == tx_index TxStatus.detected
      || tx_index r.status == tx_index TxStatus.confirming)
    && not r.is_deleted
    && ltb (r.updated_at + older_than) now

abbrev insert_by_update : TransactionRow → Transactions → Transactions
insert_by_update r [] = r ∷ []
insert_by_update r (q ∷ rows) =
    let rest = insert_by_update r rows in
    if leb r.updated_at q.updated_at then r ∷ q ∷ rows else q ∷ rest

abbrev pub in_flight : ℕ → ℕ → Transactions → Transactions
in_flight older_than now [] = []
in_flight older_than now (r ∷ rows) =
    let rest = in_flight older_than now rows in
    if is_in_flight older_than now r then insert_by_update r rest else rest

unfoldable pub list_in_flight_chain_transactions : ℕ → ℕ → ℕ → Transactions → Transactions
list_in_flight_chain_transactions limit older_than now rows =
    take limit (in_flight older_than now rows)

abbrev coalesce : Option ℤ → Option ℤ → Option ℤ
coalesce none old = old
coalesce (some n) old = some n

abbrev with_status : TxStatus → Option ℤ → Option ℤ → ℕ → TransactionRow → TransactionRow
with_status status confirmations block_number now r = record r {
  status = status;
  confirmations = coalesce confirmations r.confirmations;
  block_number = coalesce block_number r.block_number;
  updated_at = now;
}

abbrev pub updated_row :
    TransactionRow
    → Transactions
    → Result ErrorCode (Unit {0})
    → Result ErrorCode (Option TransactionRow × Transactions)
updated_row q rows (ok u) =
    if is_count q.confirmations then ok (some q, q ∷ rows) else err internal_error
updated_row q rows (err e) = err e

abbrev pub cons_row :
    TransactionRow
    → Result ErrorCode (Option TransactionRow × Transactions)
    → Result ErrorCode (Option TransactionRow × Transactions)
cons_row r (err e) = err e
cons_row r (ok (found, rows)) = ok (found, r ∷ rows)

-- The trigger on the status throws on a transition that is not allowed. The identity of a row is
-- its key.
unfoldable pub update_chain_transaction_status :
    Text
    → TxStatus
    → Option ℤ
    → Option ℤ
    → ℕ
    → Transactions
    → Result ErrorCode (Option TransactionRow × Transactions)
update_chain_transaction_status id status confirmations block_number now [] = ok (none, [])
update_chain_transaction_status id status confirmations block_number now (r ∷ rows) =
    let rest = update_chain_transaction_status id status confirmations block_number now rows in
    if eq_text r.id id
    then updated_row (with_status status confirmations block_number now r) rows
        (assert_transition tx_index tx_status_transitions r.status status)
    else cons_row r rest
