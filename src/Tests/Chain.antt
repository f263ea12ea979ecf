-- ===== src/Tests/Chain.antt =====
-- The synchronisation with a chain on concrete inputs.
use wallet_bot.Base.{ℕ, ◌≡◌, refl, Bool, true, List, [], ◌∷◌, map, Option, none, some, All}
use wallet_bot.Base.Int.{ℤ, pos, negsuc}
use wallet_bot.Money.Fiat.{usd}
use wallet_bot.Money.Rate.{AssetPrice}
use wallet_bot.Base.Result.{Result, ok, err}
use wallet_bot.Base.Text.{codes}
use wallet_bot.Domain.Enums.{bsc, mainnet, ErrorCode, TxStatus, timeout, internal_error}
use wallet_bot.Chain.Ledger.{incoming, outgoing, TransactionRow, TxSource}
use wallet_bot.Chain.Tables.{
  ChainTransfer, AssetRow, WalletRow, Tables, Collaborators, TransferPage,
}
use wallet_bot.Chain.Ingest.{ingest_transfer, chain_row}
use wallet_bot.Chain.Sync.{scan_wallet, scan_failed}
use wallet_bot.Chain.Sync.Once.{Delivery, ingest, tables_after, IsIgnored, delivered_once}
use wallet_bot.Chain.Sync.Agree.{IsLedger, Scan, scan_all, scan_all-IsLedger}
use wallet_bot.Chain.Sync.Cursors.{IsAnswered, scan_wallet-IsAnswered}
use wallet_bot.Chain.Sync.Zero.{zero_transfer_stops}

abbrev transfer : ℤ → ChainTransfer
transfer amount = record {
  tx_hash = codes "0xab";
  log_index = pos 7;
  direction = incoming;
  counterparty = none;
  contract_address = some (codes "0xusdt");
  raw_amount = amount;
  fee_raw_amount = none;
  memo = none;
  block_number = some (pos 9);
  block_time = none;
  confirmations = some (pos 1);
  succeeded = true;
}

abbrev asset : AssetRow
asset = record {
  id = codes "a1";
  symbol = codes "USDT";
  decimals = 18;
  network = bsc;
  env = mainnet;
  contract_address = some (codes "0xusdt");
  is_active = true;
}

abbrev wallet : WalletRow ℕ
wallet = record {
  id = codes "w1";
  user_id = codes "u1";
  address = codes "0x01";
  network = bsc;
  env = mainnet;
  scan_cursor = none;
  last_scanned_at = none;
  last_scan_error = none;
  consecutive_failures = 0;
}

-- A wallet of another user.
abbrev other_wallet : WalletRow ℕ
other_wallet = record wallet { id = codes "w2"; user_id = codes "u2" }

-- A provider with one page.
abbrev calls : List ChainTransfer → Collaborators ℕ
calls transfers = record {
  get_price = λ a. err timeout;
  convert_to_ils = λ a. ok none;
  list_transfers =
      λ network address cursor limit. ok (record { transfers = transfers; cursor = some 9 });
  get_transaction_status = λ network hash. err timeout;
  get_token_balances = λ network address assets. err timeout;
  required_confirmations = λ network. pos 15;
  new_id = λ rows. codes "t1";
}

abbrev start : Tables ℕ
start = record {
  events = [];
  transactions = [];
  balances = [];
  notifications = [];
  wallets = wallet ∷ other_wallet ∷ [];
  assets = asset ∷ [];
}

abbrev delivery : WalletRow ℕ → Delivery ℕ
delivery w = record {
  calls = calls [];
  wallet = w;
  asset = asset;
  transfer = transfer (pos 5);
  required = pos 15;
  now = 100;
}

abbrev after_first : Tables ℕ
after_first = tables_after start (ingest (delivery wallet) start)

first_ingested : ingest (delivery wallet) start ≡ ok (true, after_first)
unfolding ingest_transfer wallet_bot.Money.Token.from_raw wallet_bot.Money.Decimal.raw_integer
    wallet_bot.Money.Token.make wallet_bot.Chain.Ledger.claim_event
    wallet_bot.Chain.Ledger.insert_chain_transaction_if_new
first_ingested = refl

delivered_once_example : IsIgnored (delivery other_wallet) after_first
delivered_once_example =
    delivered_once (delivery wallet) (delivery other_wallet) [] start after_first true
      first_ingested refl

abbrev scan_of : WalletRow ℕ → Scan ℕ
scan_of w = record {
  calls = calls (transfer (pos 5) ∷ transfer (pos 5) ∷ []);
  wallet_id = w.id;
  now = 100;
}

start-IsLedger : IsLedger start
start-IsLedger = record { is_distinct = refl; agrees = λ w a. refl }

scan_all-IsLedger_example :
    IsLedger (scan_all (scan_of wallet ∷ scan_of other_wallet ∷ scan_of wallet ∷ []) start)
scan_all-IsLedger_example =
    scan_all-IsLedger (scan_of wallet ∷ scan_of other_wallet ∷ scan_of wallet ∷ []) start
      start-IsLedger

abbrev page : ℤ → TransferPage ℕ
page amount = record { transfers = transfer amount ∷ []; cursor = some 9 }

abbrev no_provider : Collaborators ℕ
no_provider = record (calls []) { list_transfers = λ network address cursor limit. err timeout }

scan_throws :
    IsAnswered no_provider wallet 100 start
      (err timeout)
      (scan_wallet no_provider (codes "w1") 100 start)
scan_throws = scan_wallet-IsAnswered no_provider (codes "w1") wallet 100 start refl

zero_transfer_stops_example :
    scan_wallet (calls (transfer (pos 0) ∷ [])) (codes "w1") 100 start
    ≡ scan_failed (calls (transfer (pos 0) ∷ [])) (codes "w1") internal_error 100 start
zero_transfer_stops_example =
    zero_transfer_stops (calls (transfer (pos 0) ∷ [])) (codes "w1") wallet asset (transfer (pos 0))
      [] (some 9) 100 start refl refl refl refl refl refl

-- A row as a simulated transfer has it.
abbrev simulated : TransactionRow
simulated =
    record (chain_row (calls []) wallet asset (transfer (pos 5)) (pos 15) (none, none) 100 start) {
      status = TxStatus.pending;
      source = TxSource.manual;
      tx_hash = codes "sim-1";
    }

abbrev with_simulated : Tables ℕ
with_simulated = record start { transactions = simulated ∷ [] }

simulated-IsPending : All (λ r. r.status ≡ TxStatus.pending) with_simulated.transactions
simulated-IsPending = (refl, tt)

-- A dollar for a token, and an outgoing transfer of five of them.
abbrev dollar : AssetPrice
dollar = record {
  asset_key = codes "a1";
  symbol = codes "USDT";
  quote = usd;
  scaled = pos 1000000000000;
  as_of = pos 0;
  source = codes "test";
}

abbrev spent : ChainTransfer
spent = record (transfer (negsuc 4999999999999999999)) { direction = outgoing }

abbrev values_of : Result ErrorCode (Bool × Tables ℕ) → List (Option ℤ)
values_of (ok (b, s)) = map (λ r. r.value_usd_minor) s.transactions
values_of (err e) = []

-- The value that is recorded for it is positive.
outgoing_value :
    values_of (
      ingest_transfer
        (record (calls []) { get_price = λ a. ok (some dollar) })
        wallet
        asset
        spent
        (pos 15)
        100
        start)
    ≡ some (pos 500) ∷ []
unfolding ingest_transfer wallet_bot.Money.Token.from_raw wallet_bot.Money.Decimal.raw_integer
    wallet_bot.Money.Token.make wallet_bot.Chain.Ledger.claim_event
    wallet_bot.Chain.Ledger.insert_chain_transaction_if_new wallet_bot.Money.Rate.value
    wallet_bot.Money.FixedPoint.pow10 wallet_bot.Money.FixedPoint.mul_div
    wallet_bot.Money.FixedPoint.divide_rounded wallet_bot.Money.Fiat.from_minor
    wallet_bot.Base.Int.◌*ℤ◌ wallet_bot.Base.Int.◌+ℤ◌
outgoing_value = refl
