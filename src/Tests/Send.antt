-- ===== src/Tests/Send.antt =====
-- Outgoing transfers on concrete inputs.
use wallet_bot.Base.{◌≤◌, ◌≡◌, refl, true, false, List, [], ◌∷◌, length, some, none, arith}
use wallet_bot.Base.Int.{ℤ, pos, ◌+ℤ◌}
use wallet_bot.Base.Result.{ok}
use wallet_bot.Base.Text.{Text, codes, trim}
use wallet_bot.Domain.Enums.{tron, testnet, managed, SendRequestStatus}
use wallet_bot.Money.Token.{is_positive, parse, make, from_raw}
use wallet_bot.Money.Decimal.{
  parse_decimal, parse_trimmed, is_decimal_string, scale_parts, raw_integer,
}
use wallet_bot.Util.Keys.{asset_key, join, segment}
use wallet_bot.Send.Store.{
  SendRow, Table, create_send_request, confirm_send_request, spent_usd_minor_in_window,
  has_sent_to_address_before,
}
use wallet_bot.Send.Store.Replay.{claimed_at_most_once}
use wallet_bot.Send.Quote.{
  WalletRow, AssetRow, SendingConfig, QuoteRequest, Surroundings, SendQuote, Funding,
  assert_sending_enabled, load_pair, check_limits, warnings_of, check_funding, quote,
}
use wallet_bot.Send.Quote.Gates.{quote_gates, IsWithinGates}
use wallet_bot.Send.Execute.{Calls, World, SendConfirmRequest, confirm}
use wallet_bot.Send.Execute.Simulated.{IsSimulating, simulated_confirm}
use wallet_bot.Send.Execute.Once.{
  Attempt, confirming, executing, cancelling, run_attempts, at_most_once,
}

abbrev row_with : SendRequestStatus → SendRow
row_with status = record {
  id = codes "s1";
  user_id = codes "u1";
  wallet_id = codes "w1";
  asset_id = codes "a1";
  to_address_canonical = codes "T9";
  raw_amount = pos 2000000;
  memo = none;
  fingerprint = codes "fp";
  fee_raw_amount = pos 1;
  value_usd_minor = some (pos 200);
  expires_at = 5000;
  simulated = false;
  idempotency_key = codes "k1";
  status = status;
  confirmed_at = none;
  tx_hash = none;
  error_code = none;
}

abbrev pub all_answer : Calls
all_answer = record {
  asset_of = λ r. record { asset_key = codes "a1"; symbol = codes "USDT"; decimals = 6 };
  build_transfer = λ r amount. ok (codes "digest");
  sign = λ r digest. ok (record { signed = codes "signed"; simulated = false });
  broadcast = λ signed. ok (codes "hash");
  insert_transaction = λ r hash. ok (some (codes "t1"));
  queue_outgoing = λ r hash. ok tt;
}

abbrev pub sending : SendingConfig
sending = record {
  enabled = true;
  require_pin = true;
  max_usd_per_tx_minor = pos 500;
  max_usd_per_day_minor = pos 800;
  confirm_ttl_ms = 4000;
  signer_simulated = false;
}

abbrev world_with : SendRequestStatus → World
world_with status = record { rows = row_with status ∷ []; sent = [] }

abbrev three_attempts : List Attempt
three_attempts =
    confirming all_answer sending true (ok tt) (codes "fp") 1000
    ∷ confirming all_answer sending true (ok tt) (codes "fp") 1001
    ∷ executing all_answer
    ∷ cancelling
    ∷ []

at_most_once_example :
    length
      (run_attempts
        (codes "u1")
        (codes "s1")
        three_attempts
        (world_with SendRequestStatus.quoted)).sent
    ≤ 1
at_most_once_example =
    at_most_once (codes "u1") (codes "s1") three_attempts (world_with SendRequestStatus.quoted)

claimed_at_most_once_example :
    (confirm_send_request
      (codes "u1")
      (codes "s1")
      (codes "fp")
      1001
      (confirm_send_request
        (codes "u1")
        (codes "s1")
        (codes "fp")
        1000
        (row_with SendRequestStatus.quoted ∷ [])).1).0
    ≡ none
claimed_at_most_once_example =
    claimed_at_most_once (codes "u1") (codes "s1") (codes "fp") 1000 1001
      (row_with SendRequestStatus.quoted ∷ []) (omega arith)

abbrev wallet : WalletRow
wallet = record {
  id = codes "w1";
  network = tron;
  env = testnet;
  type = managed;
  address = codes "T0";
  address_canonical = codes "T0";
  is_active = true;
}

abbrev usdt : AssetRow
usdt = record {
  id = codes "a1";
  network = tron;
  env = testnet;
  contract_address = some (codes "C1");
  symbol = codes "USDT";
  decimals = 2;
}

abbrev trx : AssetRow
trx = record {
  id = codes "a2";
  network = tron;
  env = testnet;
  contract_address = none;
  symbol = codes "TRX";
  decimals = 6;
}

abbrev pub surroundings : Surroundings
surroundings = record {
  db_enabled = true;
  find_wallet = λ user_id id. some wallet;
  find_asset = λ id. some usdt;
  native_asset = λ network env symbol. some trx;
  validate_address = λ network address. some (record { canonical = address; display = address });
  estimate_fee = λ from asset address amount.
      ok (record { raw_amount = pos 1; symbol = codes "TRX"; decimals = 6 });
  balances = λ id. (codes "a1", pos 300) ∷ (codes "a2", pos 10) ∷ [];
  value_token = λ amount. ok (some amount.raw);
}

abbrev request : QuoteRequest
request = record {
  wallet_id = codes "w1";
  asset_id = codes "a1";
  to_address = codes "T9";
  amount = codes "2.00";
  memo = none;
  idempotency_key = codes "k1";
}

abbrev pub constant_fingerprint : SendRow → Text
constant_fingerprint r = codes "fp"

abbrev quoted_row : SendRow
quoted_row = record (row_with SendRequestStatus.quoted) { raw_amount = pos 200 }

abbrev quoted_answer : SendQuote × Table
quoted_answer = (
  record {
    row = quoted_row;
    created = true;
    total = pos 200;
    warnings = codes "send.warning.newAddress" ∷ [];
  },
  quoted_row ∷ [],
)

quote_run :
    quote constant_fingerprint sending surroundings (codes "s1") (codes "u1") request 1000 []
    ≡ ok quoted_answer
unfolding quote assert_sending_enabled load_pair check_limits ◌+ℤ◌ spent_usd_minor_in_window
    create_send_request warnings_of has_sent_to_address_before check_funding parse parse_decimal
    parse_trimmed trim is_decimal_string scale_parts make is_positive from_raw raw_integer asset_key
    join segment
quote_run = refl

quote_gates_example :
    (sending.enabled ≡ true)
    × (surroundings.db_enabled ≡ true)
    × ((w : WalletRow) × (asset : AssetRow) × (f : Funding) × (value : ℤ) × IsWithinGates sending
          surroundings
          (codes "u1")
          request
          1000
          []
          w
          asset
          f
          value)
quote_gates_example =
    quote_gates constant_fingerprint sending surroundings (codes "s1") (codes "u1") request 1000 []
      quoted_answer quote_run

abbrev funding : Funding
funding = record {
  amount = record {
    meta = record { asset_key = codes "tron:testnet:C1"; symbol = codes "USDT"; decimals = 2 };
    raw = pos 200;
  };
  fee = record {
    meta = record { asset_key = codes "a2"; symbol = codes "TRX"; decimals = 6 };
    raw = pos 1;
  };
  to = record { canonical = codes "T9"; display = codes "T9" };
  same_asset = false;
}

funding_run : check_funding surroundings wallet usdt request ≡ ok funding
unfolding check_funding parse parse_decimal parse_trimmed trim is_decimal_string scale_parts make
    is_positive from_raw raw_integer asset_key join segment
funding_run = refl

abbrev mock_answer : Calls
mock_answer = record all_answer {
  sign = λ r digest. ok (record { signed = codes "signed"; simulated = true });
}

abbrev confirm_s1 : SendConfirmRequest
confirm_s1 = record { send_request_id = codes "s1"; quote_fingerprint = codes "fp" }

mock-IsSimulating : IsSimulating mock_answer
mock-IsSimulating r digest s h = ground arith

simulated_confirm_example :
    (confirm mock_answer sending true
      (ok tt)
      (codes "u1")
      confirm_s1
      1000
      (world_with SendRequestStatus.quoted)).1.sent
    ≡ []
simulated_confirm_example =
    simulated_confirm mock_answer mock-IsSimulating (codes "u1") sending true (ok tt) confirm_s1
      1000 (world_with SendRequestStatus.quoted)

abbrev pub switched_off : SendingConfig
switched_off = record sending { enabled = false }
