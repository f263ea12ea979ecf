-- ===== src/Send/Quote.antt =====
-- `SendService.quote`: packages/core/src/services/send.ts.
pub mod Gates
use wallet_bot.Base.{
  ℕ, ◌+◌, ◌*◌, Bool, true, false, List, [], ◌∷◌, ◌++◌, Option, none, some, ltb, ◌==◌, ◌&&◌, ◌||◌,
  not, if◌then◌else◌,
}
use wallet_bot.Base.Int.{ℤ, pos, ◌+ℤ◌, ltb_ℤ, quot_ℤ}
use wallet_bot.Base.Result.{Result, ok, err, ◌>>=◌, ◌>>◌, throw_if}
use wallet_bot.Base.Text.{Text, codes, eq_text}
use wallet_bot.Domain.Enums.{
  Network, NetworkEnv, WalletType, watch_only, managed, same_network, same_env, is_evm_network,
  SendRequestStatus, ErrorCode, sending_disabled, wallet_not_found, wallet_inactive,
  watch_only_wallet, asset_not_found, asset_not_supported, invalid_address,
  self_transfer_not_allowed, amount_too_small, insufficient_balance, insufficient_gas,
  send_limit_exceeded, send_daily_limit_exceeded, price_unavailable,
}
use wallet_bot.Money.FixedPoint.{MoneyError}
use wallet_bot.Money.Decimal.{big}
use wallet_bot.Money.Token.{AssetMeta, TokenAmount, from_raw, parse, is_positive}
use wallet_bot.Util.Keys.{asset_key, network_name}
use wallet_bot.Send.Store.{
  Failure, app, money, SendRow, Table, create_send_request, spent_usd_minor_in_window,
  has_sent_to_address_before,
}

pub record WalletRow : Type 0 where
  pub id : Text
  pub network : Network
  pub env : NetworkEnv
  pub type : WalletType
  pub address : Text
  pub address_canonical : Text
  pub is_active : Bool

pub record AssetRow : Type 0 where
  pub id : Text
  pub network : Network
  pub env : NetworkEnv
  pub contract_address : Option Text
  pub symbol : Text
  pub decimals : ℕ

-- The canonical and the displayed form of a valid address.
pub record ValidAddress : Type 0 where
  pub canonical : Text
  pub display : Text

pub record FeeEstimate : Type 0 where
  pub raw_amount : ℤ
  pub symbol : Text
  pub decimals : ℕ

pub record SendingConfig : Type 0 where
  pub enabled : Bool
  pub require_pin : Bool
  pub max_usd_per_tx_minor : ℤ
  pub max_usd_per_day_minor : ℤ
  pub confirm_ttl_ms : ℕ
  pub signer_simulated : Bool

pub record QuoteRequest : Type 0 where
  pub wallet_id : Text
  pub asset_id : Text
  pub to_address : Text
  pub amount : Text
  pub memo : Option Text
  pub idempotency_key : Text

-- What a quote reads from elsewhere: rows of other tables, the address validator, the chain's fee
-- estimate, the wallet's balances and the currency service's valuation.
pub record Surroundings : Type 0 where
  pub db_enabled : Bool
  pub find_wallet : Text → Text → Option WalletRow
  pub find_asset : Text → Option AssetRow
  pub native_asset : Network → NetworkEnv → Text → Option AssetRow
  pub validate_address : Network → Text → Option ValidAddress
  pub estimate_fee : WalletRow → AssetRow → Text → ℤ → Result ErrorCode FeeEstimate
  pub balances : Text → List (Text × ℤ)
  pub value_token : TokenAmount → Result ErrorCode (Option ℤ)

abbrev pub lift_app : {A : Type 0} → Result ErrorCode A → Result Failure A
lift_app (ok a) = ok a
lift_app (err e) = err (app e)

abbrev pub lift_money : {A : Type 0} → Result MoneyError A → Result Failure A
lift_money (ok a) = ok a
lift_money (err e) = err (money e)

abbrev pub or_throw : {A : Type 0} → Option A → ErrorCode → Result Failure A
or_throw none e = err (app e)
or_throw (some a) e = ok a

abbrev pub app_if : Bool → ErrorCode → Result Failure (Unit {0})
app_if test e = throw_if test (app e)

-- Gates 1 and 2.
unfoldable pub assert_sending_enabled : SendingConfig → Bool → Result Failure (Unit {0})
assert_sending_enabled config db_enabled =
    app_if (not config.enabled) sending_disabled >> app_if (not db_enabled) sending_disabled

abbrev is_managed : WalletType → Bool
is_managed watch_only = false
is_managed managed = true

-- The wallet and the asset, and that they belong together.
unfoldable pub load_pair :
    Surroundings → Text → QuoteRequest → Result Failure (WalletRow × AssetRow)
load_pair around user_id request = do
  wallet ← or_throw (around.find_wallet user_id request.wallet_id) wallet_not_found
  app_if (not wallet.is_active) wallet_inactive
  app_if (not (is_managed wallet.type)) watch_only_wallet
  asset ← or_throw (around.find_asset request.asset_id) asset_not_found
  app_if (not (same_network asset.network wallet.network) || not (same_env asset.env wallet.env))
      asset_not_supported
  ok (wallet, asset)

abbrev pub balance_of : Text → List (Text × ℤ) → ℤ
balance_of id [] = pos 0
balance_of id ((asset_id, raw) ∷ rows) = if eq_text asset_id id then raw else balance_of id rows

abbrev pub same_asset_as_fee : Option AssetRow → AssetRow → Bool
same_asset_as_fee none asset = false
same_asset_as_fee (some native) asset = eq_text native.id asset.id

abbrev native_id : Option AssetRow → Network → Text
native_id none network = network_name network ++ codes ":native"
native_id (some native) network = native.id

-- The fee is paid from the balance of the native coin, where that is another asset.
abbrev gas_test : Option AssetRow → Bool → Network → List (Text × ℤ) → ℤ → Result Failure (Unit {0})
gas_test none same network balances fee = ok tt
gas_test (some native) same network balances fee =
    app_if (not same && ltb_ℤ (balance_of native.id balances) fee)
      (if is_evm_network network then insufficient_gas else insufficient_balance)

pub record Funding : Type 0 where
  pub amount : TokenAmount
  pub fee : TokenAmount
  pub to : ValidAddress
  pub same_asset : Bool

-- The recipient, the amount, the fee and the balances.
unfoldable pub check_funding :
    Surroundings → WalletRow → AssetRow → QuoteRequest → Result Failure Funding
check_funding around wallet asset request = do
  to ← or_throw (around.validate_address wallet.network request.to_address) invalid_address
  app_if (eq_text to.canonical wallet.address_canonical) self_transfer_not_allowed
  let key = asset_key asset.network asset.env asset.contract_address asset.symbol
  amount ← lift_money (
      parse request.amount
        (record { asset_key = key; symbol = asset.symbol; decimals = asset.decimals }))
  app_if (not (is_positive amount)) amount_too_small
  estimate ← lift_app (around.estimate_fee wallet asset to.canonical amount.raw)
  let native = around.native_asset wallet.network wallet.env estimate.symbol
  fee ← lift_money (
      from_raw (big estimate.raw_amount) (record {
        asset_key = native_id native wallet.network;
        symbol = estimate.symbol;
        decimals = estimate.decimals;
      }))
  let same = same_asset_as_fee native asset
  let balances = around.balances wallet.id
  let required = if same then amount.raw +ℤ fee.raw else amount.raw
  app_if (ltb_ℤ (balance_of asset.id balances) required) insufficient_balance
  gas_test native same wallet.network balances fee.raw
  ok (record { amount = amount; fee = fee; to = to; same_asset = same })

-- 24 hours.
abbrev pub day_ms : ℕ
day_ms = 24 * 3600 * 1000

-- The valuation and the limits; without a valuation nothing is sent.
unfoldable pub check_limits : SendingConfig → Option ℤ → Text → ℕ → Table → Result Failure ℤ
check_limits config none user_id now rows = err (app price_unavailable)
check_limits config (some value) user_id now rows = do
  app_if (ltb_ℤ config.max_usd_per_tx_minor value) send_limit_exceeded
  app_if
      (ltb_ℤ config.max_usd_per_day_minor
        (spent_usd_minor_in_window user_id day_ms now rows +ℤ value))
      send_daily_limit_exceeded
  ok value

abbrev when : Bool → Text → List Text
when true warning = warning ∷ []
when false warning = []

unfoldable pub warnings_of : SendingConfig → Network → Bool → ℤ → List Text
warnings_of config network sent_before value =
    when (not sent_before) (codes "send.warning.newAddress")
    ++ (when (is_evm_network network) (codes "send.warning.evmSameAddress")
        ++ when (ltb_ℤ (quot_ℤ config.max_usd_per_tx_minor 2) value)
            (codes "send.warning.largeAmount"))

-- What the user is shown: the row, and what stands beside it.
pub record SendQuote : Type 0 where
  pub row : SendRow
  pub created : Bool
  pub total : ℤ
  pub warnings : List Text

abbrev quote_result :
    SendingConfig → WalletRow → Funding → ℤ → Bool → (SendRow × Bool) × Table → SendQuote × Table
quote_result config wallet f value sent_before ((row, created), rows) = (
  record {
    row = row;
    created = created;
    total = if f.same_asset then f.amount.raw +ℤ f.fee.raw else f.amount.raw;
    warnings = warnings_of config wallet.network sent_before value;
  },
  rows,
)

-- `quoteFingerprint` is a parameter, a keyed hash over the numbers of the quote, and so is the
-- identifier that the database gives to a new row. The valuation of the fee, which is shown only,
-- is left out, and so are the audit row and the conversions of the answer to its transport form.
module _ (quote_fingerprint : SendRow → Text) where
  abbrev new_row :
      SendingConfig → Text → Text → QuoteRequest → WalletRow → AssetRow → Funding → ℤ → ℕ → SendRow
  new_row config new_id user_id request wallet asset f value now = record {
    id = new_id;
    user_id = user_id;
    wallet_id = wallet.id;
    asset_id = asset.id;
    to_address_canonical = f.to.canonical;
    raw_amount = f.amount.raw;
    memo = request.memo;
    fingerprint = [];
    fee_raw_amount = f.fee.raw;
    value_usd_minor = some value;
    expires_at = now + config.confirm_ttl_ms;
    simulated = config.signer_simulated;
    idempotency_key = request.idempotency_key;
    status = SendRequestStatus.quoted;
    confirmed_at = none;
    tx_hash = none;
    error_code = none;
  }

  unfoldable pub quote :
      SendingConfig
      → Surroundings
      → Text
      → Text
      → QuoteRequest
      → ℕ
      → Table
      → Result Failure (SendQuote × Table)
  quote config around new_id user_id request now rows = do
    assert_sending_enabled config around.db_enabled
    pair ← load_pair around user_id request
    funding ← check_funding around pair.0 pair.1 request
    valued ← lift_app (around.value_token funding.amount)
    value ← check_limits config valued user_id now rows
    let sent_before = has_sent_to_address_before user_id funding.to.canonical rows
    let row = new_row config new_id user_id request pair.0 pair.1 funding value now
    ok (
        quote_result config pair.0 funding value sent_before
          (create_send_request (record row { fingerprint = quote_fingerprint row }) rows))
