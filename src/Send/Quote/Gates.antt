-- ===== src/Send/Quote/Gates.antt =====
-- What a quote promises: packages/core/src/services/send.ts.
use wallet_bot.Base.{ℕ, ◌≡◌, Bool, true, false, Option, some, if◌then◌else◌, arith}
use wallet_bot.Base.Int.{ℤ, ◌+ℤ◌, ◌≤ℤ◌}
use wallet_bot.Base.Result.{Result, ok, >>=-eq-ok}
use wallet_bot.Base.Text.{Text, eq_text}
use wallet_bot.Domain.Enums.{ErrorCode}
use wallet_bot.Money.Token.{is_positive}
use wallet_bot.Send.Store.{SendRow, Table, spent_usd_minor_in_window}
use wallet_bot.Send.Quote.{
  SendingConfig, Surroundings, QuoteRequest, WalletRow, AssetRow, Funding, SendQuote,
  assert_sending_enabled, load_pair, check_funding, check_limits, quote, is_managed, balance_of,
  day_ms, lift_app,
}

enabled_ok :
    (config : SendingConfig) (db_enabled : Bool)
    → assert_sending_enabled config db_enabled ≡ ok tt
    → (config.enabled ≡ true) × (db_enabled ≡ true)
unfolding assert_sending_enabled
enabled_ok config db_enabled h = ground arith

pair_ok :
    (around : Surroundings) (user_id : Text) (request : QuoteRequest) (wallet : WalletRow)
    (asset : AssetRow)
    → load_pair around user_id request ≡ ok (wallet, asset)
    → (around.find_wallet user_id request.wallet_id ≡ some wallet)
      × (wallet.is_active ≡ true)
      × (is_managed wallet.type ≡ true)
unfolding load_pair
pair_ok around user_id request wallet asset h = ground arith

limits_ok :
    (config : SendingConfig) (valued : Option ℤ) (user_id : Text) (now : ℕ) (rows : Table)
    (value : ℤ)
    → check_limits config valued user_id now rows ≡ ok value
    → (value ≤ℤ config.max_usd_per_tx_minor)
      × (spent_usd_minor_in_window user_id day_ms now rows +ℤ value ≤ℤ config.max_usd_per_day_minor)
unfolding check_limits
limits_ok config valued user_id now rows value h = ground arith

-- A funding that passes has a positive amount, goes to another address than the wallet's own, and
-- the balance of the asset covers the amount, and the fee as well where it is paid in the same asset.
pub funding_ok :
    (around : Surroundings) (wallet : WalletRow) (asset : AssetRow) (request : QuoteRequest)
    (f : Funding)
    → check_funding around wallet asset request ≡ ok f
    → (is_positive f.amount ≡ true)
      × (eq_text f.to.canonical wallet.address_canonical ≡ false)
      × ((if f.same_asset then f.amount.raw +ℤ f.fee.raw else f.amount.raw)
          ≤ℤ balance_of asset.id (around.balances wallet.id))
unfolding check_funding
funding_ok around wallet asset request f h = ground arith

-- The wallet of a quote, and its value, with what was tested on them.
abbrev pub IsWithinGates :
    SendingConfig
    → Surroundings
    → Text
    → QuoteRequest
    → ℕ
    → Table
    → WalletRow
    → AssetRow
    → Funding
    → ℤ
    → Type 0
IsWithinGates config around user_id request now rows wallet asset f value =
    (around.find_wallet user_id request.wallet_id ≡ some wallet)
    × (wallet.is_active ≡ true)
    × (is_managed wallet.type ≡ true)
    × (check_funding around wallet asset request ≡ ok f)
    × (around.value_token f.amount ≡ ok (some value))
    × (value ≤ℤ config.max_usd_per_tx_minor)
    × (spent_usd_minor_in_window user_id day_ms now rows +ℤ value ≤ℤ config.max_usd_per_day_minor)

valued_ok :
    (config : SendingConfig) (x : Result ErrorCode (Option ℤ)) (user_id : Text) (now : ℕ)
    (rows : Table) (valued : Option ℤ) (value : ℤ)
    → lift_app x ≡ ok valued
    → check_limits config valued user_id now rows ≡ ok value
    → x ≡ ok (some value)
unfolding check_limits
valued_ok config x user_id now rows valued value e h = ground arith

-- A quote is given only while sending is enabled in the configuration and in the database, from an
-- active managed wallet of the user, for an amount that passes the checks of the recipient and of
-- the balances, and whose valuation keeps to the cap of a transaction and, with what the user has
-- committed within the last 24 hours, to the daily cap.
pub quote_gates :
    (fp : SendRow → Text) (config : SendingConfig) (around : Surroundings) (new_id user_id : Text)
    (request : QuoteRequest) (now : ℕ) (rows : Table) (answer : SendQuote × Table)
    → quote fp config around new_id user_id request now rows ≡ ok answer
    → (config.enabled ≡ true)
      × (around.db_enabled ≡ true)
      × ((wallet : WalletRow) × (asset : AssetRow) × (f : Funding) × (value : ℤ) × IsWithinGates
            config around user_id request now rows wallet asset f value)
unfolding quote
quote_gates fp config around new_id user_id request now rows answer h =
    let (u, enabled, h1) = >>=-eq-ok _ _ h in
    let ((wallet, asset), paired, h2) = >>=-eq-ok _ _ h1 in
    let (f, funded, h3) = >>=-eq-ok _ _ h2 in
    let (valued, e, h4) = >>=-eq-ok _ _ h3 in
    let (value, limited, h5) = >>=-eq-ok _ _ h4 in
    let (on, db_on) = enabled_ok config around.db_enabled enabled in
    let (found, active, is_own) = pair_ok around user_id request wallet asset paired in
    let (per_tx, per_day) = limits_ok config valued user_id now rows value limited in
    let worth =
      valued_ok config (around.value_token f.amount) user_id now rows valued value e limited in
    (on, db_on, (wallet, asset, f, value, (found, active, is_own, funded, worth, per_tx, per_day)))
