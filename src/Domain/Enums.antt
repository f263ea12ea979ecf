-- ===== src/Domain/Enums.antt =====
-- Enumerations: packages/shared/src/domain/enums.ts, and the error codes of
-- packages/shared/src/errors.ts.
use wallet_bot.Base.{Bool, true, false}

pub data Network : Type 0 where
  tron ton bsc : Network

abbrev pub is_evm_network : Network → Bool
is_evm_network bsc = true
is_evm_network _ = false

abbrev pub same_network : Network → Network → Bool
same_network tron tron = true
same_network ton ton = true
same_network bsc bsc = true
same_network _ _ = false

pub data NetworkEnv : Type 0 where
  mainnet testnet : NetworkEnv

abbrev pub same_env : NetworkEnv → NetworkEnv → Bool
same_env mainnet mainnet = true
same_env testnet testnet = true
same_env _ _ = false

pub data WalletType : Type 0 where
  watch_only managed : WalletType

pub data TxStatus : Type 0 where
  pending detected confirming confirmed failed cancelled reversed : TxStatus

pub data ScheduledPaymentStatus : Type 0 where
  scheduled processing completed failed cancelled : ScheduledPaymentStatus

pub data ExpectedIncomeStatus : Type 0 where
  pending received delayed cancelled : ExpectedIncomeStatus

pub data SendRequestStatus : Type 0 where
  quoted confirmed signing broadcast completed failed cancelled expired : SendRequestStatus

-- `ERROR_CODES`.
pub data ErrorCode : Type 0 where
  unauthorized forbidden session_expired invalid_init_data init_data_expired : ErrorCode
  init_data_replayed pin_required pin_invalid pin_locked pin_not_set admin_required : ErrorCode
  validation_error payload_too_large unsupported_media_type not_found conflict : ErrorCode
  idempotency_key_reused invalid_state_transition wallet_not_found wallet_inactive : ErrorCode
  wallet_already_exists invalid_address address_network_mismatch asset_not_found : ErrorCode
  asset_not_supported network_unavailable provider_error chain_id_mismatch : ErrorCode
  transaction_not_found duplicate_transaction insufficient_balance amount_too_small : ErrorCode
  amount_too_large currency_mismatch exchange_rate_unavailable exchange_rate_stale : ErrorCode
  price_unavailable cash_account_not_found insufficient_gas gas_estimation_failed : ErrorCode
  sending_disabled send_limit_exceeded send_daily_limit_exceeded send_quote_expired : ErrorCode
  send_already_confirmed signer_unavailable signer_rejected self_transfer_not_allowed : ErrorCode
  watch_only_wallet key_generation_failed scheduled_payment_not_found schedule_in_past : ErrorCode
  schedule_not_cancellable expected_income_not_found goal_not_found category_not_found : ErrorCode
  category_in_use rate_limited internal_error service_unavailable timeout : ErrorCode
  feature_disabled : ErrorCode
