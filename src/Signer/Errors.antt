-- ===== src/Signer/Errors.antt =====
-- The codes of `PolicyError`: apps/signer/src/policy.ts and apps/signer/src/index.ts.
pub data PolicyError : Type 0 where
  signer_misconfigured unauthorized replay_detected network_not_allowed env_mismatch : PolicyError
  recipient_not_allowed value_required per_tx_limit daily_limit signer_disabled : PolicyError
  expired already_signed key_not_found : PolicyError
