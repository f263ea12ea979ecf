-- ===== src/Signer/Spending/Caps.antt =====
-- The caps hold over every history of signing requests.
use wallet_bot.Base.{
  ℕ, Bool, List, [], ◌∷◌, ◌++◌, none, some, ◌≡◌, ◌≢◌, arith, Option-cases, inl, inr, ◌⊎◌,
}
use wallet_bot.Base.Int.{ℤ, pos, ◌+ℤ◌, ◌≤ℤ◌}
use wallet_bot.Base.Result.{Result, ok, err}
use wallet_bot.Base.Text.{Text}
use wallet_bot.Signer.Errors.{PolicyError}
use wallet_bot.Signer.Spending.{
  SpendPolicyConfig, SpendRecord, SpendTracker, SpendRequest, SignRequest, SignerConfig, shift_old,
  prune, total_from, spent_minor, remember_result, enforce_spend_policy, handle_sign, record_value,
}

abbrev pub recorded : SpendTracker → ℕ → ℤ → List SpendRecord
recorded t now amount =
    shift_old t.window_ms now t.records ++ record { at = now; amount_minor = amount } ∷ []

abbrev pub spent : SpendTracker → ℕ → ℤ
spent t now = total_from (pos 0) (prune now t).records

pub policy_passes :
    (r : SpendRequest) (config : SpendPolicyConfig) (now : ℕ) (t : SpendTracker) (amount : ℤ)
    → r.value_usd_minor ≡ some amount
    → (enforce_spend_policy r config now t).0 ≡ ok tt
    → (amount ≤ℤ config.max_per_tx_minor)
      × (spent t now +ℤ amount ≤ℤ config.max_per_day_minor)
      × ((enforce_spend_policy r config now t).1 ≡ prune now t)
unfolding enforce_spend_policy spent_minor
policy_passes r config now t amount e h = ground arith

pub policy_needs_value :
    (r : SpendRequest) (config : SpendPolicyConfig) (now : ℕ) (t : SpendTracker)
    → r.value_usd_minor ≡ none
    → (enforce_spend_policy r config now t).0 ≢ ok tt
unfolding enforce_spend_policy
policy_needs_value r config now t e h = ground arith

policy_state :
    (r : SpendRequest) (config : SpendPolicyConfig) (now : ℕ) (t : SpendTracker)
    → ((enforce_spend_policy r config now t).1 ≡ t)
      ⊎ ((enforce_spend_policy r config now t).1 ≡ prune now t)
unfolding enforce_spend_policy spent_minor
policy_state r config now t = elim (Option-cases r.value_usd_minor) [
  | inl e ↦ ground arith
  | inr (amount, e) ↦ ground arith
]

module _ (has_key : SignRequest → Bool)
    (sign_transaction : SignRequest → Result PolicyError Text) where
  abbrev pub signed :
      SignerConfig → SignRequest → ℕ → SpendTracker → Result PolicyError Text × SpendTracker
  signed = handle_sign has_key sign_transaction

  -- A signature is issued only within both caps and with a valuation, and it is then recorded.
  pub sign_ok :
      (config : SignerConfig) (r : SignRequest) (now : ℕ) (t : SpendTracker) (digest : Text)
      → (signed config r now t).0 ≡ ok digest
      → (enforce_spend_policy r.spend config.policy now t).0 ≡ ok tt
        × ((signed config r now t).1
            ≡ remember_result r.idempotency_key digest (
                record_value r.spend.value_usd_minor now
                  (enforce_spend_policy r.spend config.policy now t).1))
  unfolding handle_sign
  sign_ok config r now t digest h = ground arith

  pub sign_err :
      (config : SignerConfig) (r : SignRequest) (now : ℕ) (t : SpendTracker) (e : PolicyError)
      → (signed config r now t).0 ≡ err e
      → ((signed config r now t).1 ≡ t) ⊎ ((signed config r now t).1 ≡ prune now t)
  unfolding handle_sign
  sign_err config r now t e h = ground (arith, policy_state r.spend config.policy now t)
