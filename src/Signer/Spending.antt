-- ===== src/Signer/Spending.antt =====
-- Spend policy of the signer: apps/signer/src/policy.ts, `SpendTracker` and `enforceSpendPolicy`, and
-- apps/signer/src/index.ts, `handleSign`, which awaits nothing, so that each request is handled as
-- one step.
pub mod Window
pub mod Caps
pub mod History
use wallet_bot.Base.{
  ℕ, ◌+◌, ◌*◌, Bool, true, false, List, [], ◌∷◌, ◌++◌, Option, none, some, ltb, if◌then◌else◌,
  length, ◌&&◌, ◌||◌, not,
}
use wallet_bot.Base.Int.{ℤ, pos, ◌+ℤ◌, ltb_ℤ}
use wallet_bot.Base.Result.{Result, ok, err, ◌>>=◌, ◌>>◌, throw_if}
use wallet_bot.Base.Text.{Text, eq_text, is_empty}
use wallet_bot.Domain.Enums.{Network, NetworkEnv, same_network, same_env}
use wallet_bot.Signer.Errors.{
  PolicyError, network_not_allowed, env_mismatch, recipient_not_allowed, value_required,
  per_tx_limit, daily_limit, signer_disabled, signer_misconfigured, expired, already_signed,
  key_not_found,
}

pub record SpendPolicyConfig : Type 0 where
  pub max_per_tx_minor : ℤ
  pub max_per_day_minor : ℤ
  pub allowed_recipients : List Text
  pub allowed_networks : List Network
  pub env : NetworkEnv

-- Times are milliseconds since the epoch.
pub record SpendRecord : Type 0 where
  pub at : ℕ
  pub amount_minor : ℤ

pub record SpendTracker : Type 0 where
  pub records : List SpendRecord
  pub processed : List (Text × Text)
  pub window_ms : ℕ

-- `while (records.length > 0 && records[0].at < now - windowMs) records.shift()`.
abbrev pub shift_old : ℕ → ℕ → List SpendRecord → List SpendRecord
shift_old window now [] = []
shift_old window now (r ∷ records) =
    let rest = shift_old window now records in if ltb (r.at + window) now then rest else r ∷ records

unfoldable pub prune : ℕ → SpendTracker → SpendTracker
prune now t = record t { records = shift_old t.window_ms now t.records }

abbrev pub total_from : ℤ → List SpendRecord → ℤ
total_from total [] = total
total_from total (r ∷ records) = total_from (total +ℤ r.amount_minor) records

unfoldable pub spent_minor : ℕ → SpendTracker → SpendTracker × ℤ
spent_minor now t = let t' = prune now t in (t', total_from (pos 0) t'.records)

-- `record`, which is a word of this language.
unfoldable pub record_spend : ℤ → ℕ → SpendTracker → SpendTracker
record_spend amount now t =
    let t' = prune now t in
    record t' { records = t'.records ++ record { at = now; amount_minor = amount } ∷ [] }

abbrev pub map_get : Text → List (Text × Text) → Option Text
map_get key [] = none
map_get key ((k, v) ∷ m) = if eq_text k key then some v else map_get key m

abbrev map_set : Text → Text → List (Text × Text) → List (Text × Text)
map_set key v [] = (key, v) ∷ []
map_set key v ((k, w) ∷ m) = if eq_text k key then (k, v) ∷ m else (k, w) ∷ map_set key v m

unfoldable pub remember_result : Text → Text → SpendTracker → SpendTracker
remember_result key digest t =
    let kept = if ltb 10_000 (length t.processed) then [] else t.processed in
    record t { processed = map_set key digest kept }

unfoldable pub previous_result : Text → SpendTracker → Option Text
previous_result key t = map_get key t.processed

pub record SpendRequest : Type 0 where
  pub network : Network
  pub env : NetworkEnv
  pub to : Text
  pub value_usd_minor : Option ℤ

abbrev includes_network : List Network → Network → Bool
includes_network [] n = false
includes_network (m ∷ networks) n = same_network m n || includes_network networks n

abbrev includes_text : List Text → Text → Bool
includes_text [] s = false
includes_text (t ∷ texts) s = eq_text t s || includes_text texts s

abbrev is_nonempty : {A : Type 0} → List A → Bool
is_nonempty [] = false
is_nonempty (x ∷ xs) = true

-- The last test of `enforceSpendPolicy` prunes the tracker, also where it throws.
abbrev daily_test :
    ℤ → SpendPolicyConfig → SpendTracker × ℤ → Result PolicyError (Unit {0}) × SpendTracker
daily_test amount config (t, spent) =
    (throw_if (ltb_ℤ config.max_per_day_minor (spent +ℤ amount)) daily_limit, t)

abbrev limit_tests :
    Option ℤ → SpendPolicyConfig → ℕ → SpendTracker → Result PolicyError (Unit {0}) × SpendTracker
limit_tests none config now t = (err value_required, t)
limit_tests (some amount) config now t =
    if ltb_ℤ config.max_per_tx_minor amount
    then (err per_tx_limit, t)
    else daily_test amount config (spent_minor now t)

unfoldable pub enforce_spend_policy :
    SpendRequest
    → SpendPolicyConfig
    → ℕ
    → SpendTracker
    → Result PolicyError (Unit {0}) × SpendTracker
enforce_spend_policy r config now t =
    if not (includes_network config.allowed_networks r.network)
    then (err network_not_allowed, t)
    else if not (same_env r.env config.env)
    then (err env_mismatch, t)
    else if is_nonempty config.allowed_recipients
        && not (includes_text config.allowed_recipients r.to)
    then (err recipient_not_allowed, t)
    else limit_tests r.value_usd_minor config now t

-- A signing request, once its body has been parsed. The expiry is absent where the text of it is
-- no date.
pub record SignRequest : Type 0 where
  pub idempotency_key : Text
  pub spend : SpendRequest
  pub from_address : Text
  pub expires_at : Option ℕ

pub record SignerConfig : Type 0 where
  pub enabled : Bool
  pub has_master_key : Bool
  pub policy : SpendPolicyConfig

abbrev is_past : Option ℕ → ℕ → Bool
is_past none now = false
is_past (some t) now = ltb t now

-- A previous result is a digest, and the empty text is false where a condition reads it.
abbrev is_known : Option Text → Bool
is_known none = false
is_known (some digest) = not (is_empty digest)

abbrev record_value : Option ℤ → ℕ → SpendTracker → SpendTracker
record_value none now t = t
record_value (some amount) now t = record_spend amount now t

-- `keystore.find` and `signTransaction` are parameters: whether there is a key for the request, and
-- the digest of the signature or the error that signing throws.
module _ (has_key : SignRequest → Bool)
    (sign_transaction : SignRequest → Result PolicyError Text) where
  abbrev after_signing :
      Result PolicyError Text
      → SignRequest
      → ℕ
      → SpendTracker
      → Result PolicyError Text × SpendTracker
  after_signing (err e) r now t = (err e, t)
  after_signing (ok digest) r now t = (
    ok digest,
    remember_result r.idempotency_key digest (record_value r.spend.value_usd_minor now t),
  )

  abbrev after_policy :
      Result PolicyError (Unit {0}) × SpendTracker
      → SignRequest
      → ℕ
      → Result PolicyError Text × SpendTracker
  after_policy (err e, t) r now = (err e, t)
  after_policy (ok u, t) r now =
      if not (has_key r) then (err key_not_found, t) else after_signing (sign_transaction r) r now t

  unfoldable pub handle_sign :
      SignerConfig → SignRequest → ℕ → SpendTracker → Result PolicyError Text × SpendTracker
  handle_sign config r now t =
      if not config.enabled
      then (err signer_disabled, t)
      else if not config.has_master_key
      then (err signer_misconfigured, t)
      else if is_past r.expires_at now
      then (err expired, t)
      else if is_known (previous_result r.idempotency_key t)
      then (err already_signed, t)
      else after_policy (enforce_spend_policy r.spend config.policy now t) r now
