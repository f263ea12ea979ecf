-- ===== src/Tests/Signer.antt =====
-- The signer's checks on concrete inputs, with a keyed hash that is constant.
use wallet_bot.Base.{
  ℕ, ◌+◌, ◌≤◌, ◌≡◌, ◌≢◌, refl, true, Bool, List, [], ◌∷◌, some, none, arith, replicate,
}
use wallet_bot.Base.Int.{ℤ, pos, ◌≤ℤ◌}
use wallet_bot.Base.Result.{Result, ok}
use wallet_bot.Base.Text.{Text, codes}
use wallet_bot.Domain.Enums.{tron, testnet}
use wallet_bot.Signer.Errors.{PolicyError}
use wallet_bot.Signer.Requests.{
  SignedRequest, check_request, verify_signed_request, expected_signature, to_lower, nonce_ttl_ms,
  max_clock_skew_ms, claim, evict,
}
use wallet_bot.Signer.Requests.Replay.{claim_all}
use wallet_bot.Signer.Requests.Accept.{sent_at, accepted_authentic, accepted_once, accepted_twice}
use wallet_bot.Signer.Spending.{SpendTracker, SignRequest, SignerConfig}
use wallet_bot.Signer.Spending.Window.{keep_recent, sum}
use wallet_bot.Signer.Spending.History.{handle_all, daily_cap}

abbrev digest_text : Text
digest_text = replicate 64 b'a'

abbrev constant_hash : Text → Text → Text
constant_hash key message = digest_text

abbrev request_at : Text → SignedRequest
request_at timestamp = record {
  secret = codes "secret";
  method = codes "post";
  path = codes "/sign";
  body = codes "{}";
  timestamp = some timestamp;
  nonce = some (codes "nonce_01");
  signature = some digest_text;
}

abbrev request : SignedRequest
request = request_at (codes "1000060000")

accepted_run : (verify_signed_request constant_hash request 1_000_000_000 []).0 ≡ ok tt
unfolding verify_signed_request check_request expected_signature claim evict
accepted_run = refl

checked_run : check_request constant_hash request 1_000_000_000 ≡ ok tt
unfolding check_request expected_signature
checked_run = refl

accepted_authentic_example :
    (expected_signature constant_hash request ≡ to_lower digest_text)
    × (1_000_000_000 ≤ sent_at request + max_clock_skew_ms)
    × (sent_at request ≤ 1_000_000_000 + max_clock_skew_ms)
accepted_authentic_example = accepted_authentic constant_hash request 1_000_000_000 [] accepted_run

later_now : 1_000_000_001 ≢ 1_000_000_000 + nonce_ttl_ms
later_now h = omega arith

accepted_once_example :
    (verify_signed_request constant_hash request 1_000_000_001 (
      claim_all nonce_ttl_ms [] (verify_signed_request constant_hash request 1_000_000_000 []).1)).0
    ≢ ok tt
accepted_once_example =
    accepted_once constant_hash request 1_000_000_000 1_000_000_001 [] [] accepted_run (omega arith)
      tt (omega arith) later_now

accepted_twice_example :
    ((verify_signed_request constant_hash request 1_000_000_000 []).0 ≡ ok tt)
    × ((verify_signed_request constant_hash request
          (1_000_000_000 + nonce_ttl_ms)
          (verify_signed_request constant_hash request 1_000_000_000 []).1).0
        ≡ ok tt)
accepted_twice_example = accepted_twice constant_hash request 1_000_000_000 checked_run refl

abbrev signer_config : SignerConfig
signer_config = record {
  enabled = true;
  has_master_key = true;
  policy = record {
    max_per_tx_minor = pos 500;
    max_per_day_minor = pos 800;
    allowed_recipients = [];
    allowed_networks = tron ∷ [];
    env = testnet;
  };
}

abbrev sign_request : Text → ℤ → SignRequest
sign_request key amount = record {
  idempotency_key = key;
  spend = record { network = tron; env = testnet; to = codes "T1"; value_usd_minor = some amount };
  from_address = codes "T0";
  expires_at = none;
}

abbrev fresh_tracker : SpendTracker
fresh_tracker = record { records = []; processed = []; window_ms = 86_400_000 }

abbrev any_key : SignRequest → Bool
any_key r = true

abbrev sign_with_key : SignRequest → Result PolicyError Text
sign_with_key r = ok (codes "digest")

abbrev two_requests : List (SignRequest × ℕ)
two_requests =
    (sign_request (codes "k1") (pos 450), 1000) ∷ (sign_request (codes "k2") (pos 450), 2000) ∷ []

not_negative : (n : ℕ) (amount : ℤ) → some (pos n) ≡ some amount → pos 0 ≤ℤ amount
not_negative n amount h = ground arith

daily_cap_example :
    sum (
      keep_recent
        (handle_all any_key sign_with_key signer_config two_requests fresh_tracker []).0.window_ms
        3000
        (handle_all any_key sign_with_key signer_config two_requests fresh_tracker []).1)
    ≤ℤ pos 800
daily_cap_example =
    daily_cap any_key sign_with_key signer_config two_requests 3000 fresh_tracker refl
      (ground arith) (omega arith, not_negative 450, (omega arith, not_negative 450, omega arith))
