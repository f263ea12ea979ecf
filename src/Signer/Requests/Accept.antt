-- ===== src/Signer/Requests/Accept.antt =====
-- What `verifySignedRequest` accepts: an authentic request within its time window, once.
use wallet_bot.Base.{ℕ, ◌+◌, ◌≤◌, ◌<◌, true, false, List, [], ◌≡◌, ◌≢◌, ap, arith, length, All}
use wallet_bot.Base.Result.{Result, ok, err}
use wallet_bot.Base.Text.{Text, eq_text, eq_text_sound}
use wallet_bot.Base.Text.Digits.{value}
use wallet_bot.Signer.Errors.{PolicyError}
use wallet_bot.Signer.Requests.{
  Seen, claim, SignedRequest, check_request, verify_signed_request, expected_signature,
  nonce_ttl_ms, max_clock_skew_ms, text_of, to_lower, after_check,
}
use wallet_bot.Signer.Requests.Replay.{claim_all, claim_once, claim_at_expiry}

-- The time that the request states.
abbrev pub sent_at : SignedRequest → ℕ
sent_at r = value (text_of r.timestamp)

after_check_lem :
    (c : Result PolicyError (Unit {0})) (nonce : Text) (now : ℕ) (seen : Seen)
    → (after_check c nonce now seen).0 ≡ ok tt
    → (c ≡ ok tt)
      × ((claim nonce_ttl_ms nonce now seen).1 ≡ true)
      × ((after_check c nonce now seen).1 ≡ (claim nonce_ttl_ms nonce now seen).0)
after_check_lem (ok u) nonce now seen h = ground arith
after_check_lem (err e) nonce now seen h = absurd (cc)

after_check_ok :
    (c : Result PolicyError (Unit {0})) (nonce : Text) (now : ℕ) (seen : Seen)
    → c ≡ ok tt
    → (claim nonce_ttl_ms nonce now seen).1 ≡ true
    → after_check c nonce now seen ≡ (ok tt, (claim nonce_ttl_ms nonce now seen).0)
after_check_ok c nonce now seen e free = rw e (ground arith)

module _ (hmac_hex : Text → Text → Text) (r : SignedRequest) where
  check_lem :
      (now : ℕ)
      → check_request hmac_hex r now ≡ ok tt
      → (eq_text (expected_signature hmac_hex r) (to_lower (text_of r.signature)) ≡ true)
        × (now ≤ sent_at r + max_clock_skew_ms)
        × (sent_at r ≤ now + max_clock_skew_ms)
  unfolding check_request
  check_lem now h = ground arith

  verify_lem :
      (now : ℕ) (seen : Seen)
      → (verify_signed_request hmac_hex r now seen).0 ≡ ok tt
      → (check_request hmac_hex r now ≡ ok tt)
        × ((claim nonce_ttl_ms (text_of r.nonce) now seen).1 ≡ true)
        × ((verify_signed_request hmac_hex r now seen).1
            ≡ (claim nonce_ttl_ms (text_of r.nonce) now seen).0)
  unfolding verify_signed_request
  verify_lem now seen h =
      after_check_lem (check_request hmac_hex r now) (text_of r.nonce) now seen h

  -- A request that is accepted carries the signature that the secret gives for exactly its method,
  -- path, time, nonce and body, and the time it states is at most a minute away.
  pub accepted_authentic :
      (now : ℕ) (seen : Seen)
      → (verify_signed_request hmac_hex r now seen).0 ≡ ok tt
      → (expected_signature hmac_hex r ≡ to_lower (text_of r.signature))
        × (now ≤ sent_at r + max_clock_skew_ms)
        × (sent_at r ≤ now + max_clock_skew_ms)
  accepted_authentic now seen h =
      let (same, late, early) = check_lem now (verify_lem now seen h).0 in
      (eq_text_sound _ _ same, late, early)

  -- An accepted request is refused when it is sent again at the same or any later moment, except
  -- for the moment exactly two minutes after its acceptance, after any other claims within these
  -- two minutes that the cache has room for.
  pub accepted_once :
      (start now : ℕ) (seen : Seen) (later : List (Text × ℕ))
      → (verify_signed_request hmac_hex r start seen).0 ≡ ok tt
      → length seen + 1 + length later ≤ 50_000
      → All (λ c. c.1 < start + nonce_ttl_ms) later
      → start ≤ now
      → now ≢ start + nonce_ttl_ms
      → (verify_signed_request hmac_hex r now
          (claim_all nonce_ttl_ms later (verify_signed_request hmac_hex r start seen).1)).0
        ≢ ok tt
  accepted_once start now seen later first room early le ne again =
      let (checked, free, cache) = verify_lem start seen first in
      let state = claim_all nonce_ttl_ms later (verify_signed_request hmac_hex r start seen).1 in
      let (checked', free', cache') = verify_lem now state again in
      let window = check_lem start checked in
      let window' = check_lem now checked' in
      let refused =
        claim_once nonce_ttl_ms (text_of r.nonce) start now seen later free room early
          (omega (arith, window.2, window'.1)) in
      impossible cache refused free'
    where
      impossible :
          {a b : Seen}
          → a ≡ b
          → (claim nonce_ttl_ms (text_of r.nonce) now (claim_all nonce_ttl_ms later b)).1 ≡ false
          → (claim nonce_ttl_ms (text_of r.nonce) now (claim_all nonce_ttl_ms later a)).1 ≡ true
          → ⊥
      impossible e no' yes' = cc

  check_later :
      (start : ℕ)
      → check_request hmac_hex r start ≡ ok tt
      → sent_at r ≡ start + max_clock_skew_ms
      → check_request hmac_hex r (start + nonce_ttl_ms) ≡ ok tt
  unfolding check_request
  check_later start checked ahead = ground arith

  -- A request that passes the checks before its nonce is claimed and whose stated time is exactly a
  -- minute ahead is accepted on an empty cache, and the same request is accepted again exactly two
  -- minutes later.
  pub accepted_twice :
      (start : ℕ)
      → check_request hmac_hex r start ≡ ok tt
      → sent_at r ≡ start + max_clock_skew_ms
      → let first = verify_signed_request hmac_hex r start [] in
        (first.0 ≡ ok tt)
        × ((verify_signed_request hmac_hex r (start + nonce_ttl_ms) first.1).0 ≡ ok tt)
  unfolding verify_signed_request
  accepted_twice start checked ahead =
      let (free, free') = claim_at_expiry nonce_ttl_ms start (text_of r.nonce) in
      let first =
        after_check_ok (check_request hmac_hex r start) (text_of r.nonce) start [] checked free in
      let again = check_later start checked ahead in
      (
        ap (λ p. p.0) first,
        rw first (
            ap (λ p. p.0)
              (after_check_ok (check_request hmac_hex r (start + nonce_ttl_ms)) (text_of r.nonce)
                (start + nonce_ttl_ms) _ again free')),
      )
