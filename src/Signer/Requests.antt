-- ===== src/Signer/Requests.antt =====
-- Request authentication of the signer: apps/signer/src/policy.ts, `NonceCache` and
-- `verifySignedRequest`.
pub mod Replay
pub mod Accept
use wallet_bot.Base.{
  ℕ, zero, suc, ◌+◌, ◌-◌, ◌*◌, Bool, true, false, List, [], ◌∷◌, ◌++◌, Option, none, some, ltb, leb,
  ◌==◌, if◌then◌else◌, length, ◌&&◌, ◌||◌, not,
}
use wallet_bot.Base.Result.{Result, ok, err, ◌>>=◌, ◌>>◌, throw_if}
use wallet_bot.Base.Text.{Text, eq_text, is_digit, all_digits, is_empty}
use wallet_bot.Base.Text.Digits.{value}
use wallet_bot.Signer.Errors.{PolicyError, signer_misconfigured, unauthorized, replay_detected}

abbrev pub max_clock_skew_ms : ℕ
max_clock_skew_ms = 60_000

-- The default lifetime of an entry.
abbrev pub nonce_ttl_ms : ℕ
nonce_ttl_ms = max_clock_skew_ms * 2

-- `seen`: nonces with their expiry, in the order of insertion.
abbrev pub Seen : Type 0
Seen = List (Text × ℕ)

abbrev pub has : Text → Seen → Bool
has nonce [] = false
has nonce ((key, expiry) ∷ seen) = eq_text key nonce || has nonce seen

-- Deletes each entry whose expiry has come.
abbrev pub drop_expired : ℕ → Seen → Seen
drop_expired now [] = []
drop_expired now ((key, expiry) ∷ seen) =
    let rest = drop_expired now seen in if leb expiry now then rest else (key, expiry) ∷ rest

unfoldable pub evict : ℕ → Seen → Seen
evict now seen = let kept = drop_expired now seen in if ltb 50_000 (length kept) then [] else kept

-- The new cache, and whether the nonce was free.
unfoldable pub claim : ℕ → Text → ℕ → Seen → Seen × Bool
claim ttl nonce now seen =
    let kept = evict now seen in
    if has nonce kept then (kept, false) else (kept ++ (nonce, now + ttl) ∷ [], true)

-- `toUpperCase` on the ASCII letters that a method name consists of.
abbrev to_upper : Text → Text
to_upper [] = []
to_upper (c ∷ s) = (if leb b'a' c && leb c b'z' then c - 32 else c) ∷ to_upper s

abbrev pub to_lower : Text → Text
to_lower [] = []
to_lower (c ∷ s) = (if leb b'A' c && leb c b'Z' then c + 32 else c) ∷ to_lower s

-- `/^[0-9a-f]$/`.
abbrev is_hex : ℕ → Bool
is_hex c = is_digit c || (leb b'a' c && leb c b'f')

abbrev all_hex : Text → Bool
all_hex [] = true
all_hex (c ∷ s) = is_hex c && all_hex s

-- `/^[A-Za-z0-9_-]$/`.
abbrev is_nonce_char : ℕ → Bool
is_nonce_char c =
    (leb b'A' c && leb c b'Z') || (leb b'a' c && leb c b'z') || is_digit c || c == b'_' || c == b'-'

abbrev all_nonce_chars : Text → Bool
all_nonce_chars [] = true
all_nonce_chars (c ∷ s) = is_nonce_char c && all_nonce_chars s

abbrev has_length : ℕ → ℕ → Text → Bool
has_length low high s = leb low (length s) && leb (length s) high

abbrev is_timestamp : Text → Bool
is_timestamp s = has_length 10 16 s && all_digits s

abbrev is_nonce : Text → Bool
is_nonce s = has_length 8 64 s && all_nonce_chars s

abbrev is_signature : Text → Bool
is_signature s = has_length 64 64 s && all_hex s

-- A header: absent, or its text. The empty text is false where a condition reads it.
abbrev is_missing : Option Text → Bool
is_missing none = true
is_missing (some s) = is_empty s

abbrev pub text_of : Option Text → Text
text_of none = []
text_of (some s) = s

pub record SignedRequest : Type 0 where
  pub secret : Text
  pub method : Text
  pub path : Text
  pub body : Text
  pub timestamp : Option Text
  pub nonce : Option Text
  pub signature : Option Text

abbrev after_claim : Seen × Bool → Result PolicyError (Unit {0}) × Seen
after_claim (seen, free) = (throw_if (not free) replay_detected, seen)

-- The claim of the nonce, if the tests before it threw nothing.
abbrev after_check :
    Result PolicyError (Unit {0}) → Text → ℕ → Seen → Result PolicyError (Unit {0}) × Seen
after_check (err e) nonce now seen = (err e, seen)
after_check (ok u) nonce now seen = after_claim (claim nonce_ttl_ms nonce now seen)

-- The node runtime's `createHmac('sha256', key).update(text).digest('hex')` is a parameter. Both
-- digests of the last test are hex texts of 32 bytes, and bytes are equal just where these are.
module _ (hmac_hex : Text → Text → Text) where
  unfoldable pub canonical_request : Text → Text → Text → Text → Text → Text
  canonical_request method path timestamp nonce body =
      to_upper method
      ++ (b'\n'
          ∷ (path
              ++ (b'\n'
                  ∷ (timestamp
                      ++ (b'\n'
                          ∷ (nonce ++ (b'\n' ∷ hmac_hex (b'b' ∷ b'o' ∷ b'd' ∷ b'y' ∷ []) body)))))))

  unfoldable pub expected_signature : SignedRequest → Text
  expected_signature r =
      hmac_hex r.secret
        (canonical_request r.method r.path (text_of r.timestamp) (text_of r.nonce) r.body)

  -- The tests of `verifySignedRequest` that come before the nonce is claimed.
  unfoldable pub check_request : SignedRequest → ℕ → Result PolicyError (Unit {0})
  check_request r now = do
    throw_if (is_empty r.secret) signer_misconfigured
    throw_if (is_missing r.timestamp || is_missing r.nonce || is_missing r.signature) unauthorized
    throw_if (not (is_timestamp (text_of r.timestamp))) unauthorized
    throw_if (not (is_nonce (text_of r.nonce))) unauthorized
    let sent = value (text_of r.timestamp)
    throw_if (ltb max_clock_skew_ms ((now - sent) + (sent - now))) unauthorized
    let received = to_lower (text_of r.signature)
    throw_if (not (is_signature received)) unauthorized
    throw_if (not (eq_text (expected_signature r) received)) unauthorized

  unfoldable pub verify_signed_request :
      SignedRequest → ℕ → Seen → Result PolicyError (Unit {0}) × Seen
  verify_signed_request r now seen = after_check (check_request r now) (text_of r.nonce) now seen
