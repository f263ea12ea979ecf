-- ===== src/Auth/Login/Facts.antt =====
-- What verifyInitData of packages/telegram/src/initdata.ts says of a payload that it accepts.
use wallet_bot.Base.{ℕ, ◌+◌, ◌≤◌, ◌≡◌, Bool, List, Option, none, some, arith}
use wallet_bot.Base.Result.{Result, ok, throw_if, ◌>>◌}
use wallet_bot.Base.Text.{Text, codes}
use wallet_bot.Domain.Enums.{ErrorCode, invalid_init_data}
use wallet_bot.Auth.InitData.{
  Telegram, TelegramUser, VerifiedInitData, get_param, to_lower_hex, auth_date_ms, check_age,
  with_parsed_user, verify_params, verify_init_data, future_skew_ms,
}

-- The parts of a payload that do not depend on the time.
abbrev pub payload_key : Telegram → Text → Text
payload_key t payload = to_lower_hex (get_param (codes "hash") (t.parse_query payload))

abbrev pub payload_date : Telegram → Text → ℕ
payload_date t payload = auth_date_ms (t.parse_query payload)

chain-eq-ok :
    (b1 b2 b3 : Bool) (age : Result ErrorCode (Unit {0})) (b4 : Bool)
    (last : Result ErrorCode VerifiedInitData) {v : VerifiedInitData}
    → throw_if b1 invalid_init_data
        >> throw_if b2 invalid_init_data
        >> throw_if b3 invalid_init_data
        >> age
        >> throw_if b4 invalid_init_data
        >> last
      ≡ ok v
    → (age ≡ ok tt) × (last ≡ ok v)
chain-eq-ok b1 b2 b3 age b4 last ended = ground (arith, ended)

parsed-hash :
    (date : ℕ) (hash : Text) (user : Option TelegramUser) (v : VerifiedInitData)
    → with_parsed_user date hash user ≡ ok v
    → v.hash ≡ hash
unfolding with_parsed_user
parsed-hash date hash none v ended = absurd (ground (arith, ended))
parsed-hash date hash (some user) v ended = ground (arith, ended)

age-bounds :
    (max_age_ms date now : ℕ)
    → check_age max_age_ms date now ≡ ok tt
    → (now ≤ date + max_age_ms) × (date ≤ now + future_skew_ms)
unfolding check_age
age-bounds max_age_ms date now fine = ground (arith, fine)

params-eq-ok :
    (t : Telegram) (bot_token : Text) (max_age_ms now : ℕ) (params : List (Text × Text))
    (v : VerifiedInitData)
    → verify_params t bot_token max_age_ms now params ≡ ok v
    → (check_age max_age_ms (auth_date_ms params) now ≡ ok tt)
      × (with_parsed_user
            (auth_date_ms params)
            (to_lower_hex (get_param (codes "hash") params))
            (t.parse_user (get_param (codes "user") params))
          ≡ ok v)
unfolding verify_params
params-eq-ok t bot_token max_age_ms now params v ended = chain-eq-ok _ _ _ _ _ _ ended

verify-params :
    (t : Telegram) (bot_token : Text) (max_age_ms now : ℕ) (payload : Text) (v : VerifiedInitData)
    → verify_init_data t bot_token max_age_ms now payload ≡ ok v
    → verify_params t bot_token max_age_ms now (t.parse_query payload) ≡ ok v
unfolding verify_init_data
verify-params t bot_token max_age_ms now payload v ended = ground (arith, ended)

-- An accepted payload is remembered under its own hash, is not too old and not from too far ahead.
pub verify-eq-ok :
    (t : Telegram) (bot_token : Text) (max_age_ms now : ℕ) (payload : Text) (v : VerifiedInitData)
    → verify_init_data t bot_token max_age_ms now payload ≡ ok v
    → (v.hash ≡ payload_key t payload)
      × (now ≤ payload_date t payload + max_age_ms)
      × (payload_date t payload ≤ now + future_skew_ms)
verify-eq-ok t bot_token max_age_ms now payload v ended =
    let (fine, parsed) =
      params-eq-ok t bot_token max_age_ms now _ v
        (verify-params t bot_token max_age_ms now payload v ended) in
    let (late, early) = age-bounds max_age_ms _ now fine in
    (parsed-hash _ _ _ v parsed, late, early)
