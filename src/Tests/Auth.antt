-- ===== src/Tests/Auth.antt =====
-- PINs and logins on concrete inputs, with short stand-ins for the keyed digests.
use wallet_bot.Base.{
  ℕ, ◌≤◌, ◌≡◌, ◌≢◌, refl, true, false, List, [], ◌∷◌, ◌++◌, none, some, All, take, replicate,
  length, length-take, arith, length-append, length-replicate,
}
use wallet_bot.Base.Result.{ok, err}
use wallet_bot.Base.Text.{Text, codes}
use wallet_bot.Domain.Enums.{pin_locked}
use wallet_bot.Auth.{SettingsRow, UserRow, SessionRow, Database, AuthenticatedActor}
use wallet_bot.Auth.Pin.{PinCrypto, require_pin, set_pin, credentials_of, text_of, verify_pin}
use wallet_bot.Auth.Pin.Lockout.{calls_on, IsUncounted, never_locked}
use wallet_bot.Auth.Pin.Guesses.{Guess, calls_of, guesses_unlimited}
use wallet_bot.Auth.Pin.Change.{PinCryptoLaws, new_pin_accepted}
use wallet_bot.Auth.InitData.{Telegram, TelegramUser}
use wallet_bot.Auth.Login.{AuthConfig, Hmac, Fresh, resolve_session}
use wallet_bot.Auth.Login.Replay.{logs_in, cleans_up, Steps, opened_with, opened-le-one}
use wallet_bot.Auth.Login.Revoked.{set_pin-revokes}

-- The first 32 code units of secret and salt stand for the key, and texts for their Base64.
abbrev crypto : PinCrypto
crypto = record {
  scrypt = λ secret salt. take 32 (secret ++ salt ++ replicate 32 b'0');
  to_base64 = λ bytes. bytes;
  from_base64 = λ text. text;
}

long : (t : Text) → length (take 32 (t ++ replicate 32 b'0')) ≡ 32
long t = omega (
  arith,
  length-take 32 (t ++ replicate 32 b'0'),
  length-append t (replicate 32 b'0'),
  length-replicate {A = ℕ} 32 b'0',
)

crypto-laws : PinCryptoLaws crypto
crypto-laws = record {
  length-scrypt = λ secret salt. long (secret ++ salt);
  from_base64-to_base64 = λ secret salt. refl;
  from_base64-nil = refl;
}

abbrev alice : Text
alice = codes "00000000-0000-4000-8000-000000000001"

abbrev actor : AuthenticatedActor
actor = record { user_id = alice; is_admin = false; session_id = codes "s1" }

abbrev pepper : Text
pepper = codes "p"

abbrev settings : SettingsRow
settings = record {
  user_id = alice;
  pin_hash = some (codes "123456:psalt00000000000000000000");
  pin_salt = some (codes "salt");
  pin_set_at = some 1;
  pin_failed_count = 0;
  pin_locked_until = none;
}

abbrev session : Text → Text → SessionRow
session id token = record {
  id = id;
  user_id = alice;
  token_hash = token;
  expires_at = 9000;
  revoked_at = none;
}

abbrev token_one : Text
token_one = codes "1111111111111111111111111111111111111111"

abbrev token_two : Text
token_two = codes "2222222222222222222222222222222222222222"

abbrev database : Database
database = record {
  users =
      record { id = alice; telegram_id = 7; is_admin = false; is_active = true; is_deleted = false }
      ∷ [];
  settings = settings ∷ [];
  sessions = session (codes "s1") token_one ∷ session (codes "s2") token_two ∷ [];
  events = [];
  audit_log = [];
}

abbrev wrong : ℕ → Guess
wrong now = record { pin = some (codes "000000"); now = now }

abbrev wrong_guesses : List Guess
wrong_guesses =
    wrong 1000 ∷ wrong 1001 ∷ wrong 1002 ∷ wrong 1003 ∷ wrong 1004 ∷ wrong 1005 ∷ wrong 1006 ∷ []

abbrev right : Guess
right = record { pin = some (codes "123456"); now = 1007 }

never_locked_example :
    All
      (λ answer. answer ≢ err pin_locked)
      (calls_on crypto pepper (calls_of actor wrong_guesses) database).0
    × All IsUncounted (calls_on crypto pepper (calls_of actor wrong_guesses) database).1.settings
never_locked_example =
    never_locked crypto pepper (calls_of actor wrong_guesses) database ((refl, refl), tt)

guesses_unlimited_example :
    ((calls_on crypto pepper (calls_of actor wrong_guesses) database).1 ≡ database)
    × ((require_pin crypto pepper actor right.pin right.now
          (calls_on crypto pepper (calls_of actor wrong_guesses) database).1).0
        ≡ ok tt)
unfolding wallet_bot.Auth.is_uuid verify_pin wallet_bot.Auth.Pin.is_six_digits
guesses_unlimited_example =
    guesses_unlimited crypto pepper actor wrong_guesses right settings database refl refl
      (refl, refl) refl refl (refl, (refl, (refl, (refl, (refl, (refl, (refl, tt))))))) refl refl

abbrev changed : Database
changed =
    (set_pin crypto pepper actor (codes "654321") (some (codes "123456")) (codes "salz") 2000
      database).1

new_pin_accepted_example :
    (require_pin crypto pepper actor (some (codes "654321")) 3000 changed).0 ≡ ok tt
unfolding set_pin wallet_bot.Auth.with_user wallet_bot.Auth.is_uuid wallet_bot.Auth.begin
    wallet_bot.Auth.Pin.change_pin verify_pin wallet_bot.Auth.Pin.is_six_digits
    wallet_bot.Auth.Pin.store_pin wallet_bot.Auth.Pin.hash_pin
new_pin_accepted_example =
    new_pin_accepted crypto crypto-laws pepper actor (codes "654321") (some (codes "123456"))
      (codes "salz") 2000 3000 database changed refl refl

abbrev config : AuthConfig
config = record {
  bot_token = codes "t";
  init_data_max_age_ms = 900000;
  admin_telegram_ids = [];
  session_ttl_ms = 3600000;
  session_secret = [];
}

abbrev digest : Hmac
digest = λ secret token. token

set_pin-revokes_example : codes "s1" ≡ actor.session_id
unfolding set_pin wallet_bot.Auth.with_user wallet_bot.Auth.is_uuid wallet_bot.Auth.begin
    wallet_bot.Auth.Pin.change_pin verify_pin wallet_bot.Auth.Pin.is_six_digits
    wallet_bot.Auth.Pin.store_pin wallet_bot.Auth.Pin.hash_pin resolve_session
    wallet_bot.Auth.Login.looks_like_session_token wallet_bot.Auth.Login.find_session
    wallet_bot.Auth.write_audit wallet_bot.Auth.revoke_all_sessions
    wallet_bot.Auth.Pin.set_pin_credentials
set_pin-revokes_example =
    set_pin-revokes crypto pepper digest config actor (codes "654321") (some (codes "123456"))
      (codes "salz") token_one 2000 3000 database changed actor refl (omega arith) refl refl

abbrev telegram : Telegram
telegram = record {
  hmac = λ key message. replicate 64 b'a';
  sha256 = λ text. text;
  hex_of = λ bytes. bytes;
  parse_query = λ text.
      (codes "hash", replicate 64 b'a')
      ∷ (codes "auth_date", codes "1000")
      ∷ (codes "user", text)
      ∷ [];
  parse_user = λ text. some (record { id = 7; is_bot = none });
}

abbrev fresh : Fresh
fresh = record { user_id = alice; session_id = codes "s3"; token = token_one }

abbrev steps : Steps
steps =
    (5000, logs_in fresh (codes "x"))
    ∷ (5000, logs_in fresh (codes "x"))
    ∷ (90000000, cleans_up)
    ∷ (1, logs_in fresh (codes "x"))
    ∷ []

one_opened : opened_with telegram digest config (codes "x") steps 1000000 database ≡ 1
unfolding wallet_bot.Auth.Login.authenticate_with_telegram wallet_bot.Auth.Login.login_verified
    wallet_bot.Auth.InitData.verify_init_data wallet_bot.Auth.InitData.verify_params
    wallet_bot.Auth.InitData.is_signed wallet_bot.Auth.InitData.compute_hash
    wallet_bot.Auth.InitData.build_data_check_string wallet_bot.Auth.InitData.check_age
    wallet_bot.Auth.InitData.with_parsed_user wallet_bot.Auth.Login.login_claimed
    wallet_bot.Auth.begin wallet_bot.Auth.Login.claim_init_data wallet_bot.Auth.Login.login_user
    wallet_bot.Auth.with_user wallet_bot.Auth.is_uuid wallet_bot.Auth.Login.upsert_user
    wallet_bot.Auth.Login.upsert_telegram_user wallet_bot.Auth.Login.upsert_found
    wallet_bot.Auth.Login.ensure_user_settings wallet_bot.Auth.Login.open_session
    wallet_bot.Auth.Login.create_session wallet_bot.Auth.write_audit
    wallet_bot.Auth.Login.cleanup_expired
one_opened = refl

opened-le-one_example : opened_with telegram digest config (codes "x") steps 1000000 database ≤ 1
opened-le-one_example =
    opened-le-one telegram digest config (codes "x") steps 1000000 database (omega arith)
