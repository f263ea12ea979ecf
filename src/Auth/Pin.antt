-- ===== src/Auth/Pin.antt =====
-- PINs: hashPin and verifyPin of packages/core/src/auth/tokens.ts, setPin, requirePin and hasPin of
-- service.ts in the same folder, and the statements on `user_settings` that they use.
pub mod Lockout
pub mod Guesses
pub mod Change
use wallet_bot.Base.{
  ℕ, suc, ◌+◌, ◌*◌, Bool, true, false, not, ◌&&◌, ◌||◌, List, [], ◌∷◌, ◌++◌, Option, none, some,
  length, leb, ltb, ◌==◌, if◌then◌else◌,
}
use wallet_bot.Base.Result.{Result, ok, err}
use wallet_bot.Base.Text.{Text, eq_text, all_digits, is_empty}
use wallet_bot.Domain.Enums.{
  ErrorCode, not_found, pin_not_set, pin_locked, pin_required, pin_invalid, validation_error,
}
use wallet_bot.Auth.{
  SettingsRow, Database, AuthenticatedActor, AuditAction, pin_set, pin_locked_out, pin_failed, Tx,
  with_user, get_user_settings, update_settings, write_audit, revoke_all_sessions, is_set,
}

abbrev pub pin_max_attempts : ℕ
pin_max_attempts = 5

-- `PIN_LOCK_SECONDS`, in milliseconds.
abbrev pub pin_lock_ms : ℕ
pin_lock_ms = 15 * 60 * 1000

abbrev pub pin_key_length : ℕ
pin_key_length = 32

-- Of node:crypto and Buffer: scrypt with the fixed options, and Base64.
pub record PinCrypto : Type 0 where
  pub scrypt : Text → Text → List ℕ
  pub to_base64 : List ℕ → Text
  pub from_base64 : Text → List ℕ

pub record PinCredentials : Type 0 where
  pub hash : Text
  pub salt : Text

-- `/^\d{6}$/`
unfoldable pub is_six_digits : Text → Bool
is_six_digits pin = length pin == 6 && all_digits pin

-- `${pin}:${pepper}`
abbrev pub peppered : Text → Text → Text
peppered pin pepper = pin ++ (b':' ∷ pepper)

-- The text of the random salt is an argument.
unfoldable pub hash_pin : PinCrypto → Text → Text → Text → Result ErrorCode PinCredentials
hash_pin crypto pin pepper salt =
    if not (is_six_digits pin)
    then err validation_error
    else ok
        (record { hash = crypto.to_base64 (crypto.scrypt (peppered pin pepper) salt); salt = salt })

unfoldable pub verify_pin : PinCrypto → Text → PinCredentials → Text → Bool
verify_pin crypto pin credentials pepper =
    is_six_digits pin
    && not (is_empty credentials.hash)
    && not (is_empty credentials.salt)
    && length (crypto.from_base64 credentials.hash) == pin_key_length
    && eq_text (crypto.scrypt (peppered pin pepper) credentials.salt)
        (crypto.from_base64 credentials.hash)

-- `value ?? ''`; a missing text and an empty one are both false in a condition.
abbrev pub text_of : Option Text → Text
text_of none = []
text_of (some s) = s

abbrev pub credentials_of : SettingsRow → PinCredentials
credentials_of s = record { hash = text_of s.pin_hash; salt = text_of s.pin_salt }

-- `pin_locked_until && pin_locked_until > now`
abbrev pub is_locked : Option ℕ → ℕ → Bool
is_locked none now = false
is_locked (some until) now = ltb now until

abbrev pub with_credentials : PinCredentials → ℕ → SettingsRow → SettingsRow
with_credentials credentials now s = record s {
  pin_hash = some credentials.hash;
  pin_salt = some credentials.salt;
  pin_set_at = some now;
  pin_failed_count = 0;
  pin_locked_until = none;
}

unfoldable pub set_pin_credentials : Text → PinCredentials → ℕ → Database → Database
set_pin_credentials user_id credentials now db = record db {
  settings = update_settings user_id (with_credentials credentials now) db.settings;
}

abbrev pub fail_settings : ℕ → ℕ → ℕ → SettingsRow → SettingsRow
fail_settings max_attempts lock_ms now s = record s {
  pin_failed_count = s.pin_failed_count + 1;
  pin_locked_until =
      if leb max_attempts (s.pin_failed_count + 1)
      then some (now + lock_ms)
      else s.pin_locked_until;
}

pub record PinFailure : Type 0 where
  pub failed_count : ℕ
  pub locked_until : Option ℕ

-- `row?.pin_failed_count ?? 0` and `row?.pin_locked_until ?? null`
abbrev pub failure_of : Option SettingsRow → PinFailure
failure_of none = record { failed_count = 0; locked_until = none }
failure_of (some s) = record {
  failed_count = s.pin_failed_count;
  locked_until = s.pin_locked_until;
}

unfoldable pub record_pin_failure : Text → ℕ → ℕ → ℕ → Database → PinFailure × Database
record_pin_failure user_id max_attempts lock_ms now db =
    let rows = update_settings user_id (fail_settings max_attempts lock_ms now) db.settings in
    (failure_of (get_user_settings user_id rows), record db { settings = rows })

unfoldable pub clear_pin_failures : Text → Database → Database
clear_pin_failures user_id db = record db {
  settings =
      update_settings user_id
        (λ (s : SettingsRow). record s { pin_failed_count = 0; pin_locked_until = none })
        db.settings;
}

-- The branch of a PIN that is wrong.
unfoldable pub refuse_pin : Text → PinFailure × Database → Result ErrorCode (Unit {0}) × Database
refuse_pin user_id (failure, db) =
    if is_set failure.locked_until
    then (err pin_locked, write_audit user_id pin_locked_out db)
    else (err pin_invalid, write_audit user_id pin_failed db)

unfoldable pub check_pin :
    PinCrypto → Text → Text → Option Text → ℕ → Option SettingsRow → Tx (Unit {0})
check_pin crypto pepper user_id pin now none db = (err not_found, db)
check_pin crypto pepper user_id pin now (some s) db =
    if is_empty (text_of s.pin_hash) || is_empty (text_of s.pin_salt)
    then (err pin_not_set, db)
    else if is_locked s.pin_locked_until now
    then (err pin_locked, db)
    else if is_empty (text_of pin)
    then (err pin_required, db)
    else if not (verify_pin crypto (text_of pin) (credentials_of s) pepper)
    then refuse_pin user_id (record_pin_failure user_id pin_max_attempts pin_lock_ms now db)
    else (ok tt, clear_pin_failures user_id db)

unfoldable pub require_pin : PinCrypto → Text → AuthenticatedActor → Option Text → ℕ → Tx (Unit {0})
require_pin crypto pepper actor pin now = with_user actor (λ db.
    check_pin crypto pepper actor.user_id pin now (get_user_settings actor.user_id db.settings) db)

-- What setPin does once the old PIN, if there is one, is verified.
unfoldable pub store_pin : AuthenticatedActor → ℕ → Result ErrorCode PinCredentials → Tx (Unit {0})
store_pin actor now (err e) db = (err e, db)
store_pin actor now (ok credentials) db =
    let stored = set_pin_credentials actor.user_id credentials now db in
    (
      ok tt,
      write_audit actor.user_id pin_set (record stored {
        sessions = revoke_all_sessions actor.user_id actor.session_id now stored.sessions;
      }),
    )

unfoldable pub change_pin :
    PinCrypto
    → Text
    → AuthenticatedActor
    → Text
    → Option Text
    → Text
    → ℕ
    → Option SettingsRow
    → Tx (Unit {0})
change_pin crypto pepper actor pin current_pin salt now none db = (err not_found, db)
change_pin crypto pepper actor pin current_pin salt now (some s) db =
    if not (is_empty (text_of s.pin_hash)) && is_empty (text_of current_pin)
    then (err pin_required, db)
    else if not (is_empty (text_of s.pin_hash))
        && not (verify_pin crypto (text_of current_pin) (credentials_of s) pepper)
    then (err pin_invalid, db)
    else store_pin actor now (hash_pin crypto pin pepper salt) db

unfoldable pub set_pin :
    PinCrypto → Text → AuthenticatedActor → Text → Option Text → Text → ℕ → Tx (Unit {0})
set_pin crypto pepper actor pin current_pin salt now = with_user actor (λ db.
    change_pin crypto pepper actor pin current_pin salt now
      (get_user_settings actor.user_id db.settings) db)

abbrev pub has_hash : Option SettingsRow → Bool
has_hash none = false
has_hash (some s) = not (is_empty (text_of s.pin_hash))

unfoldable pub has_pin : AuthenticatedActor → Tx Bool
has_pin actor =
    with_user actor (λ db. (ok (has_hash (get_user_settings actor.user_id db.settings)), db))
