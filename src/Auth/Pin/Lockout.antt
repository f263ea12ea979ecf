-- ===== src/Auth/Pin/Lockout.antt =====
-- What the counter of wrong PINs comes to: requirePin and setPin of
-- packages/core/src/auth/service.ts, one call after another.
use wallet_bot.Base.{
  ℕ, ◌≡◌, ◌≢◌, refl, Bool, true, false, not, ◌||◌, ◌&&◌, Bool-cases, List, [], ◌∷◌, Option, none,
  some, All, arith, if◌then◌else◌, inl, inr,
}
use wallet_bot.Base.Result.{Result, ok, err}
use wallet_bot.Base.Text.{Text, eq_text, is_empty}
use wallet_bot.Domain.Enums.{ErrorCode, pin_locked}
use wallet_bot.Auth.{
  SettingsRow, Database, AuthenticatedActor, Tx, begin, settle, is_uuid, with_user,
  get_user_settings, update_settings, write_audit, is_set,
}
use wallet_bot.Auth.Pin.{
  PinCrypto, PinCredentials, text_of, verify_pin, is_six_digits, credentials_of, refuse_pin,
  record_pin_failure, failure_of, fail_settings, check_pin, require_pin, store_pin, change_pin,
  set_pin, clear_pin_failures, set_pin_credentials, hash_pin, pin_max_attempts, pin_lock_ms,
}

-- A call of requirePin or of setPin, by any user.
pub data PinCall : Type 0 where
  requires : AuthenticatedActor → Option Text → ℕ → PinCall
  sets : AuthenticatedActor → Text → Option Text → Text → ℕ → PinCall

abbrev pub call : PinCrypto → Text → PinCall → Tx (Unit {0})
call crypto pepper (requires actor pin now) = require_pin crypto pepper actor pin now
call crypto pepper (sets actor pin current_pin salt now) =
    set_pin crypto pepper actor pin current_pin salt now

-- The answers of the calls, one after another, and the tables after them.
abbrev pub calls_on :
    PinCrypto → Text → List PinCall → Database → List (Result ErrorCode (Unit {0})) × Database
calls_on crypto pepper [] db = ([], db)
calls_on crypto pepper (c ∷ calls) db =
    let (answer, after) = call crypto pepper c db in
    let (answers, last) = calls_on crypto pepper calls after in (answer ∷ answers, last)

-- No failure is counted, and no lock is set.
abbrev pub IsUncounted : SettingsRow → Type 0
IsUncounted s = (s.pin_failed_count ≡ 0) × (s.pin_locked_until ≡ none)

update-IsUncounted :
    (user_id : Text) (change : SettingsRow → SettingsRow) (rows : List SettingsRow)
    → ((s : SettingsRow) → IsUncounted s → IsUncounted (change s))
    → All IsUncounted rows
    → All IsUncounted (update_settings user_id change rows)
update-IsUncounted user_id change [] keeps h = tt
update-IsUncounted user_id change (s ∷ rows) keeps h = (
  either (eq_text s.user_id user_id) (change s) s (keeps s h.0) h.0,
  update-IsUncounted user_id change rows keeps h.1,
)
  where
    either :
        (b : Bool) (x y : SettingsRow)
        → IsUncounted x
        → IsUncounted y
        → IsUncounted (if b then x else y)
    either true x y hx hy = hx
    either false x y hx hy = hy

-- Right after a first failure no lock is set.
failure-not_set :
    (user_id : Text) (now : ℕ) (rows : List SettingsRow)
    → All IsUncounted rows
    → is_set
        (failure_of (
          get_user_settings user_id (
            update_settings user_id
              (fail_settings pin_max_attempts pin_lock_ms now)
              rows))).locked_until
      ≡ false
failure-not_set user_id now [] h = refl
failure-not_set user_id now (s ∷ rows) h = elim (Bool-cases (eq_text s.user_id user_id)) [
  | inl e ↦ ground (arith, h.0, e)
  | inr e ↦ ground (arith, failure-not_set user_id now rows h.1, e)
]

-- What a transaction may do: end with another error than `pin_locked`, or leave no failure counted.
abbrev IsFair : Result ErrorCode (Unit {0}) × Database → Type 0
IsFair (err e, db) = e ≢ pin_locked
IsFair (ok u, db) = All IsUncounted db.settings

abbrev IsFairCall : Result ErrorCode (Unit {0}) × Database → Type 0
IsFairCall r = (r.0 ≢ err pin_locked) × All IsUncounted r.1.settings

settle-IsFairCall :
    (db : Database) (r : Result ErrorCode (Unit {0}) × Database)
    → All IsUncounted db.settings
    → IsFair r
    → IsFairCall (settle db r)
settle-IsFairCall db (err e, inside) h fair = ((λ same. fair (ground (arith, same))), h)
settle-IsFairCall db (ok u, inside) h fair = ((λ same. cc), fair)

with_user-IsFairCall :
    (actor : AuthenticatedActor) (fn : Tx (Unit {0})) (db : Database)
    → All IsUncounted db.settings
    → IsFair (fn db)
    → IsFairCall (with_user actor fn db)
unfolding with_user begin
with_user-IsFairCall actor fn db h fair = elim (Bool-cases (is_uuid actor.user_id)) [
  | inl e ↦ rw e (settle-IsFairCall db (fn db) h fair)
  | inr e ↦ rw e ((λ same. cc), h)
]

refuse-IsFair :
    (user_id : Text) (now : ℕ) (db : Database)
    → All IsUncounted db.settings
    → IsFair (refuse_pin user_id (record_pin_failure user_id pin_max_attempts pin_lock_ms now db))
unfolding refuse_pin record_pin_failure
refuse-IsFair user_id now db h = rw (failure-not_set user_id now db.settings h) λ same. cc

if-IsFair :
    (b : Bool) (x y : Result ErrorCode (Unit {0}) × Database)
    → IsFair x
    → IsFair y
    → IsFair (if b then x else y)
if-IsFair true x y hx hy = hx
if-IsFair false x y hx hy = hy

check-IsFair :
    (crypto : PinCrypto) (pepper user_id : Text) (pin : Option Text) (now : ℕ)
    (found : Option SettingsRow) (db : Database)
    → ((s : SettingsRow) → found ≡ some s → s.pin_locked_until ≡ none)
    → All IsUncounted db.settings
    → IsFair (check_pin crypto pepper user_id pin now found db)
unfolding check_pin clear_pin_failures
check-IsFair crypto pepper user_id pin now none db unlocked h = λ same. cc
check-IsFair crypto pepper user_id pin now (some s) db unlocked h = rw (unlocked s refl) (
    if-IsFair (is_empty (text_of s.pin_hash) || is_empty (text_of s.pin_salt)) _ _ (λ same. cc)
      (if-IsFair (is_empty (text_of pin)) _ _ (λ same. cc)
        (if-IsFair (not (verify_pin crypto (text_of pin) (credentials_of s) pepper)) _ _
          (refuse-IsFair user_id now db h)
          (update-IsUncounted user_id _ db.settings (λ (t : SettingsRow) k. (refl, refl)) h))))

abbrev IsNotLocked : Result ErrorCode PinCredentials → Type 0
IsNotLocked (err e) = e ≢ pin_locked
IsNotLocked (ok c) = Unit

store-IsFair :
    (actor : AuthenticatedActor) (now : ℕ) (credentials : Result ErrorCode PinCredentials)
    (db : Database)
    → IsNotLocked credentials
    → All IsUncounted db.settings
    → IsFair (store_pin actor now credentials db)
unfolding store_pin set_pin_credentials write_audit
store-IsFair actor now (err e) db other h = other
store-IsFair actor now (ok credentials) db other h =
    update-IsUncounted actor.user_id _ db.settings (λ (t : SettingsRow) k. (refl, refl)) h

hash-IsNotLocked :
    (crypto : PinCrypto) (pin pepper salt : Text) → IsNotLocked (hash_pin crypto pin pepper salt)
unfolding hash_pin
hash-IsNotLocked crypto pin pepper salt = elim (Bool-cases (is_six_digits pin)) [
  | inl e ↦ rw e tt
  | inr e ↦ rw e λ same. cc
]

change-IsFair :
    (crypto : PinCrypto) (pepper : Text) (actor : AuthenticatedActor) (pin : Text)
    (current_pin : Option Text) (salt : Text) (now : ℕ) (found : Option SettingsRow) (db : Database)
    → All IsUncounted db.settings
    → IsFair (change_pin crypto pepper actor pin current_pin salt now found db)
unfolding change_pin
change-IsFair crypto pepper actor pin current_pin salt now none db h = λ same. cc
change-IsFair crypto pepper actor pin current_pin salt now (some s) db h =
    if-IsFair (not (is_empty (text_of s.pin_hash)) && is_empty (text_of current_pin)) _ _
      (λ same. cc)
      (if-IsFair
        (not (is_empty (text_of s.pin_hash))
          && not (verify_pin crypto (text_of current_pin) (credentials_of s) pepper))
        _ _ (λ same. cc)
        (store-IsFair actor now (hash_pin crypto pin pepper salt) db
          (hash-IsNotLocked crypto pin pepper salt) h))

found-unlocked :
    (user_id : Text) (rows : List SettingsRow) (s : SettingsRow)
    → All IsUncounted rows
    → get_user_settings user_id rows ≡ some s
    → s.pin_locked_until ≡ none
found-unlocked user_id [] s h found = absurd cc
found-unlocked user_id (r ∷ rows) s h found = elim (Bool-cases (eq_text r.user_id user_id)) [
  | inl e ↦ ground (arith, h.0, e, found)
  | inr e ↦ found-unlocked user_id rows s h.1 (ground (arith, e, found))
]

call-IsFairCall :
    (crypto : PinCrypto) (pepper : Text) (c : PinCall) (db : Database)
    → All IsUncounted db.settings
    → IsFairCall (call crypto pepper c db)
unfolding require_pin set_pin
call-IsFairCall crypto pepper (requires actor pin now) db h = with_user-IsFairCall actor _ db h (
    check-IsFair crypto pepper actor.user_id pin now _ db
      (λ s found. found-unlocked actor.user_id db.settings s h found) h)
call-IsFairCall crypto pepper (sets actor pin current_pin salt now) db h =
    with_user-IsFairCall actor _ db h
      (change-IsFair crypto pepper actor pin current_pin salt now _ db h)

-- From tables where no failure is counted and no lock is set, every sequence of calls of requirePin
-- and setPin, of any users with any PINs at any times, leaves every counter at zero and every lock
-- unset, and no call of it answers that the PIN is locked.
pub never_locked :
    (crypto : PinCrypto) (pepper : Text) (calls : List PinCall) (db : Database)
    → All IsUncounted db.settings
    → All (λ answer. answer ≢ err pin_locked) (calls_on crypto pepper calls db).0
      × All IsUncounted (calls_on crypto pepper calls db).1.settings
never_locked crypto pepper [] db h = (tt, h)
never_locked crypto pepper (c ∷ calls) db h =
    let fair = call-IsFairCall crypto pepper c db h in
    let rest = never_locked crypto pepper calls _ fair.1 in ((fair.0, rest.0), rest.1)
