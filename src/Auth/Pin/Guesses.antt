-- ===== src/Auth/Pin/Guesses.antt =====
-- Guessing a PIN: requirePin of packages/core/src/auth/service.ts, called with wrong PINs.
use wallet_bot.Base.{
  ℕ, ◌≡◌, refl, sym, subst, ◌||◌, Bool, true, false, Bool-cases, List, [], ◌∷◌, Option, some, All,
  arith, if◌then◌else◌, inl, inr,
}
use wallet_bot.Base.Result.{Result, ok, err}
use wallet_bot.Base.Text.{Text, is_empty}
use wallet_bot.Domain.Enums.{ErrorCode}
use wallet_bot.Auth.{
  SettingsRow, Database, AuthenticatedActor, begin, settle, is_set, is_uuid, with_user,
  get_user_settings,
}
use wallet_bot.Auth.Pin.{
  PinCrypto, PinFailure, text_of, verify_pin, credentials_of, is_locked, refuse_pin, check_pin,
  require_pin,
}
use wallet_bot.Auth.Pin.Lockout.{PinCall, requires, calls_on, IsUncounted}

pub record Guess : Type 0 where
  pub pin : Option Text
  pub now : ℕ

-- The calls of requirePin that one user makes with the guesses.
abbrev pub calls_of : AuthenticatedActor → List Guess → List PinCall
calls_of actor [] = []
calls_of actor (g ∷ guesses) = requires actor g.pin g.now ∷ calls_of actor guesses

abbrev IsThrown : {A : Type 0} → Result ErrorCode A × Database → Type 0
IsThrown r = (e : ErrorCode) × (r.0 ≡ err e)

settle-IsThrown :
    {A : Type 0} (db : Database) (r : Result ErrorCode A × Database)
    → IsThrown r
    → (settle db r).1 ≡ db
settle-IsThrown db (err e, inside) thrown = refl
settle-IsThrown db (ok a, inside) thrown = absurd (ground (arith, thrown.1))

refuse-IsThrown : (user_id : Text) (r : PinFailure × Database) → IsThrown (refuse_pin user_id r)
unfolding refuse_pin
refuse-IsThrown user_id (failure, db) = elim (Bool-cases (is_set failure.locked_until)) [
  | inl e ↦ rw e (_, refl)
  | inr e ↦ rw e (_, refl)
]

if-IsThrown :
    (b : Bool) (x y : Result ErrorCode (Unit {0}) × Database)
    → IsThrown x
    → IsThrown y
    → IsThrown (if b then x else y)
if-IsThrown true x y hx hy = hx
if-IsThrown false x y hx hy = hy

wrong-IsThrown :
    (crypto : PinCrypto) (pepper user_id : Text) (pin : Option Text) (now : ℕ) (s : SettingsRow)
    (db : Database)
    → verify_pin crypto (text_of pin) (credentials_of s) pepper ≡ false
    → IsThrown (check_pin crypto pepper user_id pin now (some s) db)
unfolding check_pin
wrong-IsThrown crypto pepper user_id pin now s db wrong =
    if-IsThrown (is_empty (text_of s.pin_hash) || is_empty (text_of s.pin_salt)) _ _ (_, refl)
      (if-IsThrown (is_locked s.pin_locked_until now) _ _ (_, refl)
        (if-IsThrown (is_empty (text_of pin)) _ _ (_, refl) (rw wrong (refuse-IsThrown user_id _))))

wrong-keeps :
    (crypto : PinCrypto) (pepper : Text) (actor : AuthenticatedActor) (g : Guess) (s : SettingsRow)
    (db : Database)
    → is_uuid actor.user_id ≡ true
    → get_user_settings actor.user_id db.settings ≡ some s
    → verify_pin crypto (text_of g.pin) (credentials_of s) pepper ≡ false
    → (require_pin crypto pepper actor g.pin g.now db).1 ≡ db
unfolding require_pin with_user begin
wrong-keeps crypto pepper actor g s db uuid found wrong =
    rw (uuid, found)
      (settle-IsThrown db _ (wrong-IsThrown crypto pepper actor.user_id g.pin g.now s db wrong))

guesses-keep :
    (crypto : PinCrypto) (pepper : Text) (actor : AuthenticatedActor) (guesses : List Guess)
    (s : SettingsRow) (db : Database)
    → is_uuid actor.user_id ≡ true
    → get_user_settings actor.user_id db.settings ≡ some s
    → All
        (λ (g : Guess). verify_pin crypto (text_of g.pin) (credentials_of s) pepper ≡ false)
        guesses
    → (calls_on crypto pepper (calls_of actor guesses) db).1 ≡ db
guesses-keep crypto pepper actor [] s db uuid found wrong = refl
guesses-keep crypto pepper actor (g ∷ guesses) s db uuid found wrong =
    subst (λ d. (calls_on crypto pepper (calls_of actor guesses) d).1 ≡ db)
      (sym (wrong-keeps crypto pepper actor g s db uuid found wrong.0))
      (guesses-keep crypto pepper actor guesses s db uuid found wrong.1)

-- For a user whose id is a UUID, with a PIN, no counted failure and no lock, however many wrong guesses
-- of the PIN come first: the call of requirePin that follows with the right PIN is accepted, and the
-- wrong guesses before it left the tables as they were.
pub guesses_unlimited :
    (crypto : PinCrypto) (pepper : Text) (actor : AuthenticatedActor) (guesses : List Guess)
    (right : Guess) (s : SettingsRow) (db : Database)
    → is_uuid actor.user_id ≡ true
    → get_user_settings actor.user_id db.settings ≡ some s
    → IsUncounted s
    → is_empty (text_of s.pin_hash) ≡ false
    → is_empty (text_of s.pin_salt) ≡ false
    → All
        (λ (g : Guess). verify_pin crypto (text_of g.pin) (credentials_of s) pepper ≡ false)
        guesses
    → is_empty (text_of right.pin) ≡ false
    → verify_pin crypto (text_of right.pin) (credentials_of s) pepper ≡ true
    → let after = (calls_on crypto pepper (calls_of actor guesses) db).1 in
      (after ≡ db) × ((require_pin crypto pepper actor right.pin right.now after).0 ≡ ok tt)
unfolding require_pin with_user begin check_pin
guesses_unlimited crypto pepper actor guesses right s db uuid found free hash salt wrong given
      verified =
    let keeps = guesses-keep crypto pepper actor guesses s db uuid found wrong in
    (keeps, rw (keeps, uuid, found, hash, salt, free.1, given, verified) refl)
