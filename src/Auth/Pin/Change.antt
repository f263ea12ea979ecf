-- ===== src/Auth/Pin/Change.antt =====
-- Changing a PIN: setPin of packages/core/src/auth/service.ts, and what requirePin and
-- resolveSession answer after it.
use wallet_bot.Base.{
  ℕ, ◌≡◌, ◌⊎◌, refl, sym, subst, ◌∙◌, ap, true, false, Bool-cases, List, [], ◌∷◌, Option, none,
  some, arith, length, inl, inr,
}
use wallet_bot.Base.Result.{Result, ok, err, Result-cases}
use wallet_bot.Base.Text.{Text, eq_text, eq_text_refl, is_empty}
use wallet_bot.Domain.Enums.{ErrorCode}
use wallet_bot.Auth.{
  SettingsRow, Database, AuthenticatedActor, Tx, begin, settle, is_uuid, with_user,
  get_user_settings, update_settings, write_audit,
}
use wallet_bot.Auth.Pin.{
  PinCrypto, PinCredentials, is_six_digits, peppered, text_of, hash_pin, verify_pin, credentials_of,
  pin_key_length, with_credentials, set_pin_credentials, check_pin, require_pin, store_pin,
  change_pin, set_pin,
}

-- What Node's documentation says of scrypt and Base64: the key has the length asked for, Base64 of
-- bytes reads back as the bytes.
pub record PinCryptoLaws (crypto : PinCrypto) : Type 0 where
  pub length-scrypt : (secret salt : Text) → length (crypto.scrypt secret salt) ≡ pin_key_length
  pub from_base64-to_base64 :
      (secret salt : Text)
      → crypto.from_base64 (crypto.to_base64 (crypto.scrypt secret salt))
        ≡ crypto.scrypt secret salt
  pub from_base64-nil : crypto.from_base64 [] ≡ []

module _ (crypto : PinCrypto) (laws : PinCryptoLaws crypto) (pin pepper salt : Text) where
  abbrev pub made : PinCredentials
  made = record { hash = crypto.to_base64 (crypto.scrypt (peppered pin pepper) salt); salt = salt }

  pub hash_pin-eq-ok :
      (credentials : PinCredentials)
      → hash_pin crypto pin pepper salt ≡ ok credentials
      → (is_six_digits pin ≡ true) × (made ≡ credentials)
  unfolding hash_pin
  hash_pin-eq-ok credentials hashed = elim (Bool-cases (is_six_digits pin)) [
    | inl e ↦ (e, ground (arith, e, hashed))
    | inr e ↦ absurd (ground (arith, e, hashed))
  ]

  to_base64-not_empty : is_empty made.hash ≡ false
  to_base64-not_empty =
      go made.hash (laws.from_base64-to_base64 (peppered pin pepper) salt)
        (laws.length-scrypt (peppered pin pepper) salt)
    where
      go :
          {key : List ℕ} (t : Text)
          → crypto.from_base64 t ≡ key
          → length key ≡ pin_key_length
          → is_empty t ≡ false
      go [] back long = ground (arith, back, long, laws.from_base64-nil)
      go (c ∷ t) back long = refl

  pub verify-made :
      is_six_digits pin ≡ true → is_empty salt ≡ false → verify_pin crypto pin made pepper ≡ true
  unfolding verify_pin
  verify-made six salted =
      rw
        (
          six,
          to_base64-not_empty,
          salted,
          laws.from_base64-to_base64 (peppered pin pepper) salt,
          laws.length-scrypt (peppered pin pepper) salt,
          eq_text_refl (crypto.scrypt (peppered pin pepper) salt),
        )
        refl

pub settle-eq-ok :
    {A : Type 0} (db : Database) (r : Result ErrorCode A × Database) {a : A} {after : Database}
    → settle db r ≡ (ok a, after)
    → r ≡ (ok a, after)
settle-eq-ok db (err e, inside) ended = absurd (ground (arith, ended))
settle-eq-ok db (ok a, inside) ended = ended

-- A transaction that ends well was run for a user, and nothing of it was rolled back.
pub with_user-eq-ok :
    {A : Type 0} (actor : AuthenticatedActor) (fn : Tx A) (db : Database) {a : A} {after : Database}
    → with_user actor fn db ≡ (ok a, after)
    → (is_uuid actor.user_id ≡ true) × (fn db ≡ (ok a, after))
unfolding with_user begin
with_user-eq-ok actor fn db ended = elim (Bool-cases (is_uuid actor.user_id)) [
  | inl e ↦ (e, settle-eq-ok db (fn db) (ground (arith, e, ended)))
  | inr e ↦ absurd (ground (arith, e, ended))
]

-- What setPin has tested and done when it ends well.
pub record Changed (crypto : PinCrypto) (pepper : Text) (actor : AuthenticatedActor) (pin : Text)
    (current_pin : Option Text) (salt : Text) (now : ℕ) (db after : Database) : Type 0 where
  pub settings : SettingsRow
  pub found : get_user_settings actor.user_id db.settings ≡ some settings
  pub current :
      (is_empty (text_of settings.pin_hash) ≡ true)
      ⊎ (verify_pin crypto (text_of current_pin) (credentials_of settings) pepper ≡ true)
  pub credentials : PinCredentials
  pub hashed : hash_pin crypto pin pepper salt ≡ ok credentials
  pub stored : store_pin actor now (ok credentials) db ≡ (ok tt, after)

change-Changed :
    (crypto : PinCrypto) (pepper : Text) (actor : AuthenticatedActor) (pin : Text)
    (current_pin : Option Text) (salt : Text) (now : ℕ) (db after : Database)
    (found : Option SettingsRow)
    → get_user_settings actor.user_id db.settings ≡ found
    → change_pin crypto pepper actor pin current_pin salt now found db ≡ (ok tt, after)
    → Changed crypto pepper actor pin current_pin salt now db after
unfolding change_pin store_pin
change-Changed crypto pepper actor pin current_pin salt now db after none found ended =
    absurd (ground (arith, ended))
change-Changed crypto pepper actor pin current_pin salt now db after (some s) found ended =
    let tested : (is_empty (text_of s.pin_hash) ≡ true)
        ⊎ (verify_pin crypto (text_of current_pin) (credentials_of s) pepper ≡ true) =
      ground (arith, ended) in
    let last : store_pin actor now (hash_pin crypto pin pepper salt) db ≡ (ok tt, after) =
      ground (arith, ended) in
    elim (Result-cases (hash_pin crypto pin pepper salt)) [
      | inl (credentials, hashed) ↦ record {
        settings = s;
        found = found;
        current = tested;
        credentials = credentials;
        hashed = hashed;
        stored = subst (λ r. store_pin actor now r db ≡ (ok tt, after)) hashed last;
      }
      | inr (e, hashed) ↦ absurd (ground (arith, hashed, last))
    ]

pub set_pin-Changed :
    (crypto : PinCrypto) (pepper : Text) (actor : AuthenticatedActor) (pin : Text)
    (current_pin : Option Text) (salt : Text) (now : ℕ) (db after : Database)
    → set_pin crypto pepper actor pin current_pin salt now db ≡ (ok tt, after)
    → (is_uuid actor.user_id ≡ true) × Changed crypto pepper actor pin current_pin salt now db after
unfolding set_pin
set_pin-Changed crypto pepper actor pin current_pin salt now db after ended =
    let (uuid, inside) = with_user-eq-ok actor _ db ended in
    (uuid, change-Changed crypto pepper actor pin current_pin salt now db after _ refl inside)

settle-fst :
    {A : Type 0} (db : Database) (r : Result ErrorCode A × Database) → (settle db r).0 ≡ r.0
settle-fst db (err e, inside) = refl
settle-fst db (ok a, inside) = refl

found-head :
    (user_id : Text) (s : SettingsRow) (rows : List SettingsRow)
    → eq_text s.user_id user_id ≡ true
    → get_user_settings user_id (s ∷ rows) ≡ some s
found-head user_id s rows e = rw e refl

-- The settings of the user after the update of the user's row.
found-update :
    (user_id : Text) (change : SettingsRow → SettingsRow) (rows : List SettingsRow)
    (s : SettingsRow)
    → ((t : SettingsRow) → (change t).user_id ≡ t.user_id)
    → get_user_settings user_id rows ≡ some s
    → get_user_settings user_id (update_settings user_id change rows) ≡ some (change s)
found-update user_id change [] s same found = absurd (ground (arith, found))
found-update user_id change (r ∷ rows) s same found =
    elim (Bool-cases (eq_text r.user_id user_id)) [
      | inl e ↦ rw e (
          found-head user_id (change r) _ (rw (same r) e)
          ∙ ap (λ t. some (change t)) (ground (arith, e, found)))
      | inr e ↦ ground (arith, e, found, found-update user_id change rows s same)
    ]

six_digits-not_empty : (pin : Text) → is_six_digits pin ≡ true → is_empty pin ≡ false
unfolding is_six_digits
six_digits-not_empty [] six = cc
six_digits-not_empty (c ∷ pin) six = refl

check_pin-made :
    (crypto : PinCrypto) (laws : PinCryptoLaws crypto) (pepper user_id pin salt : Text) (later : ℕ)
    (s : SettingsRow) (db : Database)
    → is_six_digits pin ≡ true
    → is_empty salt ≡ false
    → s.pin_locked_until ≡ none
    → credentials_of s ≡ made crypto laws pin pepper salt
    → (check_pin crypto pepper user_id (some pin) later (some s) db).0 ≡ ok tt
unfolding check_pin
check_pin-made crypto laws pepper user_id pin salt later s db six salted free same =
    rw
      (
        ap (λ (c : PinCredentials). c.hash) same,
        ap (λ (c : PinCredentials). c.salt) same,
        to_base64-not_empty crypto laws pin pepper salt,
        salted,
        free,
        six_digits-not_empty pin six,
        verify-made crypto laws pin pepper salt six salted,
      )
      refl

-- With scrypt and Base64 as documented: after a call of setPin that ends well, with a salt that is not
-- empty, requirePin accepts the new PIN of the same user at every time.
pub new_pin_accepted :
    (crypto : PinCrypto) (laws : PinCryptoLaws crypto) (pepper : Text) (actor : AuthenticatedActor)
    (pin : Text) (current_pin : Option Text) (salt : Text) (now later : ℕ) (db after : Database)
    → is_empty salt ≡ false
    → set_pin crypto pepper actor pin current_pin salt now db ≡ (ok tt, after)
    → (require_pin crypto pepper actor (some pin) later after).0 ≡ ok tt
unfolding require_pin with_user begin store_pin set_pin_credentials write_audit
new_pin_accepted crypto laws pepper actor pin current_pin salt now later db after salted ended =
    let (uuid, c) = set_pin-Changed crypto pepper actor pin current_pin salt now db after ended in
    let (six, same) = hash_pin-eq-ok crypto laws pin pepper salt c.credentials c.hashed in
    let found =
      found-update actor.user_id (with_credentials c.credentials now) db.settings c.settings
        (λ t. refl) c.found in
    let stored = with_credentials c.credentials now c.settings in
    let here =
      subst (λ rows. get_user_settings actor.user_id rows ≡ some stored)
        (ap (λ (r : Result ErrorCode (Unit {0}) × Database). r.1.settings) c.stored) found in
    rw
      (
        uuid,
        settle-fst after (
            check_pin crypto pepper actor.user_id (some pin) later
              (get_user_settings actor.user_id after.settings) after),
        here,
      )
      (check_pin-made crypto laws pepper actor.user_id pin salt later stored after six salted refl
        (sym same))
