-- ===== src/Auth/Login/Events.antt =====
-- The claimed events over a login: authenticateWithTelegram of packages/core/src/auth/service.ts.
use wallet_bot.Base.{ℕ, ◌≡◌, inl, inr, refl, ◌∙◌, Bool, true, false, Bool-cases, Option, none, some}
use wallet_bot.Base.Result.{Result, ok, err}
use wallet_bot.Base.Text.{Text}
use wallet_bot.Domain.Enums.{ErrorCode}
use wallet_bot.Auth.{
  Database, UserRow, AuthenticatedActor, Tx, begin, settle, with_user, write_audit,
  get_user_settings, is_set, is_uuid,
}
use wallet_bot.Auth.InitData.{VerifiedInitData}
use wallet_bot.Auth.Login.{
  AuthConfig, Hmac, Fresh, has_event, claim_init_data, upsert_user, upsert_telegram_user,
  upsert_found, ensure_user_settings, open_session, create_session, login_user, login_claimed,
  login_verified,
}

abbrev pub is_ok : {A : Type 0} → Result ErrorCode A → Bool
is_ok (ok a) = true
is_ok (err e) = false

module _ (hmac : Hmac) (config : AuthConfig) where
  -- What is claimed of every event stays claimed over a login.
  events_with_user :
      {A : Type 0} (actor : AuthenticatedActor) (fn : Tx A) (db : Database)
      → (fn db).1.events ≡ db.events
      → (with_user actor fn db).1.events ≡ db.events
  unfolding with_user begin
  events_with_user actor fn db same = elim (Bool-cases (is_uuid actor.user_id)) [
    | inl e ↦ rw e (go (fn db) same)
    | inr e ↦ rw e refl
  ]
    where
      go :
          {A : Type 0} (r : Result ErrorCode A × Database)
          → r.1.events ≡ db.events
          → (settle db r).1.events ≡ db.events
      go (ok a, inside) h = h
      go (err a, inside) h = refl

  events_login_user :
      (fresh : Fresh) (now : ℕ) (r : Result ErrorCode UserRow × Database)
      → (login_user hmac config fresh now r).1.events ≡ r.1.events
  unfolding login_user open_session write_audit create_session
  events_login_user fresh now (err e, db) = refl
  events_login_user fresh now (ok user, db) = elim (Bool-cases user.is_active) [
    | inl e ↦ rw e (events_with_user _ (open_session hmac config fresh user now) db refl)
    | inr e ↦ rw e refl
  ]

  events_ensure :
      (user_id : Text) (db : Database) → (ensure_user_settings user_id db).events ≡ db.events
  unfolding ensure_user_settings
  events_ensure user_id db = elim (Bool-cases (is_set (get_user_settings user_id db.settings))) [
    | inl e ↦ rw e refl
    | inr e ↦ rw e refl
  ]

  events_found :
      (id : ℕ) (make_admin : Bool) (new_id : Text) (found : Option UserRow) (db : Database)
      → (upsert_found id make_admin new_id found db).1.events ≡ db.events
  unfolding upsert_found
  events_found id make_admin new_id none db = refl
  events_found id make_admin new_id (some u) db = refl

  events_upsert :
      (id : ℕ) (make_admin : Bool) (new_id : Text) (db : Database)
      → (begin (upsert_user id make_admin new_id) db).1.events ≡ db.events
  unfolding begin upsert_user upsert_telegram_user
  events_upsert id make_admin new_id db = events_ensure _ _ ∙ events_found id make_admin new_id _ db

  events_claimed :
      (fresh : Fresh) (now : ℕ) (v : VerifiedInitData) (r : Result ErrorCode Bool × Database)
      → (login_claimed hmac config fresh now v r).1.events ≡ r.1.events
  unfolding login_claimed
  events_claimed fresh now v (err e, db) = refl
  events_claimed fresh now v (ok false, db) = refl
  events_claimed fresh now v (ok true, db) =
      events_login_user fresh now _ ∙ events_upsert v.user.id _ fresh.user_id db

  -- A login with a verified payload leaves the claimed events as the claim does.
  pub events_verified :
      (fresh : Fresh) (now : ℕ) (v : VerifiedInitData) (db : Database)
      → (login_verified hmac config fresh now (ok v) db).1.events
        ≡ (claim_init_data v.hash now db).1.events
  unfolding login_verified begin claim_init_data
  events_verified fresh now v db = elim (Bool-cases (has_event v.hash db.events)) [
    | inl e ↦ rw e (events_claimed fresh now v _)
    | inr e ↦ rw e (events_claimed fresh now v _)
  ]

  -- A login with a payload that is claimed is refused.
  pub claimed-refused :
      (fresh : Fresh) (now : ℕ) (v : VerifiedInitData) (db : Database)
      → has_event v.hash db.events ≡ true
      → is_ok (login_verified hmac config fresh now (ok v) db).0 ≡ false
  unfolding login_verified begin claim_init_data login_claimed
  claimed-refused fresh now v db held = rw held refl

  pub failed-refused :
      (fresh : Fresh) (now : ℕ) (e : ErrorCode) (db : Database)
      → is_ok (login_verified hmac config fresh now (err e) db).0 ≡ false
  unfolding login_verified
  failed-refused fresh now e db = refl
