-- ===== src/Auth/Login.antt =====
-- Logging in: authenticateWithTelegram, resolveSession and revokeSession of
-- packages/core/src/auth/service.ts, the token functions of tokens.ts beside it, and the statements
-- on users, sessions and claimed events that they use.
pub mod Facts
pub mod Events
pub mod Held
pub mod Replay
pub mod Revoked
use wallet_bot.Base.{
  ℕ, ◌+◌, ◌*◌, Bool, true, false, not, ◌&&◌, ◌||◌, List, [], ◌∷◌, ◌++◌, Option, none, some, length,
  leb, ltb, ◌==◌, if◌then◌else◌,
}
use wallet_bot.Base.Result.{Result, ok, err}
use wallet_bot.Base.Text.{Text, eq_text, is_digit, is_empty}
use wallet_bot.Domain.Enums.{
  ErrorCode, service_unavailable, init_data_replayed, forbidden, internal_error,
}
use wallet_bot.Auth.{
  SettingsRow, UserRow, SessionRow, AuditAction, login, session_revoked, EventRow, Database,
  AuthenticatedActor, Tx, with_user, with_system, get_user_settings, write_audit, revoke_session,
  is_set,
}
use wallet_bot.Auth.InitData.{Telegram, TelegramUser, VerifiedInitData, verify_init_data}

-- `INIT_DATA_REPLAY_TTL_SECONDS`, in milliseconds.
abbrev pub replay_ttl_ms : ℕ
replay_ttl_ms = 24 * 60 * 60 * 1000

pub record AuthConfig : Type 0 where
  pub bot_token : Text
  pub init_data_max_age_ms : ℕ
  pub admin_telegram_ids : List ℕ
  pub session_ttl_ms : ℕ
  pub session_secret : Text

-- The keyed digest of node:crypto, in hexadecimal.
abbrev pub Hmac : Type 0
Hmac = Text → Text → Text

abbrev pub hash_session_token : Hmac → Text → Text → Text
hash_session_token hmac secret token = hmac secret token

abbrev pub is_token_char : ℕ → Bool
is_token_char c =
    is_digit c || (leb b'a' c && leb c b'z') || (leb b'A' c && leb c b'Z') || c == b'_' || c == b'-'

abbrev pub all_token_chars : Text → Bool
all_token_chars [] = true
all_token_chars (c ∷ s) = is_token_char c && all_token_chars s

-- `/^[A-Za-z0-9_-]{40,64}$/`
unfoldable pub looks_like_session_token : Text → Bool
looks_like_session_token token =
    leb 40 (length token) && leb (length token) 64 && all_token_chars token

-- claim_event of the scope `initdata`, which always has a lifetime.
abbrev pub has_event : Text → List EventRow → Bool
has_event key [] = false
has_event key (e ∷ events) = eq_text e.key key || has_event key events

unfoldable pub claim_init_data : Text → ℕ → Tx Bool
claim_init_data key now db = if has_event key db.events then (ok false, db) else (
  ok true,
  record db { events = record { key = key; expires_at = now + replay_ttl_ms } ∷ db.events },
)

-- cleanup_expired, of the claimed events.
abbrev pub keep_events : ℕ → List EventRow → List EventRow
keep_events now [] = []
keep_events now (e ∷ events) =
    let rest = keep_events now events in if ltb e.expires_at now then rest else e ∷ rest

unfoldable pub cleanup_expired : ℕ → Database → Database
cleanup_expired now db = record db { events = keep_events now db.events }

abbrev pub has_id : ℕ → List ℕ → Bool
has_id id [] = false
has_id id (n ∷ ids) = n == id || has_id id ids

abbrev pub refresh_user : ℕ → Bool → UserRow → UserRow
refresh_user telegram_id make_admin u =
    if u.telegram_id == telegram_id then record u { is_admin = u.is_admin || make_admin } else u

abbrev pub find_telegram_user : ℕ → List UserRow → Option UserRow
find_telegram_user telegram_id [] = none
find_telegram_user telegram_id (u ∷ users) =
    if u.telegram_id == telegram_id then some u else find_telegram_user telegram_id users

abbrev pub refresh_users : ℕ → Bool → List UserRow → List UserRow
refresh_users telegram_id make_admin [] = []
refresh_users telegram_id make_admin (u ∷ users) =
    refresh_user telegram_id make_admin u ∷ refresh_users telegram_id make_admin users

-- The insertion, or the update of the row that is there; the id of a new row is given.
unfoldable pub upsert_found : ℕ → Bool → Text → Option UserRow → Database → UserRow × Database
upsert_found telegram_id make_admin new_id (some u) db = (
  refresh_user telegram_id make_admin u,
  record db { users = refresh_users telegram_id make_admin db.users },
)
upsert_found telegram_id make_admin new_id none db =
    let u : UserRow = record {
      id = new_id;
      telegram_id = telegram_id;
      is_admin = make_admin;
      is_active = true;
      is_deleted = false;
    } in
    (u, record db { users = db.users ++ (u ∷ []) })

unfoldable pub upsert_telegram_user : ℕ → Bool → Text → Database → UserRow × Database
upsert_telegram_user telegram_id make_admin new_id db =
    upsert_found telegram_id make_admin new_id (find_telegram_user telegram_id db.users) db

abbrev pub empty_settings : Text → SettingsRow
empty_settings user_id = record {
  user_id = user_id;
  pin_hash = none;
  pin_salt = none;
  pin_set_at = none;
  pin_failed_count = 0;
  pin_locked_until = none;
}

unfoldable pub ensure_user_settings : Text → Database → Database
ensure_user_settings user_id db =
    if is_set (get_user_settings user_id db.settings)
    then db
    else record db { settings = db.settings ++ (empty_settings user_id ∷ []) }

unfoldable pub upsert_user : ℕ → Bool → Text → Tx UserRow
upsert_user telegram_id make_admin new_id db =
    let (user, stored) = upsert_telegram_user telegram_id make_admin new_id db in
    (ok user, ensure_user_settings user.id stored)

-- What random generators and the tables' defaults give a call.
pub record Fresh : Type 0 where
  pub user_id : Text
  pub session_id : Text
  pub token : Text

unfoldable pub create_session : SessionRow → Database → Database
create_session row db = record db { sessions = db.sessions ++ (row ∷ []) }

abbrev pub settings_or : Option SettingsRow → Result ErrorCode SettingsRow
settings_or none = err internal_error
settings_or (some s) = ok s

unfoldable pub open_session : Hmac → AuthConfig → Fresh → UserRow → ℕ → Tx SettingsRow
open_session hmac config fresh user now db =
    let row : SessionRow = record {
      id = fresh.session_id;
      user_id = user.id;
      token_hash = hash_session_token hmac config.session_secret fresh.token;
      expires_at = now + config.session_ttl_ms;
      revoked_at = none;
    } in
    let opened = write_audit user.id login (create_session row db) in
    (settings_or (get_user_settings user.id opened.settings), opened)

unfoldable pub login_user :
    Hmac
    → AuthConfig
    → Fresh
    → ℕ
    → Result ErrorCode UserRow × Database
    → Result ErrorCode SettingsRow × Database
login_user hmac config fresh now (err e, db) = (err e, db)
login_user hmac config fresh now (ok user, db) =
    if not user.is_active
    then (err forbidden, db)
    else with_user
        (record { user_id = user.id; is_admin = user.is_admin; session_id = fresh.session_id })
        (open_session hmac config fresh user now) db

unfoldable pub login_claimed :
    Hmac
    → AuthConfig
    → Fresh
    → ℕ
    → VerifiedInitData
    → Result ErrorCode Bool × Database
    → Result ErrorCode SettingsRow × Database
login_claimed hmac config fresh now verified (err e, db) = (err e, db)
login_claimed hmac config fresh now verified (ok false, db) = (err init_data_replayed, db)
login_claimed hmac config fresh now verified (ok true, db) =
    let id = verified.user.id in
    login_user hmac config fresh now
      (with_system (upsert_user id (has_id id config.admin_telegram_ids) fresh.user_id) db)

unfoldable pub login_verified :
    Hmac → AuthConfig → Fresh → ℕ → Result ErrorCode VerifiedInitData → Tx SettingsRow
login_verified hmac config fresh now (err e) db = (err e, db)
login_verified hmac config fresh now (ok verified) db =
    login_claimed hmac config fresh now verified
      (with_system (claim_init_data verified.hash now) db)

unfoldable pub authenticate_with_telegram :
    Telegram → Hmac → AuthConfig → Fresh → Text → ℕ → Tx SettingsRow
authenticate_with_telegram telegram hmac config fresh init_data now db =
    if is_empty config.bot_token
    then (err service_unavailable, db)
    else login_verified hmac config fresh now
        (verify_init_data telegram config.bot_token config.init_data_max_age_ms now init_data) db

-- The condition on a session and on its user.
abbrev pub is_live : Text → ℕ → SessionRow → Bool
is_live token_hash now s =
    eq_text s.token_hash token_hash && not (is_set s.revoked_at) && ltb now s.expires_at

abbrev pub find_active_user : Text → List UserRow → Option UserRow
find_active_user id [] = none
find_active_user id (u ∷ users) =
    if eq_text u.id id && not u.is_deleted && u.is_active then some u else find_active_user id users

abbrev pub with_its_user :
    SessionRow → Option UserRow → Option (SessionRow × UserRow) → Option (SessionRow × UserRow)
with_its_user s none rest = rest
with_its_user s (some u) rest = some (s, u)

-- The rows of the join, of which the first one is taken.
unfoldable pub find_session :
    Text → ℕ → List UserRow → List SessionRow → Option (SessionRow × UserRow)
find_session token_hash now users [] = none
find_session token_hash now users (s ∷ sessions) =
    let rest = find_session token_hash now users sessions in
    if is_live token_hash now s
    then with_its_user s (find_active_user s.user_id users) rest
    else rest

abbrev pub actor_of : Option (SessionRow × UserRow) → Option AuthenticatedActor
actor_of none = none
actor_of (some (s, u)) = some (record { user_id = u.id; is_admin = u.is_admin; session_id = s.id })

-- The change of `last_used_at` is left out.
unfoldable pub resolve_session : Hmac → AuthConfig → Text → ℕ → Database → Option AuthenticatedActor
resolve_session hmac config token now db =
    if not (looks_like_session_token token)
    then none
    else actor_of (
        find_session (hash_session_token hmac config.session_secret token) now db.users db.sessions)

-- `revokeSession` of the service.
unfoldable pub sign_out : AuthenticatedActor → ℕ → Tx (Unit {0})
sign_out actor now = with_user actor (λ db. (
  ok tt,
  write_audit actor.user_id session_revoked
      (record db { sessions = revoke_session actor.session_id now db.sessions }),
))
