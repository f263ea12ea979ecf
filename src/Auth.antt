-- ===== src/Auth.antt =====
-- Authentication: the tables behind it and the transactions that change them, of
-- packages/db/src/client.ts and of users.ts, sessions.ts and ops.ts in packages/db/src/repositories.
pub mod Pin
pub mod InitData
pub mod Login
use wallet_bot.Base.{
  ℕ, zero, suc, ◌+◌, ◌*◌, Bool, true, false, not, ◌&&◌, ◌||◌, List, [], ◌∷◌, ◌++◌, Option, none,
  some, leb, ltb, ◌==◌, if◌then◌else◌,
}
use wallet_bot.Base.Result.{Result, ok, err}
use wallet_bot.Base.Text.{Text, eq_text, is_digit, is_empty}
use wallet_bot.Domain.Enums.{ErrorCode, internal_error}

-- The columns of `user_settings` that concern the PIN.
pub record SettingsRow : Type 0 where
  pub user_id : Text
  pub pin_hash : Option Text
  pub pin_salt : Option Text
  pub pin_set_at : Option ℕ
  pub pin_failed_count : ℕ
  pub pin_locked_until : Option ℕ

-- The columns of `users` that decide on a session.
pub record UserRow : Type 0 where
  pub id : Text
  pub telegram_id : ℕ
  pub is_admin : Bool
  pub is_active : Bool
  pub is_deleted : Bool

pub record SessionRow : Type 0 where
  pub id : Text
  pub user_id : Text
  pub token_hash : Text
  pub expires_at : ℕ
  pub revoked_at : Option ℕ

pub data AuditAction : Type 0 where
  login session_revoked pin_set pin_locked_out pin_failed : AuditAction

pub record AuditRow : Type 0 where
  pub user_id : Text
  pub action : AuditAction

-- A claimed event of the scope `initdata`.
pub record EventRow : Type 0 where
  pub key : Text
  pub expires_at : ℕ

pub record Database : Type 0 where
  pub users : List UserRow
  pub settings : List SettingsRow
  pub sessions : List SessionRow
  pub events : List EventRow
  pub audit_log : List AuditRow

pub record AuthenticatedActor : Type 0 where
  pub user_id : Text
  pub is_admin : Bool
  pub session_id : Text

-- A query or a chain of queries: its answer, or what it throws, and the tables as it leaves them.
abbrev pub Tx : Type 0 → Type 0
Tx A = Database → Result ErrorCode A × Database

abbrev pub settle :
    {A : Type 0} → Database → Result ErrorCode A × Database → Result ErrorCode A × Database
settle before (err e, inside) = (err e, before)
settle before (ok a, inside) = (ok a, inside)

-- `sql.begin`: what is thrown inside rolls every change back.
unfoldable pub begin : {A : Type 0} → Tx A → Tx A
begin fn db = settle db (fn db)

abbrev pub is_hex : ℕ → Bool
is_hex c = is_digit c || (leb b'a' c && leb c b'f') || (leb b'A' c && leb c b'F')

-- Whether the text starts with a group of so many hexadecimal digits, then goes on as tested.
abbrev pub hex_group : ℕ → (Text → Bool) → Text → Bool
hex_group zero rest s = rest s
hex_group (suc n) rest [] = false
hex_group (suc n) rest (c ∷ s) = is_hex c && hex_group n rest s

abbrev pub dash_then : (Text → Bool) → Text → Bool
dash_then rest [] = false
dash_then rest (c ∷ s) = c == b'-' && rest s

-- `UUID_PATTERN`
unfoldable pub is_uuid : Text → Bool
is_uuid = hex_group 8 (
    dash_then (
      hex_group 4
        (dash_then (hex_group 4 (dash_then (hex_group 4 (dash_then (hex_group 12 is_empty))))))))

unfoldable pub with_user : {A : Type 0} → AuthenticatedActor → Tx A → Tx A
with_user actor fn db =
    if not (is_uuid actor.user_id) then (err internal_error, db) else begin fn db

-- `withSystem`
abbrev pub with_system : {A : Type 0} → Tx A → Tx A
with_system fn = begin fn

abbrev pub get_user_settings : Text → List SettingsRow → Option SettingsRow
get_user_settings user_id [] = none
get_user_settings user_id (s ∷ rows) =
    if eq_text s.user_id user_id then some s else get_user_settings user_id rows

-- `UPDATE user_settings ... WHERE user_id = ...`
abbrev pub update_settings :
    Text → (SettingsRow → SettingsRow) → List SettingsRow → List SettingsRow
update_settings user_id change [] = []
update_settings user_id change (s ∷ rows) =
    let rest = update_settings user_id change rows in
    (if eq_text s.user_id user_id then change s else s) ∷ rest

unfoldable pub write_audit : Text → AuditAction → Database → Database
write_audit user_id action db = record db {
  audit_log = db.audit_log ++ (record { user_id = user_id; action = action } ∷ []);
}

-- `column IS NOT NULL`
abbrev pub is_set : {A : Type 0} → Option A → Bool
is_set none = false
is_set (some a) = true

-- `revokeSession`
unfoldable pub revoke_session : Text → ℕ → List SessionRow → List SessionRow
revoke_session id now [] = []
revoke_session id now (s ∷ rows) =
    let rest = revoke_session id now rows in
    (if eq_text s.id id && not (is_set s.revoked_at) then record s { revoked_at = some now } else s)
    ∷ rest

-- `revokeAllSessions` with `exceptSessionId`.
abbrev pub is_other_live : Text → Text → ℕ → SessionRow → Bool
is_other_live user_id except now s =
    eq_text s.user_id user_id
    && not (is_set s.revoked_at)
    && ltb now s.expires_at
    && not (eq_text s.id except)

unfoldable pub revoke_all_sessions : Text → Text → ℕ → List SessionRow → List SessionRow
revoke_all_sessions user_id except now [] = []
revoke_all_sessions user_id except now (s ∷ rows) =
    let rest = revoke_all_sessions user_id except now rows in
    (if is_other_live user_id except now s then record s { revoked_at = some now } else s) ∷ rest
