-- ===== src/Auth/Login/Revoked.antt =====
-- What is left of a user's sessions once the PIN is changed: setPin and resolveSession of
-- packages/core/src/auth/service.ts.
use wallet_bot.Base.{
  ℕ, ◌≤◌, ◌≡◌, inl, inr, refl, sym, subst, ap, ◌∙◌, true, false, Bool-cases, not, ◌&&◌, List, [],
  ◌∷◌, Option, none, some, arith, if◌then◌else◌,
}
use wallet_bot.Base.Result.{Result, ok}
use wallet_bot.Base.Text.{Text, eq_text, eq_text_refl, eq_text_sound}
use wallet_bot.Domain.Enums.{ErrorCode}
use wallet_bot.Auth.{
  Database, SessionRow, UserRow, AuthenticatedActor, revoke_all_sessions, is_other_live,
  write_audit,
}
use wallet_bot.Auth.Pin.{PinCrypto, set_pin, store_pin, set_pin_credentials}
use wallet_bot.Auth.Pin.Change.{set_pin-Changed}
use wallet_bot.Auth.Login.{
  AuthConfig, Hmac, is_live, find_active_user, with_its_user, find_session, actor_of,
  resolve_session, hash_session_token,
}

-- A session of the user that is found is the excepted one.
abbrev IsKept : Text → Text → Option AuthenticatedActor → Type 0
IsKept user_id except none = Unit
IsKept user_id except (some actor) = actor.user_id ≡ user_id → actor.session_id ≡ except

same-id : {id : Text} (v u : UserRow) → v ≡ u → v.id ≡ id → u.id ≡ id
same-id {id} v u same e = subst (λ (w : UserRow). w.id ≡ id) same e

found-id :
    (id : Text) (users : List UserRow) (u : UserRow)
    → find_active_user id users ≡ some u
    → u.id ≡ id
found-id id [] u found = absurd cc
found-id id (v ∷ users) u found =
    elim (Bool-cases (eq_text v.id id && not v.is_deleted && v.is_active)) [
      | inl e ↦ same-id v u (ground (arith, e, found)) (eq_text_sound v.id id (ground (arith, e)))
      | inr e ↦ found-id id users u (ground (arith, e, found))
    ]

-- The row of a session, whether or not it is the one that is found.
with_its_user-IsKept :
    (user_id except : Text) (s : SessionRow) (found : Option UserRow)
    (rest : Option (SessionRow × UserRow))
    → ((u : UserRow) → found ≡ some u → u.id ≡ s.user_id)
    → (s.user_id ≡ user_id → s.id ≡ except)
    → IsKept user_id except (actor_of rest)
    → IsKept user_id except (actor_of (with_its_user s found rest))
with_its_user-IsKept user_id except s none rest owner here h = h
with_its_user-IsKept user_id except s (some u) rest owner here h =
    λ same. here (sym (owner u refl) ∙ same)

row-IsKept :
    (user_id except token_hash : Text) (now later : ℕ) (users : List UserRow) (s : SessionRow)
    (rest : Option (SessionRow × UserRow))
    → (is_live token_hash later s ≡ true → s.user_id ≡ user_id → s.id ≡ except)
    → IsKept user_id except (actor_of rest)
    → IsKept user_id except (
        actor_of (
          if is_live token_hash later s
          then with_its_user s (find_active_user s.user_id users) rest
          else rest))
row-IsKept user_id except token_hash now later users s rest here h =
    elim (Bool-cases (is_live token_hash later s)) [
      | inl e ↦
          rw e (with_its_user-IsKept user_id except s _ rest (found-id s.user_id users) (here e) h)
      | inr e ↦ rw e h
    ]

other_live :
    (user_id except token_hash : Text) (now later : ℕ) (s : SessionRow)
    → now ≤ later
    → is_other_live user_id except now s ≡ false
    → is_live token_hash later s ≡ true
    → s.user_id ≡ user_id
    → s.id ≡ except
other_live user_id except token_hash now later s after other live same = eq_text_sound s.id except (
    ground (
      arith,
      after,
      live,
      subst (λ i. is_other_live i except now s ≡ false) (sym same) other,
      eq_text_refl s.user_id,
    ))

find_session-IsKept :
    (user_id except token_hash : Text) (now later : ℕ) (users : List UserRow)
    (sessions : List SessionRow)
    → now ≤ later
    → IsKept user_id except (
        actor_of
          (find_session token_hash later users (revoke_all_sessions user_id except now sessions)))
unfolding find_session revoke_all_sessions
find_session-IsKept user_id except token_hash now later users [] after = tt
find_session-IsKept user_id except token_hash now later users (s ∷ sessions) after =
    let rest = find_session-IsKept user_id except token_hash now later users sessions after in
    elim (Bool-cases (is_other_live user_id except now s)) [
      | inl e ↦ rw e (
          row-IsKept user_id except token_hash now later users (record s { revoked_at = some now })
            _ (λ live. absurd (ground (arith, live))) rest)
      | inr e ↦ rw e (
          row-IsKept user_id except token_hash now later users s _
            (λ live. other_live user_id except token_hash now later s after e live) rest)
    ]

-- After a call of setPin that ends well, whatever token is shown from then on: a session of the same
-- user that resolveSession finds is the one in which the PIN was set.
pub set_pin-revokes :
    (crypto : PinCrypto) (pepper : Text) (hmac : Hmac) (config : AuthConfig)
    (actor : AuthenticatedActor) (pin : Text) (current_pin : Option Text) (salt token : Text)
    (now later : ℕ) (db after : Database) (shown : AuthenticatedActor)
    → set_pin crypto pepper actor pin current_pin salt now db ≡ (ok tt, after)
    → now ≤ later
    → resolve_session hmac config token later after ≡ some shown
    → shown.user_id ≡ actor.user_id
    → shown.session_id ≡ actor.session_id
unfolding resolve_session store_pin write_audit set_pin_credentials
set_pin-revokes crypto pepper hmac config actor pin current_pin salt token now later db after shown
      ended time resolved =
    let (uuid, c) = set_pin-Changed crypto pepper actor pin current_pin salt now db after ended in
    let sessions = ap (λ (r : Result ErrorCode (Unit {0}) × Database). r.1.sessions) c.stored in
    let kept =
      subst
        (λ rows. IsKept actor.user_id actor.session_id (
          actor_of (
            find_session (hash_session_token hmac config.session_secret token) later after.users
              rows)))
        sessions
        (find_session-IsKept actor.user_id actor.session_id _ now later after.users db.sessions
          time) in
    let same : actor_of (
          find_session (hash_session_token hmac config.session_secret token) later after.users
            after.sessions)
        ≡ some shown =
      ground (arith, resolved) in
    subst (IsKept actor.user_id actor.session_id) same kept
