-- ===== src/Auth/Login/Held.antt =====
-- For how long a payload stays claimed: claim_event and cleanup_expired of
-- supabase/migrations/0006_functions.sql over the logins of packages/core/src/auth/service.ts.
use wallet_bot.Base.{
  ℕ, ◌+◌, ◌≤◌, ◌<◌, ◌≡◌, ◌⊎◌, inl, inr, sym, subst, Bool, true, false, Bool-cases, ◌&&◌, ◌||◌, List,
  [], ◌∷◌, arith, leb,
}
use wallet_bot.Base.Result.{Result, ok, err}
use wallet_bot.Base.Text.{Text, eq_text, eq_text_refl}
use wallet_bot.Domain.Enums.{ErrorCode}
use wallet_bot.Auth.{Database, EventRow}
use wallet_bot.Auth.InitData.{VerifiedInitData}
use wallet_bot.Auth.Login.Events.{events_verified}
use wallet_bot.Auth.Login.{
  AuthConfig, Hmac, Fresh, replay_ttl_ms, has_event, claim_init_data, keep_events, login_verified,
}

-- The payload is claimed for as long as it is accepted.
abbrev pub is_held : Text → ℕ → List EventRow → Bool
is_held key until [] = false
is_held key until (e ∷ events) =
    (eq_text e.key key && leb until e.expires_at) || is_held key until events

pub held-has_event :
    (key : Text) (until : ℕ) (events : List EventRow)
    → is_held key until events ≡ true
    → has_event key events ≡ true
held-has_event key until [] held = cc
held-has_event key until (e ∷ events) held = ground (arith, held, held-has_event key until events)

-- A clean-up forgets the payload only when it is no longer accepted.
pub kept-held :
    (key : Text) (until now : ℕ) (events : List EventRow)
    → is_held key until events ≡ true
    → (is_held key until (keep_events now events) ≡ true) ⊎ (until < now)
kept-held key until now [] held = absurd cc
kept-held key until now (e ∷ events) held = ground (arith, held, kept-held key until now events)

pub claim-held :
    (key claimed : Text) (until now : ℕ) (db : Database)
    → is_held key until db.events ≡ true
    → is_held key until (claim_init_data claimed now db).1.events ≡ true
unfolding claim_init_data
claim-held key claimed until now db held = elim (Bool-cases (has_event claimed db.events)) [
  | inl e ↦ rw e held
  | inr e ↦ rw e ground (arith, held)
]

pub new-held :
    (key : Text) (until now : ℕ) (db : Database)
    → has_event key db.events ≡ false
    → until ≤ now + replay_ttl_ms
    → is_held key until (claim_init_data key now db).1.events ≡ true
unfolding claim_init_data
new-held key until now db unclaimed fits = rw (unclaimed, eq_text_refl key) ground (arith, fits)

pub verified-held :
    (hmac : Hmac) (config : AuthConfig) (key : Text) (until : ℕ) (fresh : Fresh) (now : ℕ)
    (r : Result ErrorCode VerifiedInitData) (db : Database)
    → is_held key until db.events ≡ true
    → is_held key until (login_verified hmac config fresh now r db).1.events ≡ true
unfolding login_verified
verified-held hmac config key until fresh now (err e) db held = held
verified-held hmac config key until fresh now (ok v) db held =
    subst (λ events. is_held key until events ≡ true)
      (sym (events_verified hmac config fresh now v db)) (claim-held key v.hash until now db held)
