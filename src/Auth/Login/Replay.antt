-- ===== src/Auth/Login/Replay.antt =====
-- One payload, one session: authenticateWithTelegram of packages/core/src/auth/service.ts between
-- clean-ups of the claimed events.
use wallet_bot.Base.{
  ℕ, ◌+◌, ◌≤◌, ◌<◌, ◌≡◌, ◌≢◌, ◌⊎◌, inl, inr, refl, sym, subst, ◌∙◌, Bool, true, false, Bool-cases,
  ◌&&◌, List, [], ◌∷◌, arith, if◌then◌else◌,
}
use wallet_bot.Base.Result.{ok, Result-cases}
use wallet_bot.Base.Text.{Text, eq_text, eq_text_refl, eq_text_sound, is_empty}
use wallet_bot.Auth.{Database, SettingsRow, Tx}
use wallet_bot.Auth.InitData.{Telegram, VerifiedInitData, verify_init_data, future_skew_ms}
use wallet_bot.Auth.Login.Held.{is_held, held-has_event, kept-held, new-held, verified-held}
use wallet_bot.Auth.Login.Events.{is_ok, events_verified, claimed-refused, failed-refused}
use wallet_bot.Auth.Login.Facts.{payload_key, payload_date, verify-eq-ok}
use wallet_bot.Auth.Login.{
  AuthConfig, Hmac, Fresh, replay_ttl_ms, has_event, claim_init_data, cleanup_expired,
  login_verified, authenticate_with_telegram,
}

-- A login with a payload, or the clean-up of the worker.
pub data LoginStep : Type 0 where
  logs_in : Fresh → Text → LoginStep
  cleans_up : LoginStep

-- Steps, each with the time that passes before it.
abbrev pub Steps : Type 0
Steps = List (ℕ × LoginStep)

module _ (telegram : Telegram) (hmac : Hmac) (config : AuthConfig) where
  abbrev pub login_step : LoginStep → ℕ → Database → Bool × Database
  login_step (logs_in fresh init_data) now db =
      let (answer, after) =
        authenticate_with_telegram telegram hmac config fresh init_data now db in
      (is_ok answer, after)
  login_step cleans_up now db = (false, cleanup_expired now db)

  abbrev pub is_login_with : Text → LoginStep → Bool
  is_login_with payload (logs_in fresh init_data) = eq_text init_data payload
  is_login_with payload cleans_up = false

  -- How many sessions the steps open with the payload.
  abbrev pub opened_with : Text → Steps → ℕ → Database → ℕ
  opened_with payload [] now db = 0
  opened_with payload ((elapsed, s) ∷ steps) now db =
      let (opens, after) = login_step s (now + elapsed) db in
      (if is_login_with payload s && opens then 1 else 0)
      + opened_with payload steps (now + elapsed) after

  -- The last moment at which the payload is accepted.
  abbrev pub limit : Text → ℕ
  limit payload = payload_date telegram payload + config.init_data_max_age_ms

  abbrev IsSpent : Text → ℕ → Database → Type 0
  IsSpent payload now db =
      (is_held (payload_key telegram payload) (limit payload) db.events ≡ true)
      ⊎ (limit payload < now)

  -- The part of a login behind the test of the configuration.
  abbrev verified_login : Fresh → Text → ℕ → Tx SettingsRow
  verified_login fresh payload now =
      login_verified hmac config fresh now
        (verify_init_data telegram config.bot_token config.init_data_max_age_ms now payload)

  later-IsSpent :
      (payload : Text) (before now : ℕ) (db : Database)
      → before ≤ now
      → IsSpent payload before db
      → IsSpent payload now db
  later-IsSpent payload before now db later (inl held) = inl held
  later-IsSpent payload before now db later (inr late) = inr (omega (arith, late, later))

  -- Once the payload is spent, it stays so.
  step-IsSpent :
      (payload : Text) (s : LoginStep) (before now : ℕ) (db : Database)
      → before ≤ now
      → IsSpent payload before db
      → IsSpent payload now (login_step s now db).1
  unfolding authenticate_with_telegram cleanup_expired
  step-IsSpent payload s before now db later (inr late) = inr (omega (arith, late, later))
  step-IsSpent payload cleans_up before now db later (inl held) =
      kept-held (payload_key telegram payload) (limit payload) now db.events held
  step-IsSpent payload (logs_in fresh init_data) before now db later (inl held) =
      elim (Bool-cases (is_empty config.bot_token)) [
        | inl e ↦ rw e (inl held)
        | inr e ↦ rw e (inl (verified-held hmac config _ _ fresh now _ db held))
      ]

  verified-refused :
      (payload : Text) (fresh : Fresh) (now : ℕ) (db : Database)
      → IsSpent payload now db
      → is_ok (verified_login fresh payload now db).0 ≡ false
  verified-refused payload fresh now db spent =
      elim (Result-cases
        (verify_init_data telegram config.bot_token config.init_data_max_age_ms now payload)) [
          | inr (e, failed) ↦ rw failed (failed-refused hmac config fresh now e db)
          | inl (v, accepted) ↦
              rw accepted (go v (verify-eq-ok telegram _ _ now payload v accepted) spent)
        ]
    where
      go :
          (v : VerifiedInitData)
          → (v.hash ≡ payload_key telegram payload)
            × (now ≤ limit payload)
            × (payload_date telegram payload ≤ now + future_skew_ms)
          → IsSpent payload now db
          → is_ok (login_verified hmac config fresh now (ok v) db).0 ≡ false
      go v facts (inr late) = absurd (omega (arith, late, facts.1))
      go v facts (inl held) =
          claimed-refused hmac config fresh now v db
            (rw facts.0 (held-has_event _ _ db.events held))

  -- A payload that opens a session is spent from then on.
  verified-IsSpent :
      (payload : Text) (fresh : Fresh) (now : ℕ) (db : Database)
      → config.init_data_max_age_ms + future_skew_ms ≤ replay_ttl_ms
      → is_ok (verified_login fresh payload now db).0 ≡ true
      → IsSpent payload now (verified_login fresh payload now db).1
  verified-IsSpent payload fresh now db remembered opens =
      elim (Result-cases
        (verify_init_data telegram config.bot_token config.init_data_max_age_ms now payload)) [
          | inr (e, failed) ↦
              absurd
                (true-ne-false (sym opens ∙ rw failed (failed-refused hmac config fresh now e db)))
          | inl (v, accepted) ↦ rw accepted (
              go v (verify-eq-ok telegram _ _ now payload v accepted) (
                subst (λ r. is_ok (login_verified hmac config fresh now r db).0 ≡ true) accepted
                  opens))
        ]
    where
      true-ne-false : true ≢ false
      true-ne-false h = cc

      go :
          (v : VerifiedInitData)
          → (v.hash ≡ payload_key telegram payload)
            × (now ≤ limit payload)
            × (payload_date telegram payload ≤ now + future_skew_ms)
          → is_ok (login_verified hmac config fresh now (ok v) db).0 ≡ true
          → IsSpent payload now (login_verified hmac config fresh now (ok v) db).1
      go v facts ended = elim (Bool-cases (has_event v.hash db.events)) [
        | inl e ↦ absurd (true-ne-false (sym ended ∙ claimed-refused hmac config fresh now v db e))
        | inr e ↦ inl (
            rw (events_verified hmac config fresh now v db) (
              subst
                (λ key. is_held key (limit payload) (claim_init_data v.hash now db).1.events ≡ true)
                facts.0
                (new-held v.hash (limit payload) now db e (omega (arith, facts.2, remembered)))))
      ]

  authenticate-refused :
      (payload : Text) (fresh : Fresh) (now : ℕ) (db : Database)
      → IsSpent payload now db
      → is_ok (authenticate_with_telegram telegram hmac config fresh payload now db).0 ≡ false
  unfolding authenticate_with_telegram
  authenticate-refused payload fresh now db spent = elim (Bool-cases (is_empty config.bot_token)) [
    | inl b ↦ rw b refl
    | inr b ↦ rw b (verified-refused payload fresh now db spent)
  ]

  authenticate-IsSpent :
      (payload : Text) (fresh : Fresh) (now : ℕ) (db : Database)
      → config.init_data_max_age_ms + future_skew_ms ≤ replay_ttl_ms
      → is_ok (authenticate_with_telegram telegram hmac config fresh payload now db).0 ≡ true
      → IsSpent payload now (authenticate_with_telegram telegram hmac config fresh payload now db).1
  unfolding authenticate_with_telegram
  authenticate-IsSpent payload fresh now db remembered =
      elim (Bool-cases (is_empty config.bot_token)) [
        | inl b ↦ rw b λ opens. absurd cc
        | inr b ↦ rw b (verified-IsSpent payload fresh now db remembered)
      ]

  step-refused :
      (payload : Text) (s : LoginStep) (now : ℕ) (db : Database)
      → IsSpent payload now db
      → (is_login_with payload s && (login_step s now db).0) ≡ false
  step-refused payload cleans_up now db spent = refl
  step-refused payload (logs_in fresh init_data) now db spent =
      elim (Bool-cases (eq_text init_data payload)) [
        | inr e ↦ rw e refl
        | inl e ↦
            rw (eq_text_sound init_data payload e, eq_text_refl payload)
              (authenticate-refused payload fresh now db spent)
      ]

  step-opens :
      (payload : Text) (s : LoginStep) (now : ℕ) (db : Database)
      → config.init_data_max_age_ms + future_skew_ms ≤ replay_ttl_ms
      → (is_login_with payload s && (login_step s now db).0) ≡ true
      → IsSpent payload now (login_step s now db).1
  step-opens payload cleans_up now db remembered opens = absurd cc
  step-opens payload (logs_in fresh init_data) now db remembered opens =
      elim (Bool-cases (eq_text init_data payload)) [
        | inr e ↦ absurd (ground (arith, e, opens))
        | inl e ↦
            subst (λ d. IsSpent payload now (login_step (logs_in fresh d) now db).1)
              (sym (eq_text_sound init_data payload e))
              (authenticate-IsSpent payload fresh now db remembered (
                subst (λ d. (login_step (logs_in fresh d) now db).0 ≡ true)
                  (eq_text_sound init_data payload e) (ground (arith, e, opens))))
      ]

  spent-opens :
      (payload : Text) (steps : Steps) (now : ℕ) (db : Database)
      → IsSpent payload now db
      → opened_with payload steps now db ≡ 0
  spent-opens payload [] now db spent = refl
  spent-opens payload ((elapsed, s) ∷ steps) now db spent =
      let later : now ≤ now + elapsed = omega arith in
      let at_step : IsSpent payload (now + elapsed) db =
        later-IsSpent payload now (now + elapsed) db later spent in
      rw (step-refused payload s (now + elapsed) db at_step) omega (
        arith,
        spent-opens payload steps (now + elapsed) (login_step s (now + elapsed) db).1
            (step-IsSpent payload s now (now + elapsed) db later spent),
      )

  -- If the age that is accepted and the skew of a minute fit into the day for which a payload is
  -- remembered, then over every sequence of logins, with any payloads, and clean-ups, at times that
  -- never go back, one payload opens at most one session.
  pub opened-le-one :
      (payload : Text) (steps : Steps) (now : ℕ) (db : Database)
      → config.init_data_max_age_ms + future_skew_ms ≤ replay_ttl_ms
      → opened_with payload steps now db ≤ 1
  opened-le-one payload [] now db remembered = omega arith
  opened-le-one payload ((elapsed, s) ∷ steps) now db remembered =
      elim (Bool-cases (is_login_with payload s && (login_step s (now + elapsed) db).0)) [
        | inl e ↦
            rw
              (
                e,
                spent-opens payload steps (now + elapsed) (login_step s (now + elapsed) db).1
                    (step-opens payload s (now + elapsed) db remembered e),
              )
              omega arith
        | inr e ↦ rw e omega (
          arith,
          opened-le-one payload steps (now + elapsed) (login_step s (now + elapsed) db).1
              remembered,
        )
      ]
