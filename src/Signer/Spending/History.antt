-- ===== src/Signer/Spending/History.antt =====
-- The daily cap over a whole history of signing requests.
use wallet_bot.Base.{
  ℕ, ◌≤◌, Bool, List, [], ◌∷◌, ◌++◌, Option, none, some, ◌≡◌, refl, ap, sym, ◌∙◌, arith, All,
  All-append, inl, inr, subst, Option-cases,
}
use wallet_bot.Base.Int.{ℤ, pos, ◌+ℤ◌, ◌≤ℤ◌, int_laws}
use wallet_bot.Base.Result.{Result, ok, err, Result-cases}
use wallet_bot.Base.Text.{Text}
use wallet_bot.Signer.Errors.{PolicyError}
use wallet_bot.Signer.Spending.{
  SpendRecord, SpendTracker, SignRequest, SignerConfig, shift_old, prune, record_spend,
  remember_result, handle_sign, total_from,
}
use wallet_bot.Signer.Spending.Window.{
  keep_recent, IsSorted, sum, total_from-eq-sum, sum-append, shift_old_sorted,
  keep_recent-keep_recent, keep_recent-IsSorted, keep_recent_last, sum_recent_mono, IsSorted-last,
}
use wallet_bot.Signer.Spending.Caps.{spent, policy_passes, policy_needs_value, sign_ok, sign_err}

abbrev pub spend_record : ℕ → ℤ → SpendRecord
spend_record now amount = record { at = now; amount_minor = amount }

-- The amounts signed so far, with their times, whether or not the tracker still has them.
abbrev pub log_step : Result PolicyError Text → Option ℤ → ℕ → List SpendRecord → List SpendRecord
log_step (err e) v now log = log
log_step (ok digest) none now log = log
log_step (ok digest) (some amount) now log = log ++ spend_record now amount ∷ []

-- The tracker, at `now`, accounts for the history: it has the records that some earlier pruning
-- left, and what lies in the window is within the cap.
pub record IsAccounted (cap : ℤ) (now : ℕ) (t : SpendTracker) (log : List SpendRecord)
    : Type 0 where
  pub pruned : ℕ
  pub past : pruned ≤ now
  pub kept : t.records ≡ keep_recent t.window_ms pruned log
  pub sorted : IsSorted log
  pub before : All (λ r. r.at ≤ now) log
  pub nonneg : All (λ r. pos 0 ≤ℤ r.amount_minor) log
  pub capped : sum (keep_recent t.window_ms now log) ≤ℤ cap

All-later :
    (now later : ℕ) (log : List SpendRecord)
    → now ≤ later
    → All (λ r. r.at ≤ now) log
    → All (λ r. r.at ≤ later) log
All-later now later [] le h = tt
All-later now later (r ∷ log) le h = (omega arith, All-later now later log le h.1)

module _ (cap : ℤ) (now later : ℕ) (t : SpendTracker) (log : List SpendRecord) (le : now ≤ later)
    (h : IsAccounted cap now t log) where
  later_capped : sum (keep_recent t.window_ms later log) ≤ℤ cap
  later_capped = omega (int_laws, sum_recent_mono t.window_ms now later log le h.nonneg, h.capped)

  step_unchanged : IsAccounted cap later t log
  step_unchanged = record {
    pruned = h.pruned;
    past = omega (arith, h.past);
    kept = h.kept;
    sorted = h.sorted;
    before = All-later now later log le h.before;
    nonneg = h.nonneg;
    capped = later_capped;
  }

  shifted : shift_old t.window_ms later t.records ≡ keep_recent t.window_ms later log
  shifted =
      rw
        (
          h.kept,
          shift_old_sorted t.window_ms later (keep_recent t.window_ms h.pruned log)
              (keep_recent-IsSorted t.window_ms h.pruned log h.sorted),
        )
        (keep_recent-keep_recent t.window_ms h.pruned later log (omega (arith, h.past)))

  step_pruned : IsAccounted cap later (prune later t) log
  unfolding prune
  step_pruned = record {
    pruned = later;
    past = omega arith;
    kept = shifted;
    sorted = h.sorted;
    before = All-later now later log le h.before;
    nonneg = h.nonneg;
    capped = later_capped;
  }

  shifted_twice :
      shift_old t.window_ms later (shift_old t.window_ms later t.records)
      ≡ keep_recent t.window_ms later log
  shifted_twice =
      rw
        (
          shifted,
          shift_old_sorted t.window_ms later (keep_recent t.window_ms later log)
              (keep_recent-IsSorted t.window_ms later log h.sorted),
        )
        (keep_recent-keep_recent t.window_ms later later log (omega arith))

  step_recorded :
      (amount : ℤ) (key digest : Text)
      → pos 0 ≤ℤ amount
      → spent t later +ℤ amount ≤ℤ cap
      → IsAccounted cap later
          (remember_result key digest (record_spend amount later (prune later t)))
          (log ++ spend_record later amount ∷ [])
  unfolding prune record_spend remember_result
  step_recorded amount key digest positive fits = record {
    pruned = later;
    past = omega arith;
    kept =
        ap (λ l. l ++ spend_record later amount ∷ []) shifted_twice
        ∙ sym (keep_recent_last t.window_ms later log (spend_record later amount) refl);
    sorted =
        IsSorted-last later log (spend_record later amount) h.sorted
          (All-later now later log le h.before) refl;
    before = All-append _ log _ (All-later now later log le h.before) (omega arith, tt);
    nonneg = All-append _ log _ h.nonneg (positive, tt);
    capped =
        rw
          (
            keep_recent_last t.window_ms later log (spend_record later amount) refl,
            sum-append (keep_recent t.window_ms later log) (spend_record later amount ∷ []),
          )
          (omega (int_laws, fits_total));
  }
    where
      total :
          total_from (pos 0) (shift_old t.window_ms later t.records)
          ≡ sum (keep_recent t.window_ms later log)
      total =
          ap (total_from (pos 0)) shifted
          ∙ total_from-eq-sum (pos 0) (keep_recent t.window_ms later log)
          ∙ omega int_laws

      fits_total : sum (keep_recent t.window_ms later log) +ℤ amount ≤ℤ cap
      fits_total = subst (λ x. x +ℤ amount ≤ℤ cap) total fits

module _ (has_key : SignRequest → Bool) (sign_transaction : SignRequest → Result PolicyError Text)
    (config : SignerConfig) where
  -- Requests with the times at which they are handled.
  abbrev pub handle_all :
      List (SignRequest × ℕ) → SpendTracker → List SpendRecord → SpendTracker × List SpendRecord
  handle_all [] t log = (t, log)
  handle_all ((r, now) ∷ later) t log =
      handle_all later (handle_sign has_key sign_transaction config r now t).1 (
        log_step (handle_sign has_key sign_transaction config r now t).0 r.spend.value_usd_minor now
          log)

  -- The times do not go back, and no amount is negative.
  abbrev pub IsOrderly : ℕ → ℕ → List (SignRequest × ℕ) → Type 0
  IsOrderly start end [] = start ≤ end
  IsOrderly start end ((r, now) ∷ later) =
      (start ≤ now)
      × ((amount : ℤ) → r.spend.value_usd_minor ≡ some amount → pos 0 ≤ℤ amount)
      × IsOrderly now end later

  handle_sign-IsAccounted :
      (r : SignRequest) (start now : ℕ) (t : SpendTracker) (log : List SpendRecord)
      → start ≤ now
      → ((amount : ℤ) → r.spend.value_usd_minor ≡ some amount → pos 0 ≤ℤ amount)
      → IsAccounted config.policy.max_per_day_minor start t log
      → IsAccounted config.policy.max_per_day_minor now
          (handle_sign has_key sign_transaction config r now t).1
          (log_step
            (handle_sign has_key sign_transaction config r now t).0
            r.spend.value_usd_minor
            now
            log)
  handle_sign-IsAccounted r start now t log le nonneg h =
      elim (Result-cases (handle_sign has_key sign_transaction config r now t).0) [
        | inr (e, failed) ↦
            rw failed (elim (sign_err has_key sign_transaction config r now t e failed) [
              | inl same ↦ rw same (step_unchanged cap start now t log le h)
              | inr older ↦ rw older (step_pruned cap start now t log le h)
            ])
        | inl (digest, done) ↦ rw done (elim (Option-cases r.spend.value_usd_minor) [
          | inl absent ↦ absurd (
              policy_needs_value r.spend config.policy now t absent
                (sign_ok has_key sign_transaction config r now t digest done).0)
          | inr (amount, present) ↦
              let (passed, state) = sign_ok has_key sign_transaction config r now t digest done in
              let (per_tx, per_day, older) =
                policy_passes r.spend config.policy now t amount present passed in
              rw (state, older, present)
                (step_recorded cap start now t log le h amount r.idempotency_key digest
                  (nonneg amount present) per_day)
        ])
      ]
    where
      cap : ℤ
      cap = config.policy.max_per_day_minor

  handle_all-IsAccounted :
      (requests : List (SignRequest × ℕ)) (start end : ℕ) (t : SpendTracker)
      (log : List SpendRecord)
      → IsOrderly start end requests
      → IsAccounted config.policy.max_per_day_minor start t log
      → IsAccounted config.policy.max_per_day_minor end
          (handle_all requests t log).0
          (handle_all requests t log).1
  handle_all-IsAccounted [] start end t log order h =
      step_unchanged config.policy.max_per_day_minor start end t log order h
  handle_all-IsAccounted ((r, now) ∷ later) start end t log order h =
      handle_all-IsAccounted later now end _ _ order.2
        (handle_sign-IsAccounted r start now t log order.0 order.1 h)

  -- From a tracker without records and under a daily cap that is not negative, whatever requests
  -- arrive, in the order of time and with no negative amount, and whatever the keystore and the
  -- signing do: at every moment from the last request on, the amounts signed within the tracker's
  -- window add up to at most the daily cap.
  pub daily_cap :
      (requests : List (SignRequest × ℕ)) (end : ℕ) (t : SpendTracker)
      → t.records ≡ []
      → pos 0 ≤ℤ config.policy.max_per_day_minor
      → IsOrderly 0 end requests
      → let (t', log) = handle_all requests t [] in
        sum (keep_recent t'.window_ms end log) ≤ℤ config.policy.max_per_day_minor
  daily_cap requests end t fresh positive order =
      (handle_all-IsAccounted requests 0 end t [] order start).capped
    where
      start : IsAccounted config.policy.max_per_day_minor 0 t []
      start = record {
        pruned = 0;
        past = omega arith;
        kept = fresh;
        sorted = tt;
        before = tt;
        nonneg = tt;
        capped = positive;
      }
