-- ===== src/Limits.antt =====
-- packages/core/src/rate-limit.ts, RateLimiter, and the function app.bump_rate_limit of
-- supabase/migrations/0010_fix_rate_limit_ambiguity.sql. Times are milliseconds.
pub mod Window
use wallet_bot.Base.{
  ℕ, ◌+◌, ◌-◌, ◌*◌, ◌/◌, Bool, true, false, List, [], ◌∷◌, ◌++◌, Option, none, some, ltb, leb, ◌==◌,
  ◌&&◌, not, if◌then◌else◌, length, max,
}
use wallet_bot.Base.Result.{Result, ok, err}
use wallet_bot.Base.Text.{Text, codes, eq_text}
use wallet_bot.Domain.Enums.{ErrorCode, rate_limited}
use wallet_bot.Util.Keys.{rate_limit_key}

pub data RateLimitBucket : Type 0 where
  auth read write send admin : RateLimitBucket

abbrev pub same_bucket : RateLimitBucket → RateLimitBucket → Bool
same_bucket auth auth = true
same_bucket read read = true
same_bucket write write = true
same_bucket send send = true
same_bucket admin admin = true
same_bucket _ _ = false

abbrev bucket_name : RateLimitBucket → Text
bucket_name auth = codes "auth"
bucket_name read = codes "read"
bucket_name write = codes "write"
bucket_name send = codes "send"
bucket_name admin = codes "admin"

pub record RateLimitConfig : Type 0 where
  pub enabled : Bool
  pub auth_per_minute : ℕ
  pub read_per_minute : ℕ
  pub write_per_minute : ℕ
  pub send_per_hour : ℕ

pub record WindowSpec : Type 0 where
  pub limit : ℕ
  pub window_ms : ℕ

abbrev minute_ms : ℕ
minute_ms = 60000

abbrev hour_ms : ℕ
hour_ms = 60 * minute_ms

abbrev pub spec_for : RateLimitConfig → RateLimitBucket → WindowSpec
spec_for limits auth = record { limit = limits.auth_per_minute; window_ms = minute_ms }
spec_for limits read = record { limit = limits.read_per_minute; window_ms = minute_ms }
spec_for limits write = record { limit = limits.write_per_minute; window_ms = minute_ms }
spec_for limits send = record { limit = limits.send_per_hour; window_ms = hour_ms }
spec_for limits admin = record { limit = limits.write_per_minute; window_ms = minute_ms }

pub record LocalCounter : Type 0 where
  pub key : Text
  pub window_start : ℕ
  pub hits : ℕ

abbrev pub Local : Type 0
Local = List LocalCounter

abbrev pub max_local_entries : ℕ
max_local_entries = 10000

abbrev find_counter : Text → Local → Option LocalCounter
find_counter key [] = none
find_counter key (c ∷ counters) = if eq_text c.key key then some c else find_counter key counters

abbrev set_counter : LocalCounter → Local → Local
set_counter c [] = c ∷ []
set_counter c (d ∷ counters) =
    let rest = set_counter c counters in if eq_text d.key c.key then c ∷ counters else d ∷ rest

abbrev keep_window : ℕ → Local → Local
keep_window window_start [] = []
keep_window window_start (c ∷ counters) =
    let rest = keep_window window_start counters in
    if c.window_start == window_start then c ∷ rest else rest

abbrev clear_if_full : Local → Local
clear_if_full counters = if leb max_local_entries (length counters) then [] else counters

abbrev evict_old : ℕ → Local → Local
evict_old window_start counters =
    if leb max_local_entries (length counters)
    then clear_if_full (keep_window window_start counters)
    else counters

abbrev start_counter : Text → ℕ → ℕ → Local → ℕ × Local
start_counter key window_start cost counters = (
  cost,
  set_counter (record { key = key; window_start = window_start; hits = cost })
      (evict_old window_start counters),
)

abbrev bump_found : Option LocalCounter → Text → ℕ → ℕ → Local → ℕ × Local
bump_found none key window_start cost counters = start_counter key window_start cost counters
bump_found (some c) key window_start cost counters =
    if not (c.window_start == window_start)
    then start_counter key window_start cost counters
    else (c.hits + cost, set_counter (record c { hits = c.hits + cost }) counters)

unfoldable pub bump_local : Text → ℕ → ℕ → Local → ℕ × Local
bump_local key window_start cost counters =
    bump_found (find_counter key counters) key window_start cost counters

-- A row of api_rate_limits.
pub record HitRow : Type 0 where
  pub bucket : RateLimitBucket
  pub subject : Text
  pub window_start : ℕ
  pub hits : ℕ

abbrev pub Store : Type 0
Store = List HitRow

abbrev pub is_window : RateLimitBucket → Text → ℕ → HitRow → Bool
is_window bucket subject window_start r =
    same_bucket r.bucket bucket && eq_text r.subject subject && r.window_start == window_start

abbrev pub window_of : ℕ → ℕ → ℕ
window_of window_ms now = now / window_ms * window_ms

abbrev pub bump_row : RateLimitBucket → Text → ℕ → Store → ℕ × Store
bump_row bucket subject window_start [] =
    (1, record { bucket = bucket; subject = subject; window_start = window_start; hits = 1 } ∷ [])
bump_row bucket subject window_start (r ∷ store) =
    let (hits, rest) = bump_row bucket subject window_start store in
    if is_window bucket subject window_start r
    then (r.hits + 1, record r { hits = r.hits + 1 } ∷ store)
    else (hits, r ∷ rest)

-- One statement. The clock of the database is taken to be that of the caller.
unfoldable pub bump_rate_limit : RateLimitBucket → Text → ℕ → ℕ → Store → ℕ × Store
bump_rate_limit bucket subject window_ms now store =
    bump_row bucket subject (window_of window_ms now) store

pub record RateLimitDecision : Type 0 where
  pub allowed : Bool
  pub limit : ℕ
  pub remaining : ℕ
  pub retry_after_seconds : ℕ
  pub reset_at : ℕ

-- The counters of an instance and those of the database.
pub record Counters : Type 0 where
  pub local : Local
  pub store : Store

-- `Math.max(1, Math.ceil((resetAt - now) / 1000))`.
abbrev retry_after : ℕ → ℕ → ℕ
retry_after reset_at now = max 1 ((reset_at - now + 999) / 1000)

abbrev decide : WindowSpec → ℕ → ℕ → RateLimitDecision
decide spec now hits = record {
  allowed = leb hits spec.limit;
  limit = spec.limit;
  remaining = spec.limit - hits;
  retry_after_seconds = retry_after (window_of spec.window_ms now + spec.window_ms) now;
  reset_at = window_of spec.window_ms now + spec.window_ms;
}

-- The second tier. A store that fails leaves the decision to the local counter.
abbrev pub shared_tier :
    WindowSpec
    → RateLimitBucket
    → Text
    → ℕ
    → Bool
    → ℕ
    → Local
    → Store
    → RateLimitDecision × Counters
shared_tier spec bucket subject now store_works local_hits local store =
    let (hits, store') = bump_rate_limit bucket subject spec.window_ms now store in
    if store_works
    then (decide spec now hits, record { local = local; store = store' })
    else (decide spec now local_hits, record { local = local; store = store })

-- The time is read once.
unfoldable pub check :
    RateLimitConfig
    → RateLimitBucket
    → Text
    → ℕ
    → ℕ
    → Bool
    → Counters
    → RateLimitDecision × Counters
check config bucket subject cost now store_works c =
    let spec = spec_for config bucket in
    let (local_hits, local) =
      bump_local (rate_limit_key (bucket_name bucket) subject) (window_of spec.window_ms now) cost
        c.local in
    if not config.enabled
    then (record (decide spec now 0) { allowed = true; remaining = spec.limit }, c)
    else if ltb spec.limit local_hits
    then (
      record (decide spec now local_hits) { allowed = false; remaining = 0 },
      record { local = local; store = c.store },
    )
    else shared_tier spec bucket subject now store_works local_hits local c.store

unfoldable pub enforce :
    RateLimitConfig
    → RateLimitBucket
    → Text
    → ℕ
    → Bool
    → Counters
    → Result ErrorCode RateLimitDecision × Counters
enforce config bucket subject now store_works c =
    let (decision, c') = check config bucket subject 1 now store_works c in
    (if not decision.allowed then err rate_limited else ok decision, c')
