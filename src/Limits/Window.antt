-- ===== src/Limits/Window.antt =====
-- How many requests a window lets through: packages/core/src/rate-limit.ts.
use wallet_bot.Base.{
  ℕ, ◌+◌, ◌-◌, ◌≤◌, ◌≡◌, refl, subst, Bool, true, List, [], ◌∷◌, ◌==◌, ◌&&◌, arith, if◌then◌else◌,
  Bool-cases, inl, inr,
}
use wallet_bot.Base.Text.{Text, eq_text, eq_text_refl, eq_text_sound}
use wallet_bot.Limits.{
  RateLimitBucket, auth, read, write, send, admin, same_bucket, RateLimitConfig, spec_for, Local,
  Store, is_window, window_of, bump_row, bump_rate_limit, RateLimitDecision, Counters, check,
}

-- A request, at any instance, with whatever that instance has counted.
pub record Request : Type 0 where
  pub bucket : RateLimitBucket
  pub subject : Text
  pub cost : ℕ
  pub now : ℕ
  pub local : Local

abbrev decision_of : RateLimitConfig → Request → Store → RateLimitDecision × Counters
decision_of config q store =
    check config q.bucket q.subject q.cost q.now true (record { local = q.local; store = store })

-- The request is of the bucket and the subject, in the window.
abbrev pub is_of : RateLimitConfig → RateLimitBucket → Text → ℕ → Request → Bool
is_of config bucket subject window_start q =
    same_bucket q.bucket bucket
    && eq_text q.subject subject
    && window_of (spec_for config q.bucket).window_ms q.now == window_start

-- How many requests of the window are let through, one after the other, over one database.
abbrev pub let_through : RateLimitConfig → RateLimitBucket → Text → ℕ → List Request → Store → ℕ
let_through config bucket subject window_start [] store = 0
let_through config bucket subject window_start (q ∷ requests) store =
    let (decision, c) = decision_of config q store in
    (if is_of config bucket subject window_start q && decision.allowed then 1 else 0)
    + let_through config bucket subject window_start requests c.store

-- What the database has counted in the window.
abbrev pub hits_of : RateLimitBucket → Text → ℕ → Store → ℕ
hits_of bucket subject window_start [] = 0
hits_of bucket subject window_start (r ∷ store) =
    if is_window bucket subject window_start r
    then r.hits
    else hits_of bucket subject window_start store

same_bucket_refl : (b : RateLimitBucket) → same_bucket b b ≡ true
same_bucket_refl auth = refl
same_bucket_refl read = refl
same_bucket_refl write = refl
same_bucket_refl send = refl
same_bucket_refl admin = refl

same_bucket_sound : (a b : RateLimitBucket) → same_bucket a b ≡ true → a ≡ b
same_bucket_sound a b h = ground arith

bump_hits :
    (bucket : RateLimitBucket) (subject : Text) (w : ℕ) (store : Store)
    → (bump_row bucket subject w store).0 ≡ hits_of bucket subject w store + 1
bump_hits bucket subject w [] = refl
bump_hits bucket subject w (r ∷ store) = ground (arith, bump_hits bucket subject w store)

bump_same :
    (bucket : RateLimitBucket) (subject : Text) (w : ℕ) (store : Store)
    → hits_of bucket subject w (bump_row bucket subject w store).1
      ≡ hits_of bucket subject w store + 1
bump_same bucket subject w [] = ground (arith, same_bucket_refl bucket, eq_text_refl subject)
bump_same bucket subject w (r ∷ store) = ground (arith, bump_same bucket subject w store)

bump_grows :
    (bucket bucket' : RateLimitBucket) (subject subject' : Text) (w w' : ℕ) (store : Store)
    → hits_of bucket subject w store
      ≤ hits_of bucket subject w (bump_row bucket' subject' w' store).1
bump_grows bucket bucket' subject subject' w w' [] = omega arith
bump_grows bucket bucket' subject subject' w w' (r ∷ store) =
    ground (arith, bump_grows bucket bucket' subject subject' w w' store)

module _ (config : RateLimitConfig) where
  check_grows :
      (bucket : RateLimitBucket) (subject : Text) (w : ℕ) (q : Request) (store : Store)
      → hits_of bucket subject w store
        ≤ hits_of bucket subject w (decision_of config q store).1.store
  unfolding check bump_rate_limit
  check_grows bucket subject w q store = ground (
    arith,
    bump_grows bucket q.bucket subject q.subject w
        (window_of (spec_for config q.bucket).window_ms q.now) store,
  )

  -- What an allowed request does to the count of its window.
  abbrev IsCounted : RateLimitBucket → Text → ℕ → Request → Store → Type 0
  IsCounted bucket subject w q store =
      (hits_of bucket subject w (decision_of config q store).1.store
        ≡ hits_of bucket subject w store + 1)
      × (hits_of bucket subject w store + 1 ≤ (spec_for config bucket).limit)

  allowed-IsCounted :
      (q : Request) (store : Store)
      → config.enabled ≡ true
      → (decision_of config q store).0.allowed ≡ true
      → IsCounted q.bucket q.subject (window_of (spec_for config q.bucket).window_ms q.now) q store
  unfolding check bump_rate_limit
  allowed-IsCounted q store on h = (
    ground (
      arith,
      bump_same q.bucket q.subject (window_of (spec_for config q.bucket).window_ms q.now) store,
    ),
    ground (
      arith,
      bump_hits q.bucket q.subject (window_of (spec_for config q.bucket).window_ms q.now) store,
    ),
  )

  own-IsCounted :
      (bucket : RateLimitBucket) (subject : Text) (w : ℕ) (q : Request) (store : Store)
      → config.enabled ≡ true
      → is_of config bucket subject w q ≡ true
      → (decision_of config q store).0.allowed ≡ true
      → IsCounted bucket subject w q store
  own-IsCounted bucket subject w q store on own h =
      subst (λ b. IsCounted b subject w q store) (same_bucket_sound q.bucket bucket (ground arith))
        (subst (λ s. IsCounted q.bucket s w q store)
          (eq_text_sound q.subject subject (ground arith))
          (subst (λ v. IsCounted q.bucket q.subject v q store) (ground arith)
            (allowed-IsCounted q store on h)))

  through :
      (bucket : RateLimitBucket) (subject : Text) (w : ℕ) (requests : List Request) (store : Store)
      → config.enabled ≡ true
      → let_through config bucket subject w requests store
        ≤ (spec_for config bucket).limit - hits_of bucket subject w store
  through bucket subject w [] store on = omega arith
  through bucket subject w (q ∷ requests) store on =
      elim (Bool-cases
        (is_of config bucket subject w q && (decision_of config q store).0.allowed)) [
          | inl e ↦ rw e (
              omega (
                arith,
                through bucket subject w requests (decision_of config q store).1.store on,
                (own-IsCounted bucket subject w q store on (ground arith) (ground arith)).0,
                (own-IsCounted bucket subject w q store on (ground arith) (ground arith)).1,
              ))
          | inr e ↦ rw e (
              omega (
                arith,
                through bucket subject w requests (decision_of config q store).1.store on,
                check_grows bucket subject w q store,
              ))
        ]

-- Of all requests of a bucket and a subject in one window, at any instances and in any order with
-- requests of others, at most the limit is let through, if limits are enabled and the counters of
-- the database can be reached.
pub let_through-le-limit :
    (config : RateLimitConfig) (bucket : RateLimitBucket) (subject : Text) (w : ℕ)
    (requests : List Request) (store : Store)
    → config.enabled ≡ true
    → let_through config bucket subject w requests store ≤ (spec_for config bucket).limit
let_through-le-limit config bucket subject w requests store on =
    omega (arith, through config bucket subject w requests store on)
