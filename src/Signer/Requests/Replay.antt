-- ===== src/Signer/Requests/Replay.antt =====
-- What an accepted request must have been, and that it is accepted once.
use wallet_bot.Base.{
  ℕ, ◌+◌, ◌≤◌, ◌<◌, true, false, List, [], ◌∷◌, ◌++◌, ◌≡◌, refl, arith, ltb, leb, length,
  length-append, All, Bool-cases, ◌⊎◌, inl, inr,
}
use wallet_bot.Base.Text.{Text, eq_text_refl}
use wallet_bot.Signer.Requests.{Seen, has, drop_expired, evict, claim}

-- The nonce is in the cache, and its expiry comes at `until` or later.
abbrev pub IsHeld : Text → ℕ → Seen → Type 0
IsHeld nonce until [] = ⊥
IsHeld nonce until ((key, expiry) ∷ seen) =
    ((key ≡ nonce) × (until ≤ expiry)) ⊎ IsHeld nonce until seen

has_held :
    (nonce : Text) (until : ℕ) (seen : Seen) → IsHeld nonce until seen → has nonce seen ≡ true
has_held nonce until [] h = absurd h
has_held nonce until ((key, expiry) ∷ seen) (inl (e, fits)) = rw (e, eq_text_refl nonce)
has_held nonce until ((key, expiry) ∷ seen) (inr h) =
    rw (has_held nonce until seen h) (ground arith)

IsHeld-drop_expired :
    (nonce : Text) (until now : ℕ) (seen : Seen)
    → now < until
    → IsHeld nonce until seen
    → IsHeld nonce until (drop_expired now seen)
IsHeld-drop_expired nonce until now [] lt h = h
IsHeld-drop_expired nonce until now ((key, expiry) ∷ seen) lt (inl (e, fits)) =
    rw alive (inl (e, fits))
  where
    alive : leb expiry now ≡ false
    alive = ground arith
IsHeld-drop_expired nonce until now ((key, expiry) ∷ seen) lt (inr h) =
    elim (Bool-cases (leb expiry now)) [
      | inl dead ↦ rw dead (IsHeld-drop_expired nonce until now seen lt h)
      | inr alive ↦ rw alive (inr (IsHeld-drop_expired nonce until now seen lt h))
    ]

length-drop_expired : (now : ℕ) (seen : Seen) → length (drop_expired now seen) ≤ length seen
length-drop_expired now [] = omega arith
length-drop_expired now ((key, expiry) ∷ seen) = ground (arith, length-drop_expired now seen)

IsHeld-append :
    (nonce : Text) (until : ℕ) (seen more : Seen)
    → IsHeld nonce until seen
    → IsHeld nonce until (seen ++ more)
IsHeld-append nonce until [] more h = absurd h
IsHeld-append nonce until ((key, expiry) ∷ seen) more (inl h) = inl h
IsHeld-append nonce until ((key, expiry) ∷ seen) more (inr h) =
    inr (IsHeld-append nonce until seen more h)

IsHeld-last :
    (nonce : Text) (until : ℕ) (seen : Seen) → IsHeld nonce until (seen ++ (nonce, until) ∷ [])
IsHeld-last nonce until [] = inl (refl, omega arith)
IsHeld-last nonce until ((key, expiry) ∷ seen) = inr (IsHeld-last nonce until seen)

-- With room in the cache, eviction only drops what has expired.
evict_lem : (now : ℕ) (seen : Seen) → length seen ≤ 50_000 → evict now seen ≡ drop_expired now seen
unfolding evict
evict_lem now seen room = rw few
  where
    few : ltb 50_000 (length (drop_expired now seen)) ≡ false
    few = ground (arith, length-drop_expired now seen)

module _ (ttl : ℕ) where
  claim-IsHeld :
      (nonce other : Text) (until now : ℕ) (seen : Seen)
      → length seen ≤ 50_000
      → now < until
      → IsHeld nonce until seen
      → IsHeld nonce until (claim ttl other now seen).0
  unfolding claim
  claim-IsHeld nonce other until now seen room lt h =
      rw (evict_lem now seen room) (elim (Bool-cases (has other (drop_expired now seen))) [
        | inl taken ↦ rw taken (IsHeld-drop_expired nonce until now seen lt h)
        | inr free ↦ rw free (
            IsHeld-append nonce until (drop_expired now seen) _
              (IsHeld-drop_expired nonce until now seen lt h))
      ])

  length-claim :
      (nonce : Text) (now : ℕ) (seen : Seen) → length (claim ttl nonce now seen).0 ≤ length seen + 1
  unfolding claim evict
  length-claim nonce now seen = ground (
    arith,
    length-drop_expired now seen,
    length-append (drop_expired now seen) ((nonce, now + ttl) ∷ []),
  )

  claim_refused :
      (nonce : Text) (until now : ℕ) (seen : Seen)
      → length seen ≤ 50_000
      → now < until
      → IsHeld nonce until seen
      → (claim ttl nonce now seen).1 ≡ false
  unfolding claim
  claim_refused nonce until now seen room lt h = rw (
    evict_lem now seen room,
    has_held nonce until (drop_expired now seen) (IsHeld-drop_expired nonce until now seen lt h),
  )

  claim_taken :
      (nonce : Text) (now : ℕ) (seen : Seen)
      → (claim ttl nonce now seen).1 ≡ true
      → IsHeld nonce (now + ttl) (claim ttl nonce now seen).0
  unfolding claim
  claim_taken nonce now seen h = elim (Bool-cases (has nonce (evict now seen))) [
    | inl taken ↦ absurd (true_false (rw taken at h))
    | inr free ↦ rw free (IsHeld-last nonce (now + ttl) (evict now seen))
  ]
    where
      true_false : false ≡ true → ⊥
      true_false e = cc

  -- The cache after claims at the given times.
  abbrev pub claim_all : List (Text × ℕ) → Seen → Seen
  claim_all [] seen = seen
  claim_all ((nonce, now) ∷ later) seen = claim_all later (claim ttl nonce now seen).0

  claim_all-IsHeld :
      (nonce : Text) (until : ℕ) (later : List (Text × ℕ)) (seen : Seen)
      → length seen + length later ≤ 50_000
      → All (λ c. c.1 < until) later
      → IsHeld nonce until seen
      → IsHeld nonce until (claim_all later seen) × (length (claim_all later seen) ≤ 50_000)
  claim_all-IsHeld nonce until [] seen room early h = (h, omega arith)
  claim_all-IsHeld nonce until ((other, now) ∷ later) seen room early h =
      claim_all-IsHeld nonce until later (claim ttl other now seen).0
        (omega (arith, length-claim other now seen)) early.1
        (claim-IsHeld nonce other until now seen (omega arith) early.0 h)

  -- A nonce that was claimed at `start` is refused for the whole lifetime of its entry, whatever
  -- other claims come in between, as long as the cache has room for them all.
  pub claim_once :
      (nonce : Text) (start now : ℕ) (seen : Seen) (later : List (Text × ℕ))
      → (claim ttl nonce start seen).1 ≡ true
      → length seen + 1 + length later ≤ 50_000
      → All (λ c. c.1 < start + ttl) later
      → now < start + ttl
      → (claim ttl nonce now (claim_all later (claim ttl nonce start seen).0)).1 ≡ false
  claim_once nonce start now seen later free room early lt =
      let first = (claim ttl nonce start seen).0 in
      let (held, fits) =
        claim_all-IsHeld nonce (start + ttl) later first
          (omega (arith, length-claim nonce start seen)) early
          (claim_taken nonce start seen free) in
      claim_refused nonce (start + ttl) now (claim_all later first) fits lt held

-- The moment the entry expires, the nonce is free again.
pub claim_at_expiry :
    (ttl start : ℕ) (nonce : Text)
    → let first = (claim ttl nonce start []).0 in
      (claim ttl nonce start []).1 ≡ true × ((claim ttl nonce (start + ttl) first).1 ≡ true)
unfolding claim evict
claim_at_expiry ttl start nonce = ground arith
