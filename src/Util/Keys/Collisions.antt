-- ===== src/Util/Keys/Collisions.antt =====
-- When composite keys are equal.
use wallet_bot.Base.{
  true, false, [], ◌∷◌, ◌++◌, ◌≡◌, ◌≢◌, refl, ◌∙◌, arith, All, append_assoc, append-nil, append-nil,
}
use wallet_bot.Base.Text.{Text}
use wallet_bot.Util.Keys.{join, segment, escape, has_separator}

-- A character that `segment` leaves alone.
abbrev pub IsPlain : Text → Type 0
IsPlain = All (λ c. (c ≢ b':') × (c ≢ b'\\'))

has_separator_plain : (s : Text) → IsPlain s → has_separator s ≡ false
has_separator_plain [] h = refl
has_separator_plain (c ∷ s) h = ground (arith, has_separator_plain s h.1)

segment_plain : (s : Text) → IsPlain s → segment s ≡ s
unfolding segment
segment_plain s h = rw (has_separator_plain s h)

has_separator_append : (s t : Text) → has_separator (s ++ b':' ∷ t) ≡ true
has_separator_append [] t = refl
has_separator_append (c ∷ s) t = ground (arith, has_separator_append s t)

escape_plain : (s t : Text) → IsPlain s → escape (s ++ t) ≡ s ++ escape t
escape_plain [] t h = refl
escape_plain (c ∷ s) t h = ground (arith, escape_plain s t h.1)

escape_self : (s : Text) → IsPlain s → escape s ≡ s
escape_self [] h = refl
escape_self (c ∷ s) h = ground (arith, escape_self s h.1)

-- A segment with a separator inside: the separator is escaped.
segment_pair :
    (x y : Text) → IsPlain x → IsPlain y → segment (x ++ b':' ∷ y) ≡ x ++ b'\\' ∷ b':' ∷ y
unfolding segment
segment_pair x y hx hy =
    rw (has_separator_append x y) (escape_plain x (b':' ∷ y) hx ∙ rw (escape_self y hy))

has_separator_slash : (s : Text) → IsPlain s → has_separator (s ++ b'\\' ∷ []) ≡ false
has_separator_slash [] h = refl
has_separator_slash (c ∷ s) h = ground (arith, has_separator_slash s h.1)

-- A segment that ends in a backslash and has no separator: the backslash is left alone.
segment_slash : (s : Text) → IsPlain s → segment (s ++ b'\\' ∷ []) ≡ s ++ b'\\' ∷ []
unfolding segment
segment_slash s h = rw (has_separator_slash s h)

-- Two different triples of segments with one key, for any texts without separators and
-- backslashes: the escape of a separator in one is a backslash at the end of a segment in the
-- other.
pub join_collision :
    (x y z w : Text)
    → IsPlain x
    → IsPlain y
    → IsPlain z
    → IsPlain w
    → join ((x ++ b'\\' ∷ []) ∷ y ∷ (z ++ b':' ∷ w) ∷ [])
      ≡ join ((x ++ b':' ∷ y) ∷ (z ++ b'\\' ∷ []) ∷ w ∷ [])
unfolding join
join_collision x y z w hx hy hz hw =
    rw
      (
        segment_slash x hx,
        segment_plain y hy,
        segment_pair z w hz hw,
        segment_pair x y hx hy,
        segment_slash z hz,
        segment_plain w hw,
      )
      (simp (append_assoc, append-nil))
