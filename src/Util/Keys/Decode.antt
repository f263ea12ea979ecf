-- ===== src/Util/Keys/Decode.antt =====
-- A reader of composite keys, which shows when the parts of a key can be told apart.
use wallet_bot.Base.{
  Bool, true, false, List, [], ◌∷◌, ◌++◌, ◌==◌, if◌then◌else◌, ◌≡◌, ◌≢◌, refl, ap, sym, ◌∙◌, arith,
  All, append_assoc, append-nil, Bool-cases, inl, inr,
}
use wallet_bot.Base.Text.{Text}
use wallet_bot.Util.Keys.{join, segment, segments, escape, has_separator, join_tail}

-- Splits at separators that no backslash escapes, and takes the escapes off.
decode : Bool → Text → Text → List Text
decode pending cur [] = cur ∷ []
decode true cur (c ∷ s) = decode false (cur ++ c ∷ []) s
decode false cur (c ∷ s) =
    let escaped = decode true cur s in
    let next = cur ∷ decode false [] s in
    let more = decode false (cur ++ c ∷ []) s in
    if c == b'\\' then escaped else if c == b':' then next else more

abbrev pub HasNoSlash : Text → Type 0
HasNoSlash = All (λ c. c ≢ b'\\')

decode-escape :
    (s rest cur : Text)
    → HasNoSlash s
    → decode false cur (escape s ++ rest) ≡ decode false (cur ++ s) rest
unfolding decode
decode-escape [] rest cur h = rw append-nil
decode-escape (c ∷ s) rest cur h =
    ground (arith, decode-escape s rest (cur ++ c ∷ []) h.1, append_assoc cur (c ∷ []) s)

decode_raw :
    (s rest cur : Text)
    → HasNoSlash s
    → has_separator s ≡ false
    → decode false cur (s ++ rest) ≡ decode false (cur ++ s) rest
unfolding decode
decode_raw [] rest cur h e = rw append-nil
decode_raw (c ∷ s) rest cur h e =
    ground (arith, decode_raw s rest (cur ++ c ∷ []) h.1, append_assoc cur (c ∷ []) s)

decode-segment :
    (s rest cur : Text)
    → HasNoSlash s
    → decode false cur (segment s ++ rest) ≡ decode false (cur ++ s) rest
unfolding segment
decode-segment s rest cur h = elim (Bool-cases (has_separator s)) [
  | inl some_separator ↦ rw some_separator (decode-escape s rest cur h)
  | inr no_separator ↦ rw no_separator (decode_raw s rest cur h no_separator)
]

decode_tail :
    (cur : Text) (parts : List Text)
    → All HasNoSlash parts
    → decode false cur (join_tail (segments parts)) ≡ cur ∷ parts
unfolding decode
decode_tail cur [] h = refl
decode_tail cur (p ∷ parts) h = ap (λ t. cur ∷ t) (next p parts h (decode_tail p parts h.1))
  where
    next :
        (p : Text) (parts : List Text)
        → All HasNoSlash (p ∷ parts)
        → decode false p (join_tail (segments parts)) ≡ p ∷ parts
        → decode false [] (segment p ++ join_tail (segments parts)) ≡ p ∷ parts
    next p parts h ih = decode-segment p (join_tail (segments parts)) [] h.0 ∙ ih

decode-join :
    (p : Text) (parts : List Text)
    → All HasNoSlash (p ∷ parts)
    → decode false [] (join (p ∷ parts)) ≡ p ∷ parts
unfolding join
decode-join p parts h =
    decode-segment p (join_tail (segments parts)) [] h.0 ∙ decode_tail p parts h.1

-- Among parts without backslashes, whatever separators they hold and however many they are, equal
-- keys come from equal parts.
pub join-injective :
    (p q : Text) (ps qs : List Text)
    → All HasNoSlash (p ∷ ps)
    → All HasNoSlash (q ∷ qs)
    → join (p ∷ ps) ≡ join (q ∷ qs)
    → ◌≡◌ {A = List Text} (p ∷ ps) (q ∷ qs)
join-injective p q ps qs hp hq e =
    sym (decode-join p ps hp) ∙ ap (decode false []) e ∙ decode-join q qs hq
