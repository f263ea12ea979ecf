-- ===== src/Cash/Cursor.antt =====
-- The text of a cursor: encodeCursor and decodeCursor of
-- packages/db/src/repositories/transactions.ts. Base64 and the texts of dates are parameters; times
-- before 1970 are left out.
use wallet_bot.Base.{
  ℕ, ◌≤◌, ◌<◌, ◌≡◌, refl, Bool, true, ◌&&◌, ◌||◌, leb, ◌==◌, [], ◌∷◌, ◌++◌, All, Option, none, some,
  length, arith, if◌then◌else◌,
}
use wallet_bot.Base.Text.{Text}

-- A `Date`, in milliseconds, and an id.
pub record KeysetCursor : Type 0 where
  pub occurred_at : ℕ
  pub id : Text

-- `toISOString`, `new Date(text)`, which may be no date, and the base64url of the bytes of a text with
-- its decoder.
pub record CursorCodec : Type 0 where
  pub to_iso_string : ℕ → Text
  pub parse_date : Text → Option ℕ
  pub to_base64url : Text → Text
  pub of_base64url : Text → Text

-- The last moment of a `Date`.
abbrev pub last_date : ℕ
last_date = 8640000000000000

abbrev pub IsAscii : Text → Type 0
IsAscii = All (λ c. c < 128)

-- What is documented of them: texts of ASCII characters are read back, a date is read back, and the
-- empty text is no date.
pub record IsCodec (codec : CursorCodec) : Type 0 where
  pub reads_base64url : (t : Text) → IsAscii t → codec.of_base64url (codec.to_base64url t) ≡ t
  pub reads_empty : codec.of_base64url [] ≡ []
  pub reads_date : (ms : ℕ) → ms ≤ last_date → codec.parse_date (codec.to_iso_string ms) ≡ some ms
  pub date_ascii : (ms : ℕ) → ms ≤ last_date → IsAscii (codec.to_iso_string ms)
  pub no_date : codec.parse_date [] ≡ none

-- `|`
abbrev bar : ℕ
bar = 124

abbrev between : ℕ → ℕ → ℕ → Bool
between low high c = leb low c && leb c high

-- One of `[0-9a-f-]`, in either case.
abbrev is_id_char : ℕ → Bool
is_id_char c = between 48 57 c || between 97 102 c || between 65 70 c || c == 45

abbrev are_id_chars : Text → Bool
are_id_chars [] = true
are_id_chars (c ∷ s) = is_id_char c && are_id_chars s

abbrev pub is_id : Text → Bool
is_id s = length s == 36 && are_id_chars s

abbrev split_behind : ℕ → Text → Option (Text × Text) → Option (Text × Text)
split_behind c s (some (before, behind)) = some (c ∷ before, behind)
split_behind c s none = if c == bar then some ([], s) else none

-- Cut at the last `|`.
abbrev split_last : Text → Option (Text × Text)
split_last [] = none
split_last (c ∷ s) = split_behind c s (split_last s)

abbrev cursor_with : Text → Option ℕ → Option KeysetCursor
cursor_with id none = none
cursor_with id (some ms) = if is_id id then some (record { occurred_at = ms; id = id }) else none

module _ (codec : CursorCodec) where
  unfoldable pub encode_cursor : KeysetCursor → Text
  encode_cursor cursor =
      codec.to_base64url (codec.to_iso_string cursor.occurred_at ++ (bar ∷ cursor.id))

  abbrev cursor_of_parts : Option (Text × Text) → Option KeysetCursor
  cursor_of_parts none = none
  cursor_of_parts (some ([], id)) = none
  cursor_of_parts (some (c ∷ date, id)) = cursor_with id (codec.parse_date (c ∷ date))

  -- No cursor for whatever is malformed.
  unfoldable pub decode_cursor : Option Text → Option KeysetCursor
  decode_cursor none = none
  decode_cursor (some []) = none
  decode_cursor (some (c ∷ s)) = cursor_of_parts (split_last (codec.of_base64url (c ∷ s)))

id_chars-IsAscii : (s : Text) → are_id_chars s ≡ true → IsAscii s
id_chars-IsAscii [] h = tt
id_chars-IsAscii (c ∷ s) h = (ground (arith, h), id_chars-IsAscii s (ground (arith, h)))

no_bar : (s : Text) → are_id_chars s ≡ true → split_last s ≡ none
no_bar [] h = refl
no_bar (c ∷ s) h = ground (arith, h, no_bar s)

split_last-append : (a s : Text) → split_last s ≡ none → split_last (a ++ (bar ∷ s)) ≡ some (a, s)
split_last-append [] s h = rw h refl
split_last-append (c ∷ a) s h = rw (split_last-append a s h) refl

append-IsAscii : (a b : Text) → IsAscii a → IsAscii b → IsAscii (a ++ b)
append-IsAscii [] b h k = k
append-IsAscii (c ∷ a) b h k = (h.0, append-IsAscii a b h.1 k)

module _ (codec : CursorCodec) (laws : IsCodec codec) where
  decode-text :
      (t date id : Text) (ms : ℕ)
      → codec.of_base64url t ≡ date ++ (bar ∷ id)
      → codec.parse_date date ≡ some ms
      → is_id id ≡ true
      → decode_cursor codec (some t) ≡ some (record { occurred_at = ms; id = id })
  unfolding decode_cursor
  decode-text t [] id ms e d h = absurd (cc (d, laws.no_date))
  decode-text [] (c ∷ date) id ms e d h = absurd (cc (e, laws.reads_empty))
  decode-text (x ∷ t) (c ∷ date) id ms e d h =
      rw (e, split_last-append (c ∷ date) id (no_bar id (ground (arith, h))), d, h) refl

  -- The text of a cursor is read back.
  pub decode_cursor-encode_cursor :
      (cursor : KeysetCursor)
      → cursor.occurred_at ≤ last_date
      → is_id cursor.id ≡ true
      → decode_cursor codec (some (encode_cursor codec cursor)) ≡ some cursor
  unfolding encode_cursor
  decode_cursor-encode_cursor cursor fits h =
      decode-text _ (codec.to_iso_string cursor.occurred_at) cursor.id cursor.occurred_at
        (laws.reads_base64url _ (
          append-IsAscii _ (bar ∷ cursor.id) (laws.date_ascii cursor.occurred_at fits)
            (omega arith, id_chars-IsAscii cursor.id (ground (arith, h)))))
        (laws.reads_date cursor.occurred_at fits) h
