-- ===== src/Auth/InitData.antt =====
-- Telegram's signed payload: packages/telegram/src/initdata.ts. Texts are lists of UTF-16 code units.
use wallet_bot.Base.{
  ℕ, ◌+◌, ◌*◌, Bool, true, false, not, ◌&&◌, ◌||◌, List, [], ◌∷◌, ◌++◌, Option, none, some, length,
  leb, ltb, ◌==◌, if◌then◌else◌,
}
use wallet_bot.Base.Result.{Result, ok, err, throw_if, ◌>>◌}
use wallet_bot.Base.Text.{Text, codes, eq_text, is_digit, all_digits, is_empty}
use wallet_bot.Base.Text.Digits.{value}
use wallet_bot.Domain.Enums.{ErrorCode, internal_error, invalid_init_data, init_data_expired}

abbrev pub max_init_data_length : ℕ
max_init_data_length = 4096

-- `FUTURE_SKEW_SECONDS`, in milliseconds.
abbrev pub future_skew_ms : ℕ
future_skew_ms = 60 * 1000

-- The fields of the schema that decide; its other fields are texts that are only stored.
pub record TelegramUser : Type 0 where
  pub id : ℕ
  pub is_bot : Option Bool

-- node:crypto, URLSearchParams, and JSON.parse with the schema of zod.
pub record Telegram : Type 0 where
  pub hmac : Text → Text → Text
  pub sha256 : Text → Text
  pub hex_of : Text → Text
  pub parse_query : Text → List (Text × Text)
  pub parse_user : Text → Option TelegramUser

pub record VerifiedInitData : Type 0 where
  pub user : TelegramUser
  pub auth_date : ℕ
  pub hash : Text

abbrev pub constant_time_equals : Telegram → Text → Text → Bool
constant_time_equals t a b = eq_text (t.sha256 a) (t.sha256 b)

-- `params.get(key)`; a missing entry and an empty one are both false in a condition.
abbrev pub get_param : Text → List (Text × Text) → Text
get_param key [] = []
get_param key ((k, value) ∷ entries) = if eq_text k key then value else get_param key entries

abbrev pub has_text : Text → List Text → Bool
has_text s [] = false
has_text s (t ∷ texts) = eq_text s t || has_text s texts

abbrev pub entry_texts : List Text → List (Text × Text) → List Text
entry_texts exclude [] = []
entry_texts exclude ((key, value) ∷ entries) =
    let rest = entry_texts exclude entries in
    if has_text key exclude then rest else (key ++ (b'=' ∷ value)) ∷ rest

-- The order of `sort()` on texts.
abbrev pub leb_text : Text → Text → Bool
leb_text [] t = true
leb_text (c ∷ s) [] = false
leb_text (c ∷ s) (d ∷ t) = ltb c d || (c == d && leb_text s t)

abbrev pub insert_text : Text → List Text → List Text
insert_text s [] = s ∷ []
insert_text s (t ∷ texts) =
    let rest = insert_text s texts in if leb_text s t then s ∷ t ∷ texts else t ∷ rest

abbrev pub sort_texts : List Text → List Text
sort_texts [] = []
sort_texts (s ∷ texts) = insert_text s (sort_texts texts)

-- `join('\n')`
abbrev pub join_lines : List Text → Text
join_lines [] = []
join_lines (s ∷ []) = s
join_lines (s ∷ t ∷ texts) = s ++ (10 ∷ join_lines (t ∷ texts))

unfoldable pub build_data_check_string : List (Text × Text) → List Text → Text
build_data_check_string params exclude = join_lines (sort_texts (entry_texts exclude params))

unfoldable pub compute_hash : Telegram → Text → Text → Text
compute_hash t bot_token data_check_string =
    t.hex_of (t.hmac (t.hmac (codes "WebAppData") bot_token) data_check_string)

abbrev pub is_hex_any_case : ℕ → Bool
is_hex_any_case c = is_digit c || (leb b'a' c && leb c b'f') || (leb b'A' c && leb c b'F')

abbrev pub all_hex : Text → Bool
all_hex [] = true
all_hex (c ∷ s) = is_hex_any_case c && all_hex s

-- `toLowerCase` of a text of hexadecimal digits.
abbrev pub to_lower_hex : Text → Text
to_lower_hex [] = []
to_lower_hex (c ∷ s) = (if leb b'A' c && leb c b'F' then c + 32 else c) ∷ to_lower_hex s

-- The match under either construction of the text to check.
unfoldable pub is_signed : Telegram → Text → List (Text × Text) → Bool
is_signed t bot_token params =
    let received = to_lower_hex (get_param (codes "hash") params) in
    let without_hash = build_data_check_string params (codes "hash" ∷ []) in
    let without_both = build_data_check_string params (codes "hash" ∷ codes "signature" ∷ []) in
    constant_time_equals t (compute_hash t bot_token without_hash) received
    || constant_time_equals t (compute_hash t bot_token without_both) received

-- `auth_date`, in milliseconds.
abbrev pub auth_date_ms : List (Text × Text) → ℕ
auth_date_ms params = value (get_param (codes "auth_date") params) * 1000

-- `ageSeconds > maxAgeSeconds` and `ageSeconds < -FUTURE_SKEW_SECONDS`.
unfoldable pub check_age : ℕ → ℕ → ℕ → Result ErrorCode (Unit {0})
check_age max_age_ms auth_date now =
    throw_if (ltb (auth_date + max_age_ms) now) init_data_expired
    >> throw_if (ltb (now + future_skew_ms) auth_date) invalid_init_data

abbrev pub is_true : Option Bool → Bool
is_true none = false
is_true (some b) = b

unfoldable pub with_parsed_user : ℕ → Text → Option TelegramUser → Result ErrorCode VerifiedInitData
with_parsed_user auth_date hash none = err invalid_init_data
with_parsed_user auth_date hash (some user) =
    if is_true user.is_bot
    then err invalid_init_data
    else ok (record { user = user; auth_date = auth_date; hash = hash })

unfoldable pub verify_params :
    Telegram → Text → ℕ → ℕ → List (Text × Text) → Result ErrorCode VerifiedInitData
verify_params t bot_token max_age_ms now params =
    let hash = get_param (codes "hash") params in
    let date = get_param (codes "auth_date") params in
    let user = get_param (codes "user") params in
    throw_if (not (length hash == 64 && all_hex hash)) invalid_init_data
    >> throw_if (not (is_signed t bot_token params)) invalid_init_data
    >> throw_if (not (leb 1 (length date) && leb (length date) 12 && all_digits date))
        invalid_init_data
    >> check_age max_age_ms (auth_date_ms params) now
    >> throw_if (is_empty user) invalid_init_data
    >> with_parsed_user (auth_date_ms params) (to_lower_hex hash) (t.parse_user user)

unfoldable pub verify_init_data : Telegram → Text → ℕ → ℕ → Text → Result ErrorCode VerifiedInitData
verify_init_data t bot_token max_age_ms now init_data =
    if is_empty bot_token
    then err internal_error
    else if is_empty init_data || ltb max_init_data_length (length init_data)
    then err invalid_init_data
    else verify_params t bot_token max_age_ms now (t.parse_query init_data)
