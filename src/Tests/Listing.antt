-- ===== src/Tests/Listing.antt =====
-- The paged history on concrete inputs.
use wallet_bot.Base.{
  ℕ, zero, suc, ◌≤◌, ◌≡◌, refl, ap, false, List, [], ◌∷◌, All, Option, none, some, length, arith,
}
use wallet_bot.Base.Int.{pos}
use wallet_bot.Base.Text.{Text, codes}
use wallet_bot.Domain.Enums.{confirmed}
use wallet_bot.Money.Fiat.{usd}
use wallet_bot.Cash.{cash, income, money_in, manual, LedgerRow}
use wallet_bot.Cash.Cursor.{CursorCodec, IsCodec, IsAscii, encode_cursor}
use wallet_bot.Cash.Listing.{TransactionFilters, history, cursor_of}
use wallet_bot.Cash.Listing.Follow.{IsNamed, follow, follow-history}
use wallet_bot.Cash.Listing.Skipped.{later_skipped}

-- Texts in place of their base64url, and a stroke for each millisecond in place of a date.
abbrev strokes : ℕ → Text
strokes zero = []
strokes (suc n) = 49 ∷ strokes n

abbrev read_strokes : Text → Option ℕ
read_strokes [] = none
read_strokes (c ∷ s) = some (length s)

abbrev codec : CursorCodec
codec = record {
  to_iso_string = λ ms. 84 ∷ strokes ms;
  parse_date = read_strokes;
  to_base64url = λ t. t;
  of_base64url = λ t. t;
}

length-strokes : (n : ℕ) → length (strokes n) ≡ n
length-strokes zero = refl
length-strokes (suc n) = ap suc (length-strokes n)

strokes-IsAscii : (n : ℕ) → IsAscii (strokes n)
strokes-IsAscii zero = tt
strokes-IsAscii (suc n) = (omega arith, strokes-IsAscii n)

codec-IsCodec : IsCodec codec
codec-IsCodec = record {
  reads_base64url = λ t h. refl;
  reads_empty = refl;
  reads_date = λ ms h. ap some (length-strokes ms);
  date_ascii = λ ms h. (omega arith, strokes-IsAscii ms);
  no_date = refl;
}

abbrev row_at : Text → ℕ → LedgerRow
row_at id time = record {
  id = id;
  user_id = codes "u";
  kind = cash;
  type = income;
  direction = money_in;
  status = confirmed;
  source = manual;
  title = codes "x";
  occurred_at = time;
  cash_account_id = some (codes "a");
  fiat_currency = some usd;
  fiat_amount_minor = some (pos 2000);
  value_usd_minor = some (pos 2000);
  value_ils_minor = none;
  idempotency_key = some (codes "k1");
  is_deleted = false;
}

abbrev id_a : Text
id_a = codes "00000000-0000-4000-8000-00000000000a"

abbrev id_b : Text
id_b = codes "00000000-0000-4000-8000-00000000000b"

abbrev id_c : Text
id_c = codes "00000000-0000-4000-8000-00000000000c"

abbrev three_rows : List LedgerRow
three_rows = row_at id_a 5000 ∷ row_at id_c 7000 ∷ row_at id_b 7000 ∷ []

-- Two rows of one millisecond, as `now()` gives them.
abbrev two_rows : List LedgerRow
two_rows = row_at id_a 7200 ∷ row_at id_b 7500 ∷ []

abbrev no_filters : TransactionFilters
no_filters = record {
  kind = none;
  type = none;
  status = none;
  direction = none;
  cash_account_id = none;
  currency = none;
  from = none;
  to = some 100;
}

abbrev ids : List LedgerRow → List Text
ids [] = []
ids (r ∷ rows) = r.id ∷ ids rows

three_pages :
    ids (follow codec (codes "u") no_filters 1 3 none three_rows) ≡ (id_c ∷ id_b ∷ id_a ∷ [])
unfolding history wallet_bot.Cash.Listing.list_transactions wallet_bot.Cash.Listing.page_limit
    wallet_bot.Cash.Listing.newest_first wallet_bot.Cash.Listing.is_below
    wallet_bot.Cash.Cursor.decode_cursor encode_cursor
three_pages = refl

one_is_lost : ids (follow codec (codes "u") no_filters 1 3 none two_rows) ≡ (id_b ∷ [])
unfolding history wallet_bot.Cash.Listing.list_transactions wallet_bot.Cash.Listing.page_limit
    wallet_bot.Cash.Listing.newest_first wallet_bot.Cash.Listing.is_below
    wallet_bot.Cash.Cursor.decode_cursor encode_cursor
one_is_lost = refl

both_are_there : ids (history (codes "u") no_filters two_rows) ≡ (id_b ∷ id_a ∷ [])
unfolding history wallet_bot.Cash.Listing.newest_first wallet_bot.Cash.Listing.is_below
both_are_there = refl

three-IsNamed : All IsNamed three_rows
three-IsNamed =
    ((refl, omega arith, refl), ((refl, omega arith, refl), ((refl, omega arith, refl), tt)))

follow-history_example :
    follow codec (codes "u") no_filters 1 3 none three_rows
    ≡ history (codes "u") no_filters three_rows
unfolding history wallet_bot.Cash.Listing.newest_first wallet_bot.Cash.Listing.is_below
follow-history_example =
    follow-history codec codec-IsCodec (codes "u") no_filters 1 3 three_rows refl three-IsNamed
      (omega arith)

later_skipped_example :
    All
      (λ q. q.occurred_at ≤ 7000)
      (follow codec
        (codes "u")
        no_filters
        1
        3
        (some (encode_cursor codec (cursor_of (row_at id_b 7500))))
        two_rows)
later_skipped_example =
    later_skipped codec codec-IsCodec (codes "u") no_filters 1 3 two_rows (row_at id_b 7500)
      ((omega arith, refl), ((omega arith, refl), tt)) (omega arith, refl)
