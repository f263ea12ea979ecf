-- ===== src/Cash/Listing.antt =====
-- The paged history: listTransactions of packages/db/src/repositories/transactions.ts. The search, and
-- the filters of columns that the rows here have not, are left out; so is a cursor that is no work of
-- encodeCursor and whose id the database refuses, on which the statement throws.
pub mod Order
pub mod Follow
pub mod Skipped
use wallet_bot.Base.{
  ℕ, zero, suc, ◌+◌, Bool, true, false, not, ◌&&◌, ◌||◌, List, [], ◌∷◌, ◌++◌, Option, none, some,
  length, take, min, max, leb, ltb, ◌*◌, ◌/◌, ◌==◌, if◌then◌else◌,
}
use wallet_bot.Base.Text.{Text, eq_text}
use wallet_bot.Domain.Enums.{TxStatus}
use wallet_bot.Domain.StateMachines.{tx_index}
use wallet_bot.Money.Fiat.{FiatCurrency, same_currency}
use wallet_bot.Cash.{
  TxKind, TxType, income, expense, transfer, adjustment, TxDirection, money_in, money_out, internal,
  LedgerRow, same_account, is_cash, micros,
}
use wallet_bot.Cash.Cursor.{KeysetCursor, CursorCodec, encode_cursor, decode_cursor}

-- `from` and `to` are the starts of days, in microseconds.
pub record TransactionFilters : Type 0 where
  pub kind : Option TxKind
  pub type : Option TxType
  pub status : Option TxStatus
  pub direction : Option TxDirection
  pub cash_account_id : Option Text
  pub currency : Option FiatCurrency
  pub from : Option ℕ
  pub to : Option ℕ

pub record HistoryPage : Type 0 where
  pub items : List LedgerRow
  pub next_cursor : Option Text

-- What the rows are ordered by, in microseconds.
pub record RowKey : Type 0 where
  pub occurred_at : ℕ
  pub id : Text

abbrev pub key_of : LedgerRow → RowKey
key_of r = record { occurred_at = r.occurred_at; id = r.id }

-- `(${cursor.occurredAt}::timestamptz, ${cursor.id}::uuid)`
abbrev pub key_of_cursor : KeysetCursor → RowKey
key_of_cursor cursor = record { occurred_at = micros cursor.occurred_at; id = cursor.id }

-- The row's time as a `Date`, which drops what is below a millisecond.
abbrev pub cursor_of : LedgerRow → KeysetCursor
cursor_of r = record { occurred_at = r.occurred_at / 1000; id = r.id }

-- Ids in the order of their digits.
abbrev pub ltb_text : Text → Text → Bool
ltb_text s [] = false
ltb_text [] (d ∷ t) = true
ltb_text (c ∷ s) (d ∷ t) = ltb c d || (c == d && ltb_text s t)

-- `(occurred_at, id) < (..., ...)`
unfoldable pub is_below : RowKey → RowKey → Bool
is_below a b =
    ltb a.occurred_at b.occurred_at || (a.occurred_at == b.occurred_at && ltb_text a.id b.id)

-- `ORDER BY occurred_at DESC, id DESC`
abbrev pub place : LedgerRow → List LedgerRow → List LedgerRow
place r [] = r ∷ []
place r (q ∷ rows) =
    let rest = place r rows in if is_below (key_of q) (key_of r) then r ∷ q ∷ rows else q ∷ rest

unfoldable pub newest_first : List LedgerRow → List LedgerRow
newest_first [] = []
newest_first (r ∷ rows) = place r (newest_first rows)

abbrev pub or_any : {A : Type 0} → (A → Bool) → Option A → Bool
or_any test none = true
or_any test (some a) = test a

abbrev pub is_kind : LedgerRow → TxKind → Bool
is_kind r kind = if is_cash kind then is_cash r.kind else not (is_cash r.kind)

-- A number for each name, for `=`.
abbrev pub type_index : TxType → ℕ
type_index income = 0
type_index expense = 1
type_index transfer = 2
type_index adjustment = 3

abbrev pub direction_index : TxDirection → ℕ
direction_index money_in = 0
direction_index money_out = 1
direction_index internal = 2

-- A day in microseconds.
abbrev pub day : ℕ
day = 24 * 60 * 60 * 1000 * 1000

abbrev pub in_currency : Option FiatCurrency → FiatCurrency → Bool
in_currency none c = false
in_currency (some d) c = same_currency d c

abbrev pub matches : Text → TransactionFilters → LedgerRow → Bool
matches user_id filters r =
    eq_text r.user_id user_id
    && not r.is_deleted
    && or_any (is_kind r) filters.kind
    && or_any (λ type. type_index r.type == type_index type) filters.type
    && or_any (λ status. tx_index r.status == tx_index status) filters.status
    && or_any (λ direction. direction_index r.direction == direction_index direction)
        filters.direction
    && or_any (λ id. same_account r.cash_account_id (some id)) filters.cash_account_id
    && or_any (in_currency r.fiat_currency) filters.currency
    && or_any (λ from. leb from r.occurred_at) filters.from
    && or_any (λ to. ltb r.occurred_at (to + day)) filters.to

abbrev pub select : (LedgerRow → Bool) → List LedgerRow → List LedgerRow
select test [] = []
select test (r ∷ rows) = let rest = select test rows in if test r then r ∷ rest else rest

-- All rows that the filters let through, newest first.
unfoldable pub history : Text → TransactionFilters → List LedgerRow → List LedgerRow
history user_id filters rows = select (matches user_id filters) (newest_first rows)

abbrev pub after_cursor : Option KeysetCursor → LedgerRow → Bool
after_cursor cursor r = or_any (λ c. is_below (key_of r) (key_of_cursor c)) cursor

abbrev pub last_of : List LedgerRow → Option LedgerRow
last_of [] = none
last_of (r ∷ []) = some r
last_of (r ∷ q ∷ rows) = last_of (q ∷ rows)

unfoldable pub page_limit : ℕ → ℕ
page_limit limit = min (max limit 1) 100

module _ (codec : CursorCodec) where
  abbrev pub cursor_at : Option LedgerRow → Option Text
  cursor_at none = none
  cursor_at (some r) = some (encode_cursor codec (cursor_of r))

  -- One row more than the page holds is read.
  abbrev pub page_of : ℕ → List LedgerRow → HistoryPage
  page_of limit read =
      if ltb limit (length read)
      then record { items = take limit read; next_cursor = cursor_at (last_of (take limit read)) }
      else record { items = read; next_cursor = none }

  unfoldable pub list_transactions :
      Text → TransactionFilters → ℕ → Option Text → List LedgerRow → HistoryPage
  list_transactions user_id filters limit cursor rows = page_of (page_limit limit) (
      take (suc (page_limit limit))
        (select (after_cursor (decode_cursor codec cursor)) (history user_id filters rows)))
