-- ===== src/Cash/Listing/Skipped.antt =====
-- Rows that no page lists: encodeCursor and listTransactions of
-- packages/db/src/repositories/transactions.ts, on times that are no whole milliseconds.
use wallet_bot.Base.{
  ℕ, zero, suc, ◌/◌, ◌≤◌, ◌≡◌, sym, subst, true, Bool-cases, inl, inr, List, [], ◌∷◌, ◌++◌, All,
  some, length, take, ltb, arith,
}
use native.Mathlib.Nat.{div-add-mod}
use wallet_bot.Base.Text.{Text}
use wallet_bot.Cash.{LedgerRow, micros}
use wallet_bot.Cash.Cursor.{
  CursorCodec, IsCodec, KeysetCursor, last_date, is_id, encode_cursor, decode_cursor-encode_cursor,
}
use wallet_bot.Cash.Listing.{
  TransactionFilters, key_of, key_of_cursor, cursor_of, is_below, select, after_cursor, last_of,
  cursor_at, page_limit, page_of, history, list_transactions,
}
use wallet_bot.Cash.Listing.Order.{history-All}
use wallet_bot.Cash.Listing.Follow.{follow, next_rows}

-- A time that a `Date` holds, up to its microseconds, and an id in the form of a uuid.
abbrev pub IsDated : LedgerRow → Type 0
IsDated r = (r.occurred_at / 1000 ≤ last_date) × (is_id r.id ≡ true)

-- A row no later than a time.
abbrev IsUpTo : ℕ → LedgerRow → Type 0
IsUpTo time r = (r.occurred_at ≤ time) × IsDated r

below-IsUpTo :
    (cursor : KeysetCursor) (r : LedgerRow)
    → is_below (key_of r) (key_of_cursor cursor) ≡ true
    → r.occurred_at ≤ micros cursor.occurred_at
unfolding is_below
below-IsUpTo cursor r h = ground (arith, h)

select-IsUpTo :
    (cursor : KeysetCursor) (rows : List LedgerRow)
    → All IsDated rows
    → All (IsUpTo (micros cursor.occurred_at)) (select (after_cursor (some cursor)) rows)
select-IsUpTo cursor [] h = tt
select-IsUpTo cursor (r ∷ rows) h = elim (Bool-cases (is_below (key_of r) (key_of_cursor cursor))) [
  | inl e ↦ rw e ((below-IsUpTo cursor r e, h.0), select-IsUpTo cursor rows h.1)
  | inr e ↦ rw e (select-IsUpTo cursor rows h.1)
]

All-take :
    (P : LedgerRow → Type 0) (k : ℕ) (rows : List LedgerRow) → All P rows → All P (take k rows)
All-take P zero rows h = tt
All-take P (suc k) [] h = tt
All-take P (suc k) (r ∷ rows) h = (h.0, All-take P k rows h.1)

All-append : (P : LedgerRow → Type 0) (a b : List LedgerRow) → All P a → All P b → All P (a ++ b)
All-append P [] b h k = k
All-append P (r ∷ a) b h k = (h.0, All-append P a b h.1 k)

All-earlier :
    (time time' : ℕ) (rows : List LedgerRow)
    → time ≤ time'
    → All (λ q. q.occurred_at ≤ time) rows
    → All (λ q. q.occurred_at ≤ time') rows
All-earlier time time' [] h k = tt
All-earlier time time' (r ∷ rows) h k = (omega (arith, h, k.0), All-earlier time time' rows h k.1)

All-times :
    (time : ℕ) (rows : List LedgerRow)
    → All (IsUpTo time) rows
    → All (λ q. q.occurred_at ≤ time) rows
All-times time [] h = tt
All-times time (r ∷ rows) h = (h.0.0, All-times time rows h.1)

module _ (codec : CursorCodec) (laws : IsCodec codec) where
  -- A page, and what is read after it.
  page-up_to :
      (limit time : ℕ) (read : List LedgerRow) (next : Text → List LedgerRow)
      → All (IsUpTo time) read
      → ((r : LedgerRow)
          → IsUpTo time r
          → All (λ q. q.occurred_at ≤ time) (next (encode_cursor codec (cursor_of r))))
      → All
          (λ q. q.occurred_at ≤ time)
          ((page_of codec limit read).items
            ++ next_rows (page_of codec limit read).next_cursor next)
  page-up_to limit time read next h behind = elim (Bool-cases (ltb limit (length read))) [
    | inl e ↦ rw e (
        All-append _ (take limit read) _
          (All-times time (take limit read) (All-take (IsUpTo time) limit read h))
          (rest (take limit read) (All-take (IsUpTo time) limit read h)))
    | inr e ↦ rw e (All-append _ read [] (All-times time read h) tt)
  ]
    where
      rest :
          (items : List LedgerRow)
          → All (IsUpTo time) items
          → All (λ q. q.occurred_at ≤ time) (next_rows (cursor_at codec (last_of items)) next)
      rest [] k = tt
      rest (r ∷ []) k = behind r k.0
      rest (r ∷ q ∷ items) k = rest (q ∷ items) k.1

  -- For any Base64 and texts of dates that read back what they write, where the times are those of a
  -- `Date` up to their microseconds and the ids have the form of uuids: however many pages are read
  -- after the cursor of a row, they list no row that is later than the start of the row's millisecond.
  -- So rows that come behind it in the order and lie in the same millisecond, after its start, are on
  -- none of these pages.
  pub later_skipped :
      (user_id : Text) (filters : TransactionFilters) (limit pages : ℕ) (rows : List LedgerRow)
      (r : LedgerRow)
      → All IsDated rows
      → IsDated r
      → All
          (λ q. q.occurred_at ≤ micros (r.occurred_at / 1000))
          (follow codec user_id filters limit pages (some (encode_cursor codec (cursor_of r))) rows)
  unfolding list_transactions
  later_skipped user_id filters limit zero rows r dated h = tt
  later_skipped user_id filters limit (suc pages) rows r dated h =
      page-up_to (page_limit limit) (micros (r.occurred_at / 1000)) _
        (λ c. follow codec user_id filters limit pages (some c) rows)
        (subst
          (λ c. All (IsUpTo (micros (r.occurred_at / 1000))) (
            take (suc (page_limit limit)) (select (after_cursor c) (history user_id filters rows))))
          (sym (decode_cursor-encode_cursor codec laws (cursor_of r) h.0 h.1))
          (All-take _ (suc (page_limit limit)) _ (
            select-IsUpTo (cursor_of r) (history user_id filters rows)
              (history-All IsDated user_id filters rows dated))))
        (λ q k.
          All-earlier (micros (q.occurred_at / 1000)) (micros (r.occurred_at / 1000)) _
            (omega (arith, k.0, div-add-mod q.occurred_at 1000))
            (later_skipped user_id filters limit pages rows q dated k.1))
