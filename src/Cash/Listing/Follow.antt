-- ===== src/Cash/Listing/Follow.antt =====
-- Following the cursors: listTransactions of packages/db/src/repositories/transactions.ts, page after
-- page.
use wallet_bot.Base.{
  ℕ, zero, suc, ◌-◌, ◌/◌, ◌%◌, ◌≤◌, ◌<◌, ◌≡◌, refl, sym, subst, ◌∙◌, ap, Bool, true, false,
  Bool-cases, inl, inr, List, [], ◌∷◌, ◌++◌, All, Option, none, some, length, take, drop,
  append_assoc, append-nil, take-append-drop, length-take, length-drop, arith, ltb,
}
use wallet_bot.Base.Text.{Text}
use native.Mathlib.Nat.{div-add-mod}
use wallet_bot.Cash.{LedgerRow, micros}
use wallet_bot.Cash.Cursor.{
  CursorCodec, IsCodec, last_date, is_id, encode_cursor, decode_cursor, decode_cursor-encode_cursor,
}
use wallet_bot.Cash.Listing.{
  TransactionFilters, key_of, key_of_cursor, cursor_of, is_below, select, after_cursor, last_of,
  cursor_at, page_limit, page_of, history, list_transactions,
}
use wallet_bot.Cash.Listing.Order.{
  IsOrdered, distinct_ids, below_asym, not_below_itself, history-IsOrdered, history-All,
}

-- The rows of the next page, if there is one.
abbrev pub next_rows : Option Text → (Text → List LedgerRow) → List LedgerRow
next_rows none read = []
next_rows (some c) read = read c

-- The rows of so many pages at most, each read after the cursor of the one before it.
abbrev pub follow :
    CursorCodec → Text → TransactionFilters → ℕ → ℕ → Option Text → List LedgerRow → List LedgerRow
follow codec user_id filters limit zero cursor rows = []
follow codec user_id filters limit (suc pages) cursor rows =
    let page = list_transactions codec user_id filters limit cursor rows in
    page.items
    ++ next_rows page.next_cursor (λ c. follow codec user_id filters limit pages (some c) rows)

-- A row that a cursor names exactly: a whole millisecond that a `Date` can hold, and an id in the form
-- of a uuid.
abbrev pub IsNamed : LedgerRow → Type 0
IsNamed r = (r.occurred_at % 1000 ≡ 0) × (r.occurred_at / 1000 ≤ last_date) × (is_id r.id ≡ true)

key_of_named : (r : LedgerRow) → IsNamed r → key_of_cursor (cursor_of r) ≡ key_of r
key_of_named r (whole, fits, uuid) = rw exact refl
  where
    exact : micros (r.occurred_at / 1000) ≡ r.occurred_at
    exact = omega (arith, whole, div-add-mod r.occurred_at 1000)

All-middle :
    (P : LedgerRow → Type 0) (before : List LedgerRow) (r : LedgerRow) (rest : List LedgerRow)
    → All P (before ++ (r ∷ rest))
    → P r
All-middle P [] r rest h = h.0
All-middle P (q ∷ before) r rest h = All-middle P before r rest h.1

select-All :
    (test : LedgerRow → Bool) (rows : List LedgerRow)
    → All (λ q. test q ≡ true) rows
    → select test rows ≡ rows
select-All test [] h = refl
select-All test (r ∷ rows) h = rw (h.0, select-All test rows h.1) refl

-- Below the key of a row come the rows behind it.
select-below :
    (before : List LedgerRow) (r : LedgerRow) (rest : List LedgerRow)
    → IsOrdered (before ++ (r ∷ rest))
    → select (λ q. is_below (key_of q) (key_of r)) (before ++ (r ∷ rest)) ≡ rest
select-below [] r rest h = rw (not_below_itself (key_of r)) (select-All _ rest h.0)
select-below (q ∷ before) r rest h =
    rw (below_asym (key_of r) (key_of q) (All-middle _ before r rest h.0))
      (select-below before r rest h.1)

-- The rows of a full page, of which the last one is known.
record Cut (k : ℕ) (rows : List LedgerRow) : Type 0 where
  init : List LedgerRow
  last : LedgerRow
  taken : take (suc k) rows ≡ init ++ (last ∷ [])
  whole : rows ≡ init ++ (last ∷ drop (suc k) rows)
  found : last_of (take (suc k) rows) ≡ some last

cut : (k : ℕ) (rows : List LedgerRow) → k < length rows → Cut k rows
cut k [] long = absurd (omega (arith, long))
cut zero (r ∷ rows) long = record { init = []; last = r; taken = refl; whole = refl; found = refl }
cut (suc k) (r ∷ []) long = absurd (omega (arith, long))
cut (suc k) (r ∷ q ∷ rows) long =
    let c = cut k (q ∷ rows) (omega (arith, long)) in
    record {
      init = r ∷ c.init;
      last = c.last;
      taken = ap (λ t. r ∷ t) c.taken;
      whole = ap (λ t. r ∷ t) c.whole;
      found = c.found;
    }

take-take : (k : ℕ) (rows : List LedgerRow) → take k (take (suc k) rows) ≡ take k rows
take-take zero rows = refl
take-take (suc k) [] = refl
take-take (suc k) (r ∷ rows) = ap (λ t. r ∷ t) (take-take k rows)

take_whole : (k : ℕ) (rows : List LedgerRow) → length rows ≤ k → take k rows ≡ rows
take_whole k [] short = take-nil k
  where
    take-nil : (k : ℕ) → take {A = LedgerRow} k [] ≡ []
    take-nil zero = refl
    take-nil (suc k) = refl
take_whole zero (r ∷ rows) short = absurd (omega (arith, short))
take_whole (suc k) (r ∷ rows) short = ap (λ t. r ∷ t) (take_whole k rows (omega (arith, short)))

module _ (codec : CursorCodec) where
  full_page :
      (limit : ℕ) (rows : List LedgerRow)
      → limit < length rows
      → page_of codec limit (take (suc limit) rows) ≡ record {
        items = take limit rows;
        next_cursor = cursor_at codec (last_of (take limit rows));
      }
  full_page limit rows long = rw (more, take-take limit rows) refl
    where
      more : ltb limit (length (take (suc limit) rows)) ≡ true
      more = ground (arith, long, length-take (suc limit) rows)

  last_page :
      (limit : ℕ) (rows : List LedgerRow)
      → length rows ≤ limit
      → page_of codec limit (take (suc limit) rows) ≡ record { items = rows; next_cursor = none }
  last_page limit rows short = rw (take_whole (suc limit) rows (omega (arith, short)), fits) refl
    where
      fits : ltb limit (length rows) ≡ false
      fits = ground (arith, short)

  page_limit-pos : (limit : ℕ) → page_limit limit ≡ suc (page_limit limit - 1)
  unfolding page_limit
  page_limit-pos limit = omega arith

  -- After the text of the cursor of a row come the rows behind it.
  after_text :
      (before : List LedgerRow) (r : LedgerRow) (rest rows : List LedgerRow)
      → IsCodec codec
      → IsNamed r
      → IsOrdered rows
      → rows ≡ before ++ (r ∷ rest)
      → select (after_cursor (decode_cursor codec (some (encode_cursor codec (cursor_of r))))) rows
        ≡ rest
  after_text before r rest rows laws named ordered whole =
      subst (λ c. select (after_cursor c) rows ≡ rest)
        (sym (decode_cursor-encode_cursor codec laws (cursor_of r) named.1 named.2))
        (subst (λ k. select (λ q. is_below (key_of q) k) rows ≡ rest) (sym (key_of_named r named))
          (subst (λ h. select (λ q. is_below (key_of q) (key_of r)) h ≡ rest) (sym whole)
            (select-below before r rest (subst IsOrdered whole ordered))))

  -- From a page on: what follows the cursor is read to its end.
  follow-rest :
      (laws : IsCodec codec) (user_id : Text) (filters : TransactionFilters) (limit k pages : ℕ)
      (rows before rest : List LedgerRow) (cursor : Option Text)
      → page_limit limit ≡ suc k
      → IsOrdered (history user_id filters rows)
      → All IsNamed (history user_id filters rows)
      → history user_id filters rows ≡ before ++ rest
      → select (after_cursor (decode_cursor codec cursor)) (history user_id filters rows) ≡ rest
      → length rest ≤ pages
      → follow codec user_id filters limit pages cursor rows ≡ rest
  unfolding list_transactions
  follow-rest laws user_id filters limit k zero rows before [] cursor size ordered named split here
        enough =
      refl
  follow-rest laws user_id filters limit k zero rows before (r ∷ rest) cursor size ordered named
        split here enough =
      absurd (omega (arith, enough))
  follow-rest laws user_id filters limit k (suc pages) rows before rest cursor size ordered named
        split here enough =
      elim (Bool-cases (ltb (suc k) (length rest))) [
        | inr e ↦ rw (here, size, last_page (suc k) rest (ground (arith, e))) (append-nil rest)
        | inl e ↦
            (let c = cut k rest (ground (arith, e)) in
              let behind = drop (suc k) rest in
              let whole : history user_id filters rows ≡ (before ++ c.init) ++ (c.last ∷ behind) =
                split
                ∙ ap (λ t. before ++ t) c.whole
                ∙ sym (append_assoc before c.init (c.last ∷ behind)) in
              let below =
                follow-rest laws user_id filters limit k pages rows
                  ((before ++ c.init) ++ (c.last ∷ [])) behind
                  (some (encode_cursor codec (cursor_of c.last))) size ordered named
                  (whole ∙ sym (append_assoc (before ++ c.init) (c.last ∷ []) behind))
                  (after_text (before ++ c.init) c.last behind (history user_id filters rows) laws
                    (All-middle IsNamed (before ++ c.init) c.last behind
                      (subst (All IsNamed) whole named))
                    ordered whole)
                  (omega (arith, enough, length-drop (suc k) rest)) in
              rw (here, size, full_page (suc k) rest (ground (arith, e)), c.found)
                (subst (λ t. take (suc k) rest ++ t ≡ rest) (sym below)
                  (take-append-drop (suc k) rest)))
      ]

  -- For any Base64 and texts of dates that read back what they write: where no id occurs twice, the
  -- ids have the form of uuids and the time of each row is a whole millisecond that a `Date` holds, for
  -- each user, filter and limit, reading the first page and then the page after the cursor of the one
  -- before, for at least as many pages as the history has rows, gives every row that the filter lets
  -- through, once, newest first.
  pub follow-history :
      (laws : IsCodec codec) (user_id : Text) (filters : TransactionFilters) (limit pages : ℕ)
      (rows : List LedgerRow)
      → distinct_ids rows ≡ true
      → All IsNamed rows
      → length (history user_id filters rows) ≤ pages
      → follow codec user_id filters limit pages none rows ≡ history user_id filters rows
  unfolding decode_cursor
  follow-history laws user_id filters limit pages rows distinct named enough =
      follow-rest laws user_id filters limit (page_limit limit - 1) pages rows []
        (history user_id filters rows) none (page_limit-pos limit)
        (history-IsOrdered user_id filters rows distinct)
        (history-All IsNamed user_id filters rows named) refl
        (select-All _ (history user_id filters rows) (all_true (history user_id filters rows)))
        enough
    where
      all_true : (qs : List LedgerRow) → All (λ q. true ≡ true) qs
      all_true [] = tt
      all_true (q ∷ qs) = (refl, all_true qs)
