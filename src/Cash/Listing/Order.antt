-- ===== src/Cash/Listing/Order.antt =====
-- The history is ordered: the order of listTransactions of
-- packages/db/src/repositories/transactions.ts, where no id occurs twice.
use wallet_bot.Base.{
  ◌≡◌, refl, ◌∙◌, ap, Bool, true, false, Bool-cases, inl, inr, not, ◌&&◌, ◌||◌, List, [], ◌∷◌, All,
  arith,
}
use wallet_bot.Base.Text.{Text, eq_text}
use wallet_bot.Cash.{LedgerRow}
use wallet_bot.Cash.Statements.{has_row}
use wallet_bot.Cash.Listing.{
  RowKey, key_of, ltb_text, is_below, place, newest_first, select, TransactionFilters, matches,
  history,
}

-- Each row is above all that follow.
abbrev pub IsOrdered : List LedgerRow → Type 0
IsOrdered [] = Unit
IsOrdered (r ∷ rows) = All (λ q. is_below (key_of q) (key_of r) ≡ true) rows × IsOrdered rows

-- No id occurs twice, as the primary key demands.
abbrev pub distinct_ids : List LedgerRow → Bool
distinct_ids [] = true
distinct_ids (r ∷ rows) = not (has_row r.id rows) && distinct_ids rows

text_asym : (s t : Text) → ltb_text s t ≡ true → ltb_text t s ≡ false
text_asym [] [] h = cc
text_asym [] (d ∷ t) h = refl
text_asym (c ∷ s) [] h = cc
text_asym (c ∷ s) (d ∷ t) h = ground (arith, h, text_asym s t)

text_trans : (s t u : Text) → ltb_text s t ≡ true → ltb_text t u ≡ true → ltb_text s u ≡ true
text_trans s t [] h k = ground (arith, k)
text_trans s [] (e ∷ u) h k = ground (arith, h)
text_trans [] (d ∷ t) (e ∷ u) h k = refl
text_trans (c ∷ s) (d ∷ t) (e ∷ u) h k = ground (arith, h, k, text_trans s t u)

text_total : (s t : Text) → eq_text s t ≡ false → ltb_text s t ≡ false → ltb_text t s ≡ true
text_total [] [] different h = cc
text_total [] (d ∷ t) different h = cc
text_total (c ∷ s) [] different h = refl
text_total (c ∷ s) (d ∷ t) different h = ground (arith, different, h, text_total s t)

pub below_asym : (a b : RowKey) → is_below a b ≡ true → is_below b a ≡ false
unfolding is_below
below_asym a b h = ground (arith, h, text_asym a.id b.id)

below_trans : (a b c : RowKey) → is_below a b ≡ true → is_below b c ≡ true → is_below a c ≡ true
unfolding is_below
below_trans a b c h k = ground (arith, h, k, text_trans a.id b.id c.id)

below_total :
    (a b : RowKey) → eq_text a.id b.id ≡ false → is_below a b ≡ false → is_below b a ≡ true
unfolding is_below
below_total a b different h = ground (arith, different, h, text_total a.id b.id)

pub not_below_itself : (a : RowKey) → is_below a a ≡ false
not_below_itself a = elim (Bool-cases (is_below a a)) [ inl e ↦ below_asym a a e | inr e ↦ e ]

All-place :
    (P : LedgerRow → Type 0) (r : LedgerRow) (rows : List LedgerRow)
    → P r
    → All P rows
    → All P (place r rows)
All-place P r [] h k = (h, tt)
All-place P r (q ∷ rows) h k = elim (Bool-cases (is_below (key_of q) (key_of r))) [
  | inl e ↦ rw e (h, k)
  | inr e ↦ rw e (k.0, All-place P r rows h k.1)
]

All-map :
    {P Q : LedgerRow → Type 0} (rows : List LedgerRow)
    → ((q : LedgerRow) → P q → Q q)
    → All P rows
    → All Q rows
All-map [] f h = tt
All-map (q ∷ rows) f h = (f q h.0, All-map rows f h.1)

place-IsOrdered :
    (r : LedgerRow) (rows : List LedgerRow)
    → has_row r.id rows ≡ false
    → IsOrdered rows
    → IsOrdered (place r rows)
place-IsOrdered r [] new h = (tt, tt)
place-IsOrdered r (q ∷ rows) new h = elim (Bool-cases (is_below (key_of q) (key_of r))) [
  | inl e ↦
      rw e ((e, All-map rows (λ s k. below_trans (key_of s) (key_of q) (key_of r) k e) h.0), h)
  | inr e ↦ rw e (
    All-place _ r rows (below_total (key_of q) (key_of r) (ground (arith, new)) e) h.0,
    place-IsOrdered r rows (ground (arith, new)) h.1,
  )
]

has_row-place :
    (id : Text) (r : LedgerRow) (rows : List LedgerRow)
    → has_row id (place r rows) ≡ (eq_text r.id id || has_row id rows)
has_row-place id r [] = refl
has_row-place id r (q ∷ rows) = ground (arith, has_row-place id r rows)

has_row-newest_first :
    (id : Text) (rows : List LedgerRow) → has_row id (newest_first rows) ≡ has_row id rows
unfolding newest_first
has_row-newest_first id [] = refl
has_row-newest_first id (r ∷ rows) =
    has_row-place id r (newest_first rows)
    ∙ ap (λ b. eq_text r.id id || b) (has_row-newest_first id rows)

newest_first-IsOrdered :
    (rows : List LedgerRow) → distinct_ids rows ≡ true → IsOrdered (newest_first rows)
unfolding newest_first
newest_first-IsOrdered [] distinct = tt
newest_first-IsOrdered (r ∷ rows) distinct =
    place-IsOrdered r (newest_first rows)
      (has_row-newest_first r.id rows ∙ ground (arith, distinct))
      (newest_first-IsOrdered rows (ground (arith, distinct)))

All-select :
    (P : LedgerRow → Type 0) (test : LedgerRow → Bool) (rows : List LedgerRow)
    → All P rows
    → All P (select test rows)
All-select P test [] h = tt
All-select P test (r ∷ rows) h = elim (Bool-cases (test r)) [
  | inl e ↦ rw e (h.0, All-select P test rows h.1)
  | inr e ↦ rw e (All-select P test rows h.1)
]

select-IsOrdered :
    (test : LedgerRow → Bool) (rows : List LedgerRow)
    → IsOrdered rows
    → IsOrdered (select test rows)
select-IsOrdered test [] h = tt
select-IsOrdered test (r ∷ rows) h = elim (Bool-cases (test r)) [
  | inl e ↦ rw e (All-select _ test rows h.0, select-IsOrdered test rows h.1)
  | inr e ↦ rw e (select-IsOrdered test rows h.1)
]

pub history-IsOrdered :
    (user_id : Text) (filters : TransactionFilters) (rows : List LedgerRow)
    → distinct_ids rows ≡ true
    → IsOrdered (history user_id filters rows)
unfolding history
history-IsOrdered user_id filters rows distinct =
    select-IsOrdered (matches user_id filters) (newest_first rows)
      (newest_first-IsOrdered rows distinct)

newest_first-All :
    (P : LedgerRow → Type 0) (rows : List LedgerRow) → All P rows → All P (newest_first rows)
unfolding newest_first
newest_first-All P [] h = tt
newest_first-All P (r ∷ rows) h =
    All-place P r (newest_first rows) h.0 (newest_first-All P rows h.1)

pub history-All :
    (P : LedgerRow → Type 0) (user_id : Text) (filters : TransactionFilters) (rows : List LedgerRow)
    → All P rows
    → All P (history user_id filters rows)
unfolding history
history-All P user_id filters rows h =
    All-select P (matches user_id filters) (newest_first rows) (newest_first-All P rows h)
