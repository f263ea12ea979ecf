-- ===== src/Cash/Accounts.antt =====
-- Which accounts there are: no statement on `transactions` adds or removes one, and no row names one
-- that is missing.
use wallet_bot.Base.{
  ◌≡◌, ◌≢◌, refl, sym, ◌∙◌, ap, true, false, Bool-cases, inl, inr, List, [], ◌∷◌, ◌++◌, Option,
  none, some, arith,
}
use wallet_bot.Base.Int.{ℤ, pos, eqb_ℤ, int_laws}
use wallet_bot.Base.Text.{Text, eq_text, eq_text_sound}
use wallet_bot.Cash.{
  LedgerRow, CashAccountRow, add_to, take_from, each_account, if_named, same_account, sync_insert,
  sync_delete, sync_update,
}
use wallet_bot.Cash.Statements.{
  has_account, names_account, all_named, cash_sum, update_rows, delete_rows,
}
use wallet_bot.Cash.Balance.{cash_sum-cons}

-- The same accounts are there.
abbrev pub AreSame : List CashAccountRow → List CashAccountRow → Type 0
AreSame before after = (id : Text) → has_account id after ≡ has_account id before

pub each-AreSame :
    (change : CashAccountRow → CashAccountRow) (accounts : List CashAccountRow)
    → ((a : CashAccountRow) → (change a).id ≡ a.id)
    → AreSame accounts (each_account change accounts)
each-AreSame change [] same id = refl
each-AreSame change (a ∷ accounts) same id = rw (same a, each-AreSame change accounts same id) refl

add_to-id : (id : Text) (d : ℤ) (a : CashAccountRow) → (add_to id d a).id ≡ a.id
add_to-id id d a = elim (Bool-cases (eq_text a.id id)) [ inl e ↦ rw e refl | inr e ↦ rw e refl ]

take_from-id : (id : Text) (d : ℤ) (a : CashAccountRow) → (take_from id d a).id ≡ a.id
take_from-id id d a = elim (Bool-cases (eq_text a.id id)) [ inl e ↦ rw e refl | inr e ↦ rw e refl ]

if_named-AreSame :
    (change : Text → ℤ → CashAccountRow → CashAccountRow) (named : Option Text) (d : ℤ)
    (accounts : List CashAccountRow)
    → ((id : Text) (e : ℤ) (a : CashAccountRow) → (change id e a).id ≡ a.id)
    → AreSame accounts (if_named change named d accounts)
if_named-AreSame change none d accounts same id = refl
if_named-AreSame change (some i) d accounts same id = elim (Bool-cases (eqb_ℤ d (pos 0))) [
  | inl e ↦ rw e refl
  | inr e ↦ rw e (each-AreSame (change i d) accounts (same i d) id)
]

pub insert-AreSame :
    (r : LedgerRow) (accounts : List CashAccountRow) → AreSame accounts (sync_insert r accounts)
unfolding sync_insert
insert-AreSame r accounts = if_named-AreSame add_to r.cash_account_id _ accounts add_to-id

pub delete-AreSame :
    (r : LedgerRow) (accounts : List CashAccountRow) → AreSame accounts (sync_delete r accounts)
unfolding sync_delete
delete-AreSame r accounts = if_named-AreSame add_to r.cash_account_id _ accounts add_to-id

pub update-AreSame :
    (old new : LedgerRow) (accounts : List CashAccountRow)
    → AreSame accounts (sync_update old new accounts)
unfolding sync_update
update-AreSame old new accounts id =
    elim (Bool-cases (same_account old.cash_account_id new.cash_account_id)) [
      | inl e ↦ rw e (if_named-AreSame add_to new.cash_account_id _ accounts add_to-id id)
      | inr e ↦ rw e (
          if_named-AreSame add_to new.cash_account_id _ _ add_to-id id
          ∙ if_named-AreSame take_from old.cash_account_id _ accounts take_from-id id)
    ]

pub update_rows-AreSame :
    (id : Text) (change : LedgerRow → LedgerRow) (rows : List LedgerRow)
    (accounts : List CashAccountRow)
    → AreSame accounts (update_rows id change rows accounts).1
unfolding update_rows
update_rows-AreSame id change [] accounts i = refl
update_rows-AreSame id change (r ∷ rows) accounts i = elim (Bool-cases (eq_text r.id id)) [
  | inl e ↦ rw e (update-AreSame r (change r) _ i ∙ update_rows-AreSame id change rows accounts i)
  | inr e ↦ rw e (update_rows-AreSame id change rows accounts i)
]

pub delete_rows-AreSame :
    (id : Text) (rows : List LedgerRow) (accounts : List CashAccountRow)
    → AreSame accounts (delete_rows id rows accounts).1
unfolding delete_rows
delete_rows-AreSame id [] accounts i = refl
delete_rows-AreSame id (r ∷ rows) accounts i = elim (Bool-cases (eq_text r.id id)) [
  | inl e ↦ rw e (delete-AreSame r _ i ∙ delete_rows-AreSame id rows accounts i)
  | inr e ↦ rw e (delete_rows-AreSame id rows accounts i)
]

-- Rows go on naming accounts where none is taken away.
pub all_named_mono :
    (rows : List LedgerRow) (before after : List CashAccountRow)
    → ((id : Text) → has_account id before ≡ true → has_account id after ≡ true)
    → all_named rows before ≡ true
    → all_named rows after ≡ true
all_named_mono [] before after grows h = refl
all_named_mono (r ∷ rows) before after grows h = ground (
  arith,
  names_mono r.cash_account_id (ground (arith, h)),
  all_named_mono rows before after grows (ground (arith, h)),
)
  where
    names_mono :
        (named : Option Text) → names_account named before ≡ true → names_account named after ≡ true
    names_mono none k = refl
    names_mono (some id) k = grows id k

pub all_named-append :
    (rows : List LedgerRow) (r : LedgerRow) (accounts : List CashAccountRow)
    → all_named rows accounts ≡ true
    → names_account r.cash_account_id accounts ≡ true
    → all_named (rows ++ (r ∷ [])) accounts ≡ true
all_named-append [] r accounts h named = ground (arith, named)
all_named-append (q ∷ rows) r accounts h named =
    ground (arith, h, all_named-append rows r accounts (ground (arith, h)) named)

pub all_named-delete :
    (id : Text) (rows : List LedgerRow) (accounts there : List CashAccountRow)
    → all_named rows there ≡ true
    → all_named (delete_rows id rows accounts).0 there ≡ true
unfolding delete_rows
all_named-delete id [] accounts there h = refl
all_named-delete id (r ∷ rows) accounts there h =
    ground (arith, h, all_named-delete id rows accounts there (ground (arith, h)))

-- An account that is not there yet has no rows.
pub unnamed-cash_sum :
    (id : Text) (rows : List LedgerRow) (accounts : List CashAccountRow)
    → has_account id accounts ≡ false
    → all_named rows accounts ≡ true
    → cash_sum id rows ≡ pos 0
unfolding cash_sum
unnamed-cash_sum id [] accounts missing h = refl
unnamed-cash_sum id (r ∷ rows) accounts missing h =
    cash_sum-cons id r rows
    ∙ rw (other r.cash_account_id (ground (arith, h)))
        (rw (unnamed-cash_sum id rows accounts missing (ground (arith, h))) omega int_laws)
  where
    true-ne-false : true ≢ false
    true-ne-false k = cc

    other :
        (named : Option Text)
        → names_account named accounts ≡ true
        → same_account named (some id) ≡ false
    other none there = refl
    other (some j) there = elim (Bool-cases (eq_text j id)) [
      | inr e ↦ e
      | inl e ↦ absurd (
          true-ne-false
            (sym there ∙ ap (λ k. has_account k accounts) (eq_text_sound j id e) ∙ missing))
    ]

-- A change of other columns leaves the named accounts as they are.
pub all_named-update :
    (id : Text) (change : LedgerRow → LedgerRow) (rows : List LedgerRow)
    (accounts there : List CashAccountRow)
    → ((r : LedgerRow) → (change r).cash_account_id ≡ r.cash_account_id)
    → all_named (update_rows id change rows accounts).0 there ≡ all_named rows there
unfolding update_rows
all_named-update id change [] accounts there same = refl
all_named-update id change (r ∷ rows) accounts there same = elim (Bool-cases (eq_text r.id id)) [
  | inl e ↦ rw (e, same r, all_named-update id change rows accounts there same) refl
  | inr e ↦ rw (e, all_named-update id change rows accounts there same) refl
]
