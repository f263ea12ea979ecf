-- ===== src/Cash/Sync.antt =====
-- What the trigger sync_cash_balance of supabase/migrations/0006_functions.sql does to balances.
use wallet_bot.Base.{
  ◌≡◌, refl, sym, subst, ◌∙◌, ap, Bool, true, false, Bool-cases, inl, inr, List, [], ◌∷◌, Option,
  none, some, All, arith, if◌then◌else◌,
}
use wallet_bot.Base.Int.{ℤ, pos, ◌+ℤ◌, ◌-ℤ◌, eqb_ℤ, int_laws}
use wallet_bot.Base.Text.{Text, eq_text, eq_text_sound}
use wallet_bot.Cash.{
  LedgerRow, CashAccountRow, effective, add_to, take_from, each_account, if_named, named_amount,
  same_account, sync_insert, sync_delete, sync_update,
}

-- What a row counts for an account.
abbrev pub share : Text → LedgerRow → ℤ
share id r = if same_account r.cash_account_id (some id) then effective r else pos 0

-- The cached balances are a function of the account's id.
abbrev pub IsCached : (Text → ℤ) → List CashAccountRow → Type 0
IsCached f = All (λ (a : CashAccountRow). a.balance_minor ≡ f a.id)

abbrev pub at : Text → ℤ → Text → ℤ
at id d i = if eq_text i id then d else pos 0

pub plus_zero : (a : ℤ) → a +ℤ pos 0 ≡ a
unfolding ◌+ℤ◌
plus_zero a = ground arith

pub minus_zero : (a : ℤ) → a -ℤ pos 0 ≡ a
unfolding ◌-ℤ◌
minus_zero a = ground arith

add_nothing : (b : Bool) (a d : ℤ) → eqb_ℤ d (pos 0) ≡ true → a ≡ a +ℤ (if b then d else pos 0)
unfolding ◌+ℤ◌
add_nothing b a d zero_d = ground (arith, zero_d)

take_nothing : (b : Bool) (a d : ℤ) → eqb_ℤ d (pos 0) ≡ true → a ≡ a -ℤ (if b then d else pos 0)
unfolding ◌-ℤ◌
take_nothing b a d zero_d = ground (arith, zero_d)

eq_text_sym : (s t : Text) → eq_text s t ≡ eq_text t s
eq_text_sym [] [] = refl
eq_text_sym [] (d ∷ t) = refl
eq_text_sym (c ∷ s) [] = refl
eq_text_sym (c ∷ s) (d ∷ t) = ground (arith, eq_text_sym s t)

pub IsCached-cong :
    (f g : Text → ℤ) (accounts : List CashAccountRow)
    → ((i : Text) → f i ≡ g i)
    → IsCached f accounts
    → IsCached g accounts
IsCached-cong f g [] same h = tt
IsCached-cong f g (a ∷ accounts) same h = (h.0 ∙ same a.id, IsCached-cong f g accounts same h.1)

add-IsCached :
    (id : Text) (d : ℤ) (f : Text → ℤ) (accounts : List CashAccountRow)
    → IsCached f accounts
    → IsCached (λ i. f i +ℤ at id d i) (each_account (add_to id d) accounts)
add-IsCached id d f [] h = tt
add-IsCached id d f (a ∷ accounts) h = (
  elim (Bool-cases (eq_text a.id id)) [
    | inl e ↦ rw (e, e) (ap (λ b. b +ℤ d) h.0)
    | inr e ↦ rw (e, e) (h.0 ∙ sym (plus_zero (f a.id)))
  ],
  add-IsCached id d f accounts h.1,
)

take-IsCached :
    (id : Text) (d : ℤ) (f : Text → ℤ) (accounts : List CashAccountRow)
    → IsCached f accounts
    → IsCached (λ i. f i -ℤ at id d i) (each_account (take_from id d) accounts)
take-IsCached id d f [] h = tt
take-IsCached id d f (a ∷ accounts) h = (
  elim (Bool-cases (eq_text a.id id)) [
    | inl e ↦ rw (e, e) (ap (λ b. b -ℤ d) h.0)
    | inr e ↦ rw (e, e) (h.0 ∙ sym (minus_zero (f a.id)))
  ],
  take-IsCached id d f accounts h.1,
)

-- What a row with that account and amount counts for the account.
abbrev part : Option Text → ℤ → Text → ℤ
part named amount i = if same_account named (some i) then amount else pos 0

named-add :
    (named : Option Text) (d : ℤ) (f : Text → ℤ) (accounts : List CashAccountRow)
    → IsCached f accounts
    → IsCached (λ i. f i +ℤ part named d i) (if_named add_to named d accounts)
named-add none d f accounts h = IsCached-cong f _ accounts (λ i. sym (plus_zero (f i))) h
named-add (some id) d f accounts h = elim (Bool-cases (eqb_ℤ d (pos 0))) [
  | inl e ↦ rw e (IsCached-cong f _ accounts (λ i. add_nothing (eq_text id i) (f i) d e) h)
  | inr e ↦ rw e (
      IsCached-cong _ _ _ (λ i. ap (λ b. f i +ℤ (if b then d else pos 0)) (eq_text_sym i id))
        (add-IsCached id d f accounts h))
]

named-take :
    (named : Option Text) (d : ℤ) (f : Text → ℤ) (accounts : List CashAccountRow)
    → IsCached f accounts
    → IsCached (λ i. f i -ℤ part named d i) (if_named take_from named d accounts)
named-take none d f accounts h = IsCached-cong f _ accounts (λ i. sym (minus_zero (f i))) h
named-take (some id) d f accounts h = elim (Bool-cases (eqb_ℤ d (pos 0))) [
  | inl e ↦ rw e (IsCached-cong f _ accounts (λ i. take_nothing (eq_text id i) (f i) d e) h)
  | inr e ↦ rw e (
      IsCached-cong _ _ _ (λ i. ap (λ b. f i -ℤ (if b then d else pos 0)) (eq_text_sym i id))
        (take-IsCached id d f accounts h))
]

part_named :
    (named : Option Text) (amount : ℤ) (i : Text)
    → part named (named_amount named amount) i ≡ part named amount i
part_named none amount i = refl
part_named (some id) amount i = refl

minus_part :
    (b : Bool) (a o : ℤ) → a +ℤ (if b then pos 0 -ℤ o else pos 0) ≡ a -ℤ (if b then o else pos 0)
minus_part true a o = omega int_laws
minus_part false a o = omega int_laws

exchange_part :
    (b : Bool) (a o n : ℤ)
    → a +ℤ (if b then n -ℤ o else pos 0) ≡ a -ℤ (if b then o else pos 0) +ℤ (if b then n else pos 0)
exchange_part true a o n = omega int_laws
exchange_part false a o n = omega int_laws

pub insert-IsCached :
    (r : LedgerRow) (f : Text → ℤ) (accounts : List CashAccountRow)
    → IsCached f accounts
    → IsCached (λ i. f i +ℤ share i r) (sync_insert r accounts)
unfolding sync_insert
insert-IsCached r f accounts h =
    IsCached-cong _ _ _
      (λ i.
        ap (λ d. f i +ℤ d)
          (ap (λ d. part r.cash_account_id d i) (minus_zero _)
            ∙ part_named r.cash_account_id (effective r) i))
      (named-add r.cash_account_id _ f accounts h)

pub delete-IsCached :
    (r : LedgerRow) (f : Text → ℤ) (accounts : List CashAccountRow)
    → IsCached f accounts
    → IsCached (λ i. f i -ℤ share i r) (sync_delete r accounts)
unfolding sync_delete
delete-IsCached r f accounts h =
    IsCached-cong _ _ _
      (λ i.
        minus_part (same_account r.cash_account_id (some i)) (f i) _
        ∙ ap (λ d. f i -ℤ d) (part_named r.cash_account_id (effective r) i))
      (named-add r.cash_account_id _ f accounts h)

exchange :
    (named : Option Text) (a o n : ℤ) (i : Text)
    → a +ℤ part named (named_amount named n -ℤ named_amount named o) i
      ≡ a -ℤ part named o i +ℤ part named n i
exchange none a o n i = omega int_laws
exchange (some id) a o n i = exchange_part (eq_text id i) a o n

same_account_sound : (a b : Option Text) → same_account a b ≡ true → a ≡ b
same_account_sound none none same = refl
same_account_sound none (some b) same = absurd cc
same_account_sound (some a) none same = absurd cc
same_account_sound (some a) (some b) same = ap some (eq_text_sound a b same)

pub update-IsCached :
    (old new : LedgerRow) (f : Text → ℤ) (accounts : List CashAccountRow)
    → IsCached f accounts
    → IsCached (λ i. f i -ℤ share i old +ℤ share i new) (sync_update old new accounts)
unfolding sync_update
update-IsCached old new f accounts h =
    elim (Bool-cases (same_account old.cash_account_id new.cash_account_id)) [
      | inl e ↦ rw e (
          IsCached-cong _ _ _
            (λ i.
              subst
                (λ w.
                  f i
                    +ℤ part new.cash_account_id
                        (named_amount new.cash_account_id (effective new)
                          -ℤ named_amount w (effective old))
                        i
                  ≡ f i -ℤ part w (effective old) i +ℤ share i new)
                (sym (same_account_sound old.cash_account_id new.cash_account_id e))
                (exchange new.cash_account_id (f i) (effective old) (effective new) i))
            (named-add new.cash_account_id _ f accounts h))
      | inr e ↦ rw e (
          IsCached-cong _ _ _
            (λ i.
              ap
                (λ x.
                  f i
                  -ℤ x
                  +ℤ part new.cash_account_id (named_amount new.cash_account_id (effective new)) i)
                (part_named old.cash_account_id (effective old) i)
              ∙ ap (λ y. f i -ℤ share i old +ℤ y)
                  (part_named new.cash_account_id (effective new) i))
            (named-add new.cash_account_id _ _ _ (named-take old.cash_account_id _ f accounts h)))
    ]
