-- ===== src/Cash/Owned.antt =====
-- The cash accounts of a user: packages/db/src/repositories/accounts.ts.
use wallet_bot.Base.{
  Bool, false, not, ◌&&◌, ◌||◌, List, [], ◌∷◌, ◌++◌, Option, none, some, if◌then◌else◌,
}
use wallet_bot.Base.Int.{pos}
use wallet_bot.Base.Result.{Result, ok, err}
use wallet_bot.Base.Text.{Text, eq_text}
use wallet_bot.Money.Fiat.{FiatCurrency, same_currency}
use wallet_bot.Cash.{CashAccountRow, LedgerError, unique_violation}
use wallet_bot.Cash.Statements.{has_account}

abbrev pub is_own : Text → CashAccountRow → Bool
is_own user_id a = eq_text a.user_id user_id && not a.is_deleted

unfoldable pub find_cash_account : Text → Text → List CashAccountRow → Option CashAccountRow
find_cash_account user_id id [] = none
find_cash_account user_id id (a ∷ accounts) =
    if eq_text a.id id && is_own user_id a then some a else find_cash_account user_id id accounts

-- `ORDER BY is_default DESC, created_at ASC LIMIT 1`
abbrev pub default_first : CashAccountRow → Option CashAccountRow → Option CashAccountRow
default_first a none = some a
default_first a (some b) = if b.is_default && not a.is_default then some b else some a

unfoldable pub find_default_cash_account :
    Text → FiatCurrency → List CashAccountRow → Option CashAccountRow
find_default_cash_account user_id currency [] = none
find_default_cash_account user_id currency (a ∷ accounts) =
    let rest = find_default_cash_account user_id currency accounts in
    if is_own user_id a && same_currency a.currency currency then default_first a rest else rest

abbrev pub has_own : Text → List CashAccountRow → Bool
has_own user_id [] = false
has_own user_id (a ∷ accounts) = is_own user_id a || has_own user_id accounts

unfoldable pub clear_default : Text → List CashAccountRow → List CashAccountRow
clear_default user_id [] = []
clear_default user_id (a ∷ accounts) =
    let rest = clear_default user_id accounts in
    (if is_own user_id a && a.is_default then record a { is_default = false } else a) ∷ rest

-- The id of a new account is given; the table's key refuses one that is taken.
unfoldable pub create_cash_account :
    Text
    → Text
    → Text
    → FiatCurrency
    → Bool
    → List CashAccountRow
    → Result LedgerError CashAccountRow × List CashAccountRow
create_cash_account new_id user_id name currency is_default accounts =
    let cleared = if is_default then clear_default user_id accounts else accounts in
    let a : CashAccountRow = record {
      id = new_id;
      user_id = user_id;
      name = name;
      currency = currency;
      balance_minor = pos 0;
      is_default = is_default;
      is_deleted = false;
    } in
    if has_account new_id cleared
    then (err unique_violation, cleared)
    else (ok a, cleared ++ (a ∷ []))

unfoldable pub ensure_found :
    Text
    → Text
    → Text
    → FiatCurrency
    → Option CashAccountRow
    → List CashAccountRow
    → Result LedgerError CashAccountRow × List CashAccountRow
ensure_found new_id user_id name currency (some a) accounts = (ok a, accounts)
ensure_found new_id user_id name currency none accounts =
    create_cash_account new_id user_id name currency (not (has_own user_id accounts)) accounts

unfoldable pub ensure_cash_account :
    Text
    → Text
    → Text
    → FiatCurrency
    → List CashAccountRow
    → Result LedgerError CashAccountRow × List CashAccountRow
ensure_cash_account new_id user_id name currency accounts =
    ensure_found new_id user_id name currency (find_default_cash_account user_id currency accounts)
      accounts
