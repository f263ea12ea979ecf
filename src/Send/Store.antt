-- ===== src/Send/Store.antt =====
-- The table of send requests and its statements: packages/db/src/repositories/send.ts. The update of
-- a status goes through the trigger `app.assert_send_status_transition` of
-- supabase/migrations/0006_functions.sql, whose table is that of the state machine.
pub mod Replay
use wallet_bot.Base.{
  ℕ, ◌+◌, ◌*◌, Bool, true, false, List, [], ◌∷◌, ◌++◌, Option, none, some, ltb, leb, ◌==◌, ◌&&◌,
  ◌||◌, if◌then◌else◌, take, length,
}
use wallet_bot.Base.Int.{ℤ, pos, ◌+ℤ◌}
use wallet_bot.Base.Result.{Result, ok, err}
use wallet_bot.Base.Text.{Text, eq_text}
use wallet_bot.Domain.Enums.{SendRequestStatus, ErrorCode, internal_error}
use wallet_bot.Domain.StateMachines.{send_index, send_request_transitions, assert_transition}
use wallet_bot.Money.FixedPoint.{MoneyError}

-- What the services throw: an `AppError` with its code, or an error of the arithmetic.
pub data Failure : Type 0 where
  app : ErrorCode → Failure
  money : MoneyError → Failure

-- `AppError.is(error) ? error.code : 'INTERNAL_ERROR'`.
abbrev pub code_of : Failure → ErrorCode
code_of (app code) = code
code_of (money e) = internal_error

-- Identifiers are texts, times are milliseconds since the epoch.
pub record SendRow : Type 0 where
  pub id : Text
  pub user_id : Text
  pub wallet_id : Text
  pub asset_id : Text
  pub to_address_canonical : Text
  pub raw_amount : ℤ
  pub memo : Option Text
  pub fingerprint : Text
  pub fee_raw_amount : ℤ
  pub value_usd_minor : Option ℤ
  pub expires_at : ℕ
  pub simulated : Bool
  pub idempotency_key : Text
  pub status : SendRequestStatus
  pub confirmed_at : Option ℕ
  pub tx_hash : Option Text
  pub error_code : Option ErrorCode

abbrev pub Table : Type 0
Table = List SendRow

abbrev same_request : Text → Text → SendRow → Bool
same_request user_id key r = eq_text r.user_id user_id && eq_text r.idempotency_key key

-- The row of a user with an idempotency key.
abbrev pub find_by_key : Text → Text → Table → Option SendRow
find_by_key user_id key [] = none
find_by_key user_id key (r ∷ rows) =
    if same_request user_id key r then some r else find_by_key user_id key rows

abbrev insert_unless : Option SendRow → SendRow → Table → (SendRow × Bool) × Table
insert_unless none input rows = ((input, true), rows ++ input ∷ [])
insert_unless (some found) input rows = ((found, false), rows)

-- `INSERT … ON CONFLICT (user_id, idempotency_key) DO NOTHING`, then the row that stands there. The
-- row comes with the identifier that the database chose and the defaults of its columns.
unfoldable pub create_send_request : SendRow → Table → (SendRow × Bool) × Table
create_send_request input rows =
    insert_unless (find_by_key input.user_id input.idempotency_key rows) input rows

abbrev pub find_send_request : Text → Text → Table → Option SendRow
find_send_request user_id id [] = none
find_send_request user_id id (r ∷ rows) =
    if eq_text r.id id && eq_text r.user_id user_id
    then some r
    else find_send_request user_id id rows

-- The condition of the `UPDATE` that claims a quote.
abbrev pub claimable : Text → Text → Text → ℕ → SendRow → Bool
claimable user_id id fingerprint now r =
    eq_text r.id id
    && eq_text r.user_id user_id
    && send_index r.status == send_index SendRequestStatus.quoted
    && eq_text r.fingerprint fingerprint
    && ltb now r.expires_at

abbrev pub confirmed_row : ℕ → SendRow → SendRow
confirmed_row now r = record r { status = SendRequestStatus.confirmed; confirmed_at = some now }

-- `UPDATE … SET status = 'confirmed' WHERE …`, one statement, and the first row that it returns.
unfoldable pub confirm_send_request : Text → Text → Text → ℕ → Table → Option SendRow × Table
confirm_send_request user_id id fingerprint now [] = (none, [])
confirm_send_request user_id id fingerprint now (r ∷ rows) =
    let (found, rows') = confirm_send_request user_id id fingerprint now rows in
    if claimable user_id id fingerprint now r
    then (some (confirmed_row now r), confirmed_row now r ∷ rows')
    else (found, r ∷ rows')

pub record StatusExtra : Type 0 where
  pub tx_hash : Option Text
  pub error_code : Option ErrorCode

abbrev pub no_extra : StatusExtra
no_extra = record { tx_hash = none; error_code = none }

abbrev pub coalesce : {A : Type 0} → Option A → Option A → Option A
coalesce none old = old
coalesce (some a) old = some a

abbrev pub set_row : SendRequestStatus → StatusExtra → SendRow → SendRow
set_row status extra r = record r {
  status = status;
  tx_hash = coalesce extra.tx_hash r.tx_hash;
  error_code = extra.error_code;
}

abbrev guard_rows : Result ErrorCode (Unit {0}) → Result Failure Table → Result Failure Table
guard_rows (err e) rows = err (app internal_error)
guard_rows (ok u) rows = rows

abbrev cons_row : SendRow → Result Failure Table → Result Failure Table
cons_row r (ok rows) = ok (r ∷ rows)
cons_row r (err e) = err e

-- `UPDATE … SET status = … WHERE id = …`: the trigger throws on a transition that is not allowed,
-- and the statement then changes nothing.
unfoldable pub set_send_request_status :
    Text → SendRequestStatus → StatusExtra → Table → Result Failure Table
set_send_request_status id status extra [] = ok []
set_send_request_status id status extra (r ∷ rows) =
    let rest = set_send_request_status id status extra rows in
    if eq_text r.id id
    then guard_rows (assert_transition send_index send_request_transitions r.status status)
        (cons_row (set_row status extra r) rest)
    else cons_row r rest

-- `status IN ('confirmed', 'signing', 'broadcast', 'completed')`.
abbrev pub is_committed : SendRequestStatus → Bool
is_committed SendRequestStatus.confirmed = true
is_committed SendRequestStatus.signing = true
is_committed SendRequestStatus.broadcast = true
is_committed SendRequestStatus.completed = true
is_committed _ = false

abbrev pub confirmed_since : ℕ → ℕ → Option ℕ → Bool
confirmed_since window now none = false
confirmed_since window now (some t) = ltb now (t + window)

abbrev pub value_or_zero : Option ℤ → ℤ
value_or_zero none = pos 0
value_or_zero (some v) = v

abbrev pub counted : Text → ℕ → ℕ → SendRow → Bool
counted user_id window now r =
    eq_text r.user_id user_id && is_committed r.status && confirmed_since window now r.confirmed_at

-- `spentUsdMinorInWindow`, the window in milliseconds.
unfoldable pub spent_usd_minor_in_window : Text → ℕ → ℕ → Table → ℤ
spent_usd_minor_in_window user_id window now [] = pos 0
spent_usd_minor_in_window user_id window now (r ∷ rows) =
    let rest = spent_usd_minor_in_window user_id window now rows in
    if counted user_id window now r then value_or_zero r.value_usd_minor +ℤ rest else rest

-- A quote that the cleanup job may expire.
abbrev is_stale : ℕ → SendRow → Bool
is_stale now r = send_index r.status == send_index SendRequestStatus.quoted && ltb r.expires_at now

abbrev insert_by_expiry : SendRow → Table → Table
insert_by_expiry r [] = r ∷ []
insert_by_expiry r (q ∷ rows) =
    let rest = insert_by_expiry r rows in
    if leb r.expires_at q.expires_at then r ∷ q ∷ rows else q ∷ rest

-- The stale quotes, the oldest expiry first.
abbrev stale_quotes : ℕ → Table → Table
stale_quotes now [] = []
stale_quotes now (r ∷ rows) =
    let rest = stale_quotes now rows in if is_stale now r then insert_by_expiry r rest else rest

abbrev has_id : Text → Table → Bool
has_id id [] = false
has_id id (r ∷ rows) = eq_text r.id id || has_id id rows

abbrev expire_rows : Table → Table → Table
expire_rows chosen [] = []
expire_rows chosen (r ∷ rows) =
    (if has_id r.id chosen then record r { status = SendRequestStatus.expired } else r)
    ∷ expire_rows chosen rows

-- The number of quotes that expired, and the table; rows have different identifiers.
unfoldable pub expire_stale_quotes : ℕ → ℕ → Table → ℕ × Table
expire_stale_quotes limit now rows =
    let chosen = take limit (stale_quotes now rows) in (length chosen, expire_rows chosen rows)

abbrev was_sent : SendRequestStatus → Bool
was_sent SendRequestStatus.broadcast = true
was_sent SendRequestStatus.completed = true
was_sent _ = false

unfoldable pub has_sent_to_address_before : Text → Text → Table → Bool
has_sent_to_address_before user_id address [] = false
has_sent_to_address_before user_id address (r ∷ rows) =
    (eq_text r.user_id user_id && eq_text r.to_address_canonical address && was_sent r.status)
    || has_sent_to_address_before user_id address rows
