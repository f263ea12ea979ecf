-- ===== src/Send/Execute/Open.antt =====
-- Requests that may still be executed, over the statements of packages/db/src/repositories/send.ts.
use wallet_bot.Base.{
  ℕ, ◌≤◌, ◌≡◌, refl, Bool, true, false, [], ◌∷◌, Option, none, some, if◌then◌else◌, arith,
}
use wallet_bot.Base.Result.{Result, ok, err}
use wallet_bot.Base.Text.{Text, eq_text}
use wallet_bot.Domain.Enums.{SendRequestStatus}
use wallet_bot.Send.Store.{
  Failure, SendRow, Table, find_send_request, confirm_send_request, set_send_request_status,
  StatusExtra,
}

-- A request that may still be executed.
abbrev pub is_open : SendRequestStatus → Bool
is_open SendRequestStatus.quoted = true
is_open SendRequestStatus.confirmed = true
is_open _ = false

abbrev pub open_count : Option SendRow → ℕ
open_count none = 0
open_count (some r) = if is_open r.status then 1 else 0

abbrev pub still_open : Text → Text → Table → ℕ
still_open user_id id rows = open_count (find_send_request user_id id rows)

pub find_id :
    (user_id id : Text) (rows : Table) {r : SendRow}
    → find_send_request user_id id rows ≡ some r
    → eq_text r.id id ≡ true
find_id user_id id [] h = ground arith
find_id user_id id (r ∷ rows) {r = r'} h = ground (arith, find_id user_id id rows {r = r'})

pub claimed_id :
    (user_id id fp : Text) (now : ℕ) (rows : Table) {r : SendRow}
    → (confirm_send_request user_id id fp now rows).0 ≡ some r
    → eq_text r.id id ≡ true
unfolding confirm_send_request
claimed_id user_id id fp now [] h = ground arith
claimed_id user_id id fp now (r ∷ rows) {r = r'} h =
    ground (arith, claimed_id user_id id fp now rows {r = r'})

abbrev pub open_after : Text → Text → Result Failure Table → ℕ
open_after user_id id (ok rows) = still_open user_id id rows
open_after user_id id (err e) = 0

pub set_closes :
    (user_id id : Text) (s : SendRequestStatus) (extra : StatusExtra) (rows : Table)
    → is_open s ≡ false
    → open_after user_id id (set_send_request_status id s extra rows) ≡ 0
unfolding set_send_request_status
set_closes user_id id s extra [] closed = refl
set_closes user_id id s extra (r ∷ rows) closed =
    ground (arith, set_closes user_id id s extra rows closed)

pub claim_open :
    (user_id id fp : Text) (now : ℕ) (rows : Table)
    → still_open user_id id (confirm_send_request user_id id fp now rows).1
      ≤ still_open user_id id rows
unfolding confirm_send_request
claim_open user_id id fp now [] = omega arith
claim_open user_id id fp now (r ∷ rows) = ground (arith, claim_open user_id id fp now rows)
