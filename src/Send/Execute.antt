-- ===== src/Send/Execute.antt =====
-- `SendService.confirm`, `execute` and `cancel`: packages/core/src/services/send.ts. The chain
-- provider, the signer, the transactions table and the notifications are parameters. Audit rows are
-- left out.
pub mod Open
mod Weight
pub mod Once
pub mod Handed
pub mod Simulated
pub mod Disabled
use wallet_bot.Base.{
  ℕ, Bool, true, false, List, [], ◌∷◌, ◌++◌, Option, none, some, ltb, not, take, if◌then◌else◌,
}
use wallet_bot.Base.Result.{Result, ok, err, ◌>>=◌, ◌>>◌}
use wallet_bot.Base.Text.{Text, codes}
use wallet_bot.Domain.Enums.{
  SendRequestStatus, ErrorCode, not_found, send_quote_expired, send_already_confirmed,
  invalid_state_transition,
}
use wallet_bot.Money.Decimal.{big}
use wallet_bot.Money.Token.{AssetMeta, TokenAmount, from_raw}
use wallet_bot.Send.Store.{
  Failure, app, code_of, SendRow, Table, find_send_request, confirm_send_request,
  set_send_request_status, no_extra,
}
use wallet_bot.Send.Quote.{SendingConfig, assert_sending_enabled, or_throw, lift_money}

pub record Signed : Type 0 where
  pub signed : Text
  pub simulated : Bool

-- The calls of one execution, each with its answer: the asset joined to the row, the digest of the
-- unsigned transaction, the signer, the hash of the broadcast, the row of the transactions table, and
-- the notification.
pub record Calls : Type 0 where
  pub asset_of : SendRow → AssetMeta
  pub build_transfer : SendRow → TokenAmount → Result Failure Text
  pub sign : SendRow → Text → Result Failure Signed
  pub broadcast : Text → Result Failure Text
  pub insert_transaction : SendRow → Text → Result Failure (Option Text)
  pub queue_outgoing : SendRow → Text → Result Failure (Unit {0})

-- The table, and every signed transaction that was handed to a chain, in order.
pub record World : Type 0 where
  pub rows : Table
  pub sent : List Text

pub record SendResult : Type 0 where
  pub send_request_id : Text
  pub status : SendRequestStatus
  pub tx_hash : Option Text
  pub simulated : Bool

abbrev pub Answer : Type 0
Answer = Result Failure SendResult × World

abbrev with_rows : World → Table → World
with_rows w rows = record w { rows = rows }

-- The `catch`: the request is marked as failed and the error is thrown on; an error of the marking
-- itself replaces it.
abbrev failed_with : Failure → World → Result Failure Table → Answer
failed_with e w (ok rows) = (err e, with_rows w rows)
failed_with e w (err e') = (err e', w)

unfoldable pub fail_request : Text → Failure → World → Answer
fail_request id e w = failed_with e w (
    set_send_request_status id SendRequestStatus.failed
      (record { tx_hash = none; error_code = some (code_of e) }) w.rows)

abbrev finish : SendRow → Text → Bool → World → Result Failure (Unit {0}) → Answer
finish r hash simulated w (err e) = fail_request r.id e w
finish r hash simulated w (ok u) = (
  ok (record {
    send_request_id = r.id;
    status = SendRequestStatus.broadcast;
    tx_hash = some hash;
    simulated = simulated;
  }),
  w,
)

-- The transaction of the database that records the broadcast: both of its statements, or none.
abbrev record_broadcast : Calls → SendRow → Text → World → Result Failure Table
record_broadcast calls r hash w = do
  transaction ← calls.insert_transaction r hash
  set_send_request_status r.id SendRequestStatus.broadcast
      (record { tx_hash = some hash; error_code = none }) w.rows

abbrev after_record : Calls → SendRow → Text → Bool → World → Result Failure Table → Answer
after_record calls r hash simulated w (err e) = fail_request r.id e w
after_record calls r hash simulated w (ok rows) =
    finish r hash simulated (with_rows w rows) (calls.queue_outgoing r hash)

abbrev after_broadcast : Calls → SendRow → Bool → World → Result Failure Text → Answer
after_broadcast calls r simulated w (err e) = fail_request r.id e w
after_broadcast calls r simulated w (ok hash) =
    after_record calls r hash simulated w (record_broadcast calls r hash w)

-- A simulated transaction reaches no network.
abbrev pub broadcast_by : Calls → SendRow → Text → Bool → Text → World → Answer
broadcast_by calls r digest true signed w =
    after_broadcast calls r true w (ok (codes "sim-" ++ take 40 digest))
broadcast_by calls r digest false signed w =
    after_broadcast calls r false (record w { sent = w.sent ++ signed ∷ [] })
      (calls.broadcast signed)

abbrev pub after_sign : Calls → SendRow → Text → World → Result Failure Signed → Answer
after_sign calls r digest w (err e) = fail_request r.id e w
after_sign calls r digest w (ok s) = broadcast_by calls r digest s.simulated s.signed w

abbrev after_build : Calls → SendRow → World → Result Failure Text → Answer
after_build calls r w (err e) = fail_request r.id e w
after_build calls r w (ok digest) = after_sign calls r digest w (calls.sign r digest)

abbrev after_signing_status : Calls → SendRow → TokenAmount → World → Result Failure Table → Answer
after_signing_status calls r amount w (err e) = fail_request r.id e w
after_signing_status calls r amount w (ok rows) =
    after_build calls r (with_rows w rows) (calls.build_transfer r amount)

abbrev run_row : Calls → SendRow → World → Result Failure TokenAmount → Answer
run_row calls r w (err e) = (err e, w)
run_row calls r w (ok amount) =
    after_signing_status calls r amount w
      (set_send_request_status r.id SendRequestStatus.signing no_extra w.rows)

abbrev stored_amount : Calls → SendRow → Result Failure TokenAmount
stored_amount calls r = lift_money (from_raw (big r.raw_amount) (calls.asset_of r))

abbrev execute_row : Calls → SendRow → SendRequestStatus → World → Answer
execute_row calls r SendRequestStatus.confirmed w = run_row calls r w (stored_amount calls r)
execute_row calls r _ w = (err (app invalid_state_transition), w)

abbrev execute_found : Calls → Option SendRow → World → Answer
execute_found calls none w = (err (app not_found), w)
execute_found calls (some r) w = execute_row calls r r.status w

unfoldable pub execute : Calls → Text → Text → World → Answer
execute calls user_id id w = execute_found calls (find_send_request user_id id w.rows) w

pub record SendConfirmRequest : Type 0 where
  pub send_request_id : Text
  pub quote_fingerprint : Text

abbrev after_claim : Calls → Text → World → Option SendRow × Table → Answer
after_claim calls user_id w (none, rows) = (err (app send_quote_expired), with_rows w rows)
after_claim calls user_id w (some claimed, rows) =
    execute calls user_id claimed.id (with_rows w rows)

abbrev replay : SendRow → World → Answer
replay r w = (
  ok (record {
    send_request_id = r.id;
    status = r.status;
    tx_hash = r.tx_hash;
    simulated = r.simulated;
  }),
  w,
)

abbrev claim_send : Calls → Text → SendConfirmRequest → ℕ → World → Answer
claim_send calls user_id request now w =
    after_claim calls user_id w
      (confirm_send_request user_id request.send_request_id request.quote_fingerprint now w.rows)

-- By the status of the request that was found.
abbrev confirm_row :
    Calls → Text → SendConfirmRequest → ℕ → SendRow → SendRequestStatus → World → Answer
confirm_row calls user_id request now r SendRequestStatus.completed w = replay r w
confirm_row calls user_id request now r SendRequestStatus.broadcast w = replay r w
confirm_row calls user_id request now r SendRequestStatus.quoted w =
    if not (ltb now r.expires_at)
    then (err (app send_quote_expired), w)
    else claim_send calls user_id request now w
confirm_row calls user_id request now r SendRequestStatus.expired w =
    (err (app send_quote_expired), w)
confirm_row calls user_id request now r _ w = (err (app send_already_confirmed), w)

abbrev confirm_found : Calls → Text → SendConfirmRequest → ℕ → Option SendRow → World → Answer
confirm_found calls user_id request now none w = (err (app not_found), w)
confirm_found calls user_id request now (some r) w =
    confirm_row calls user_id request now r r.status w

-- The result of the PIN check, which stands only where the configuration asks for it.
abbrev pin_gate : SendingConfig → Result Failure (Unit {0}) → Result Failure (Unit {0})
pin_gate config pin = if config.require_pin then pin else ok tt

abbrev confirm_if :
    Calls → Text → SendConfirmRequest → ℕ → World → Result Failure (Unit {0}) → Answer
confirm_if calls user_id request now w (err e) = (err e, w)
confirm_if calls user_id request now w (ok u) =
    confirm_found calls user_id request now
      (find_send_request user_id request.send_request_id w.rows) w

unfoldable pub confirm :
    Calls
    → SendingConfig
    → Bool
    → Result Failure (Unit {0})
    → Text
    → SendConfirmRequest
    → ℕ
    → World
    → Answer
confirm calls config db_enabled pin user_id request now w =
    confirm_if calls user_id request now w
      (assert_sending_enabled config db_enabled >> pin_gate config pin)

abbrev is_cancellable : SendRequestStatus → Bool
is_cancellable SendRequestStatus.quoted = true
is_cancellable SendRequestStatus.confirmed = true
is_cancellable _ = false

abbrev cancel_row : Text → SendRow → Table → Result Failure Table
cancel_row id r rows =
    if is_cancellable r.status
    then set_send_request_status id SendRequestStatus.cancelled no_extra rows
    else err (app invalid_state_transition)

unfoldable pub cancel : Text → Text → Table → Result Failure Table
cancel user_id id rows = do
  r ← or_throw (find_send_request user_id id rows) not_found
  cancel_row id r rows
