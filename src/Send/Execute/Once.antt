-- ===== src/Send/Execute/Once.antt =====
-- What any number of confirmations, executions and cancellations of one request do together:
-- packages/core/src/services/send.ts.
use wallet_bot.Base.{ℕ, ◌+◌, ◌≤◌, ◌≡◌, refl, Bool, List, [], ◌∷◌, length, Option, none, some, arith}
use wallet_bot.Base.Result.{Result, ok, err, ◌>>◌}
use wallet_bot.Base.Text.{Text}
use wallet_bot.Domain.Enums.{SendRequestStatus}
use wallet_bot.Send.Store.{Failure, SendRow, Table, find_send_request, no_extra}
use wallet_bot.Send.Quote.{SendingConfig, assert_sending_enabled}
use wallet_bot.Send.Execute.{Calls, World, execute, confirm, cancel, pin_gate}
use wallet_bot.Send.Execute.Open.{open_count, still_open, open_after, set_closes}
use wallet_bot.Send.Execute.Weight.{weight, weight-execute, weight-confirm_if}

-- One thing that happens to the request: a confirmation, an execution on its own (as the scheduler
-- does), or a cancellation.
pub data Attempt : Type 0 where
  confirming : Calls → SendingConfig → Bool → Result Failure (Unit {0}) → Text → ℕ → Attempt
  executing : Calls → Attempt
  cancelling : Attempt

-- A cancellation that throws changes nothing.
abbrev pub keep_rows : World → Result Failure Table → World
keep_rows w (ok rows) = record w { rows = rows }
keep_rows w (err e) = w

abbrev pub attempt : Text → Text → Attempt → World → World
attempt user_id id (confirming calls config db_enabled pin fingerprint now) w =
    (confirm calls config db_enabled pin user_id
      (record { send_request_id = id; quote_fingerprint = fingerprint }) now w).1
attempt user_id id (executing calls) w = (execute calls user_id id w).1
attempt user_id id cancelling w = keep_rows w (cancel user_id id w.rows)

abbrev pub run_attempts : Text → Text → List Attempt → World → World
run_attempts user_id id [] w = w
run_attempts user_id id (a ∷ rest) w = run_attempts user_id id rest (attempt user_id id a w)

keep_weight :
    (user_id id : Text) (w : World) (x : Result Failure Table)
    → open_after user_id id x ≤ still_open user_id id w.rows
    → weight user_id id (keep_rows w x) ≤ weight user_id id w
keep_weight user_id id w (ok rows) h = omega arith
keep_weight user_id id w (err e) h = omega arith

cancel_open :
    (user_id id : Text) (rows : Table) → open_after user_id id (cancel user_id id rows) ≡ 0
unfolding cancel
cancel_open user_id id rows =
    ground (arith, set_closes user_id id SendRequestStatus.cancelled no_extra rows refl)

weight-attempt :
    (user_id id : Text) (a : Attempt) (w : World)
    → weight user_id id (attempt user_id id a w) ≤ weight user_id id w
unfolding confirm
weight-attempt user_id id (confirming calls config db_enabled pin fingerprint now) w =
    weight-confirm_if user_id calls
      (record { send_request_id = id; quote_fingerprint = fingerprint }) now w
      (assert_sending_enabled config db_enabled >> pin_gate config pin)
weight-attempt user_id id (executing calls) w = weight-execute user_id calls id w
weight-attempt user_id id cancelling w =
    keep_weight user_id id w (cancel user_id id w.rows)
      (omega (arith, cancel_open user_id id w.rows))

attempts_weight :
    (user_id id : Text) (attempts : List Attempt) (w : World)
    → weight user_id id (run_attempts user_id id attempts w) ≤ weight user_id id w
attempts_weight user_id id [] w = omega arith
attempts_weight user_id id (a ∷ rest) w =
    omega (
      arith,
      weight-attempt user_id id a w,
      attempts_weight user_id id rest (attempt user_id id a w),
    )

open_le : (o : Option SendRow) → open_count o ≤ 1
open_le none = omega arith
open_le (some r) = ground arith

-- Any sequence of confirmations, executions and cancellations of one request of a user, whatever
-- their fingerprints, configurations, times and the answers of the calls are, hands at most one
-- signed transaction to a chain.
pub at_most_once :
    (user_id id : Text) (attempts : List Attempt) (w : World)
    → length (run_attempts user_id id attempts w).sent ≤ length w.sent + 1
at_most_once user_id id attempts w =
    omega
      (arith, attempts_weight user_id id attempts w, open_le (find_send_request user_id id w.rows))

-- Where the request is neither quoted nor confirmed, or is not a request of the user, no sequence of
-- attempts hands any transaction to a chain.
pub closed_never_sends :
    (user_id id : Text) (attempts : List Attempt) (w : World)
    → still_open user_id id w.rows ≡ 0
    → length (run_attempts user_id id attempts w).sent ≤ length w.sent
closed_never_sends user_id id attempts w h = omega (arith, attempts_weight user_id id attempts w)
