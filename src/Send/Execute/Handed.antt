-- ===== src/Send/Execute/Handed.antt =====
-- How much one execution hands to chains: packages/core/src/services/send.ts.
use wallet_bot.Base.{
  ◌+◌, ◌≤◌, ◌≡◌, ap, Bool, true, false, [], ◌∷◌, ◌++◌, take, Option, none, some, arith, inl, inr,
  length, length-append,
}
use wallet_bot.Base.Result.{Result, ok, err, Result-cases}
use wallet_bot.Base.Text.{Text, codes}
use wallet_bot.Domain.Enums.{SendRequestStatus}
use wallet_bot.Money.Token.{TokenAmount}
use wallet_bot.Send.Store.{
  Failure, SendRow, Table, find_send_request, set_send_request_status, no_extra,
}
use wallet_bot.Send.Execute.{
  Signed, Calls, World, fail_request, after_record, record_broadcast, after_broadcast, after_sign,
  broadcast_by, after_build, run_row, stored_amount, execute_row, execute_found, execute,
}

failed_sent : (id : Text) (e : Failure) (w : World) → (fail_request id e w).1.sent ≡ w.sent
unfolding fail_request
failed_sent id e w = ground arith

module _ (calls : Calls) (r : SendRow) where
  recorded_sent :
      (hash : Text) (simulated : Bool) (w : World) (x : Result Failure Table)
      → (after_record calls r hash simulated w x).1.sent ≡ w.sent
  recorded_sent hash simulated w (err e) = failed_sent r.id e w
  recorded_sent hash simulated w (ok rows) = elim (Result-cases (calls.queue_outgoing r hash)) [
    | inl (u, e) ↦ rw e
    | inr (e', e) ↦ rw e (failed_sent r.id e' (record w { rows = rows }))
  ]

  broadcasted_sent :
      (simulated : Bool) (w : World) (x : Result Failure Text)
      → (after_broadcast calls r simulated w x).1.sent ≡ w.sent
  broadcasted_sent simulated w (err e) = failed_sent r.id e w
  broadcasted_sent simulated w (ok hash) =
      recorded_sent hash simulated w (record_broadcast calls r hash w)

  broadcast-length :
      (digest : Text) (simulated : Bool) (signed : Text) (w : World)
      → length (broadcast_by calls r digest simulated signed w).1.sent ≤ length w.sent + 1
  broadcast-length digest true signed w =
      omega (arith, ap length (broadcasted_sent true w (ok (codes "sim-" ++ take 40 digest))))
  broadcast-length digest false signed w = omega (
    arith,
    ap length (
        broadcasted_sent false (record w { sent = w.sent ++ (signed ∷ []) })
          (calls.broadcast signed)),
    length-append w.sent (signed ∷ []),
  )

  sign-length :
      (digest : Text) (w : World) (x : Result Failure Signed)
      → length (after_sign calls r digest w x).1.sent ≤ length w.sent + 1
  sign-length digest w (err e) = omega (arith, ap length (failed_sent r.id e w))
  sign-length digest w (ok s) = broadcast-length digest s.simulated s.signed w

  build-length :
      (w : World) (x : Result Failure Text)
      → length (after_build calls r w x).1.sent ≤ length w.sent + 1
  build-length w (err e) = omega (arith, ap length (failed_sent r.id e w))
  build-length w (ok digest) = sign-length digest w (calls.sign r digest)

  run-length :
      (w : World) (x : Result Failure TokenAmount)
      → length (run_row calls r w x).1.sent ≤ length w.sent + 1
  run-length w (err e) = omega arith
  run-length w (ok amount) =
      elim (Result-cases (set_send_request_status r.id SendRequestStatus.signing no_extra w.rows)) [
        | inl (rows, e) ↦
            rw e (build-length (record w { rows = rows }) (calls.build_transfer r amount))
        | inr (e', e) ↦ rw e (omega (arith, ap length (failed_sent r.id e' w)))
      ]

  row-length :
      (s : SendRequestStatus) (w : World)
      → length (execute_row calls r s w).1.sent ≤ length w.sent + 1
  row-length SendRequestStatus.confirmed w = run-length w (stored_amount calls r)
  row-length SendRequestStatus.quoted w = omega arith
  row-length SendRequestStatus.signing w = omega arith
  row-length SendRequestStatus.broadcast w = omega arith
  row-length SendRequestStatus.completed w = omega arith
  row-length SendRequestStatus.failed w = omega arith
  row-length SendRequestStatus.expired w = omega arith
  row-length SendRequestStatus.cancelled w = omega arith

found-length :
    (calls : Calls) (o : Option SendRow) (w : World)
    → length (execute_found calls o w).1.sent ≤ length w.sent + 1
found-length calls none w = omega arith
found-length calls (some r) w = row-length calls r r.status w

-- An execution hands at most one transaction to a chain.
pub length-execute :
    (calls : Calls) (user_id id : Text) (w : World)
    → length (execute calls user_id id w).1.sent ≤ length w.sent + 1
unfolding execute
length-execute calls user_id id w = found-length calls (find_send_request user_id id w.rows) w
