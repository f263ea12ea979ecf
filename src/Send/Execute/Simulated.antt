-- ===== src/Send/Execute/Simulated.antt =====
-- A signer that only simulates: packages/core/src/services/send.ts.
use wallet_bot.Base.{
  ℕ, ◌≡◌, refl, Bool, true, ◌++◌, take, Option, none, some, ltb, arith, Bool-cases, inl, inr,
}
use wallet_bot.Base.Result.{Result, ok, err, Result-cases, ◌>>◌}
use wallet_bot.Base.Text.{Text, codes}
use wallet_bot.Domain.Enums.{SendRequestStatus}
use wallet_bot.Money.Token.{TokenAmount}
use wallet_bot.Send.Store.{
  Failure, SendRow, Table, find_send_request, confirm_send_request, set_send_request_status,
  no_extra,
}
use wallet_bot.Send.Quote.{SendingConfig, assert_sending_enabled}
use wallet_bot.Send.Execute.{
  Signed, Calls, World, fail_request, after_record, record_broadcast, after_broadcast, after_build,
  run_row, stored_amount, execute_row, execute_found, execute, SendConfirmRequest, after_claim,
  confirm_row, confirm_found, confirm_if, confirm, pin_gate,
}

fail_sent : (id : Text) (e : Failure) (w : World) → (fail_request id e w).1.sent ≡ w.sent
unfolding fail_request
fail_sent id e w = ground arith

-- Whatever the signer answers for a request, it is marked as simulated.
abbrev pub IsSimulating : Calls → Type 0
IsSimulating calls =
    (r : SendRow) (digest : Text) (s : Signed) → calls.sign r digest ≡ ok s → s.simulated ≡ true

module _ (calls : Calls) (simulating : IsSimulating calls) (r : SendRow) where
  record_sent :
      (hash : Text) (simulated : Bool) (w : World) (x : Result Failure Table)
      → (after_record calls r hash simulated w x).1.sent ≡ w.sent
  record_sent hash simulated w (err e) = fail_sent r.id e w
  record_sent hash simulated w (ok rows) = elim (Result-cases (calls.queue_outgoing r hash)) [
    | inl (u, e) ↦ rw e
    | inr (e', e) ↦ rw e (fail_sent r.id e' (record w { rows = rows }))
  ]

  broadcast_sent :
      (simulated : Bool) (w : World) (x : Result Failure Text)
      → (after_broadcast calls r simulated w x).1.sent ≡ w.sent
  broadcast_sent simulated w (err e) = fail_sent r.id e w
  broadcast_sent simulated w (ok hash) =
      record_sent hash simulated w (record_broadcast calls r hash w)

  build_sent : (w : World) (x : Result Failure Text) → (after_build calls r w x).1.sent ≡ w.sent
  build_sent w (err e) = fail_sent r.id e w
  build_sent w (ok digest) = elim (Result-cases (calls.sign r digest)) [
    | inl (s, e) ↦
        rw (e, simulating r digest s e)
          (broadcast_sent true w (ok (codes "sim-" ++ take 40 digest)))
    | inr (e', e) ↦ rw e (fail_sent r.id e' w)
  ]

  run_sent : (w : World) (x : Result Failure TokenAmount) → (run_row calls r w x).1.sent ≡ w.sent
  run_sent w (err e) = refl
  run_sent w (ok amount) =
      elim (Result-cases (set_send_request_status r.id SendRequestStatus.signing no_extra w.rows)) [
        | inl (rows, e) ↦
            rw e (build_sent (record w { rows = rows }) (calls.build_transfer r amount))
        | inr (e', e) ↦ rw e (fail_sent r.id e' w)
      ]

  row_sent : (s : SendRequestStatus) (w : World) → (execute_row calls r s w).1.sent ≡ w.sent
  row_sent SendRequestStatus.confirmed w = run_sent w (stored_amount calls r)
  row_sent SendRequestStatus.quoted w = refl
  row_sent SendRequestStatus.signing w = refl
  row_sent SendRequestStatus.broadcast w = refl
  row_sent SendRequestStatus.completed w = refl
  row_sent SendRequestStatus.failed w = refl
  row_sent SendRequestStatus.expired w = refl
  row_sent SendRequestStatus.cancelled w = refl

module _ (calls : Calls) (simulating : IsSimulating calls) (user_id : Text) where
  found_sent : (o : Option SendRow) (w : World) → (execute_found calls o w).1.sent ≡ w.sent
  found_sent none w = refl
  found_sent (some r) w = row_sent calls simulating r r.status w

  execute_sent : (id : Text) (w : World) → (execute calls user_id id w).1.sent ≡ w.sent
  unfolding execute
  execute_sent id w = found_sent (find_send_request user_id id w.rows) w

  claim_sent :
      (w : World) (x : Option SendRow × Table) → (after_claim calls user_id w x).1.sent ≡ w.sent
  claim_sent w (none, rows) = refl
  claim_sent w (some claimed, rows) = execute_sent claimed.id (record w { rows = rows })

  confirm_row_sent :
      (request : SendConfirmRequest) (now : ℕ) (r : SendRow) (s : SendRequestStatus) (w : World)
      → (confirm_row calls user_id request now r s w).1.sent ≡ w.sent
  confirm_row_sent request now r SendRequestStatus.quoted w =
      elim (Bool-cases (ltb now r.expires_at)) [
        | inl e ↦ rw e (
            claim_sent w (
              confirm_send_request user_id request.send_request_id request.quote_fingerprint now
                w.rows))
        | inr e ↦ rw e
      ]
  confirm_row_sent request now r SendRequestStatus.confirmed w = refl
  confirm_row_sent request now r SendRequestStatus.signing w = refl
  confirm_row_sent request now r SendRequestStatus.broadcast w = refl
  confirm_row_sent request now r SendRequestStatus.completed w = refl
  confirm_row_sent request now r SendRequestStatus.failed w = refl
  confirm_row_sent request now r SendRequestStatus.expired w = refl
  confirm_row_sent request now r SendRequestStatus.cancelled w = refl

  confirm_found_sent :
      (request : SendConfirmRequest) (now : ℕ) (o : Option SendRow) (w : World)
      → (confirm_found calls user_id request now o w).1.sent ≡ w.sent
  confirm_found_sent request now none w = refl
  confirm_found_sent request now (some r) w = confirm_row_sent request now r r.status w

  confirm_if_sent :
      (request : SendConfirmRequest) (now : ℕ) (w : World) (gate : Result Failure (Unit {0}))
      → (confirm_if calls user_id request now w gate).1.sent ≡ w.sent
  confirm_if_sent request now w (err e) = refl
  confirm_if_sent request now w (ok u) =
      confirm_found_sent request now (find_send_request user_id request.send_request_id w.rows) w

  -- With a signer whose every answer is marked as simulated, a confirmation hands no transaction to
  -- a chain, whatever the configuration, the result of the PIN check, the request, the time and the
  -- state are.
  pub simulated_confirm :
      (config : SendingConfig) (db_enabled : Bool) (pin : Result Failure (Unit {0}))
      (request : SendConfirmRequest) (now : ℕ) (w : World)
      → (confirm calls config db_enabled pin user_id request now w).1.sent ≡ w.sent
  unfolding confirm
  simulated_confirm config db_enabled pin request now w =
      confirm_if_sent request now w
        (assert_sending_enabled config db_enabled >> pin_gate config pin)
