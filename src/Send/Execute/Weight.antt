-- ===== src/Send/Execute/Weight.antt =====
-- No step of packages/core/src/services/send.ts hands out a transaction without closing the request.
use wallet_bot.Base.{
  ℕ, ◌+◌, ◌≤◌, ◌≡◌, refl, sym, ap, subst, ltb, Bool, true, false, [], ◌∷◌, ◌++◌, length,
  length-append, take, Option, none, some, if◌then◌else◌, arith, Bool-cases, inl, inr,
}
use wallet_bot.Base.Result.{Result, ok, err}
use wallet_bot.Base.Text.{Text, codes, eq_text_sound}
use wallet_bot.Domain.Enums.{SendRequestStatus}
use wallet_bot.Money.Token.{TokenAmount}
use wallet_bot.Send.Store.{
  Failure, SendRow, Table, find_send_request, confirm_send_request, set_send_request_status,
  no_extra, code_of,
}
use wallet_bot.Send.Execute.{
  Signed, Calls, World, fail_request, finish, after_record, after_broadcast, broadcast_by,
  after_sign, after_build, after_signing_status, run_row, execute_row, execute_found, execute,
  SendConfirmRequest, after_claim, confirm_row, confirm_found, confirm_if, record_broadcast,
  stored_amount,
}
use wallet_bot.Send.Execute.Open.{
  is_open, open_count, still_open, find_id, claimed_id, open_after, set_closes, claim_open,
}

-- The transactions handed to a chain, and one more where the request may still be executed.
abbrev pub weight : Text → Text → World → ℕ
weight user_id id w = length w.sent + still_open user_id id w.rows

module _ (user_id : Text) where
  fail_weight :
      (id : Text) (e : Failure) (w : World)
      → weight user_id id (fail_request id e w).1 ≤ weight user_id id w
  unfolding fail_request
  fail_weight id e w = ground (
    arith,
    set_closes user_id id SendRequestStatus.failed
        (record { tx_hash = none; error_code = some (code_of e) }) w.rows refl,
  )

  module _ (calls : Calls) (r : SendRow) where
    weight-finish :
        (hash : Text) (simulated : Bool) (w : World) (x : Result Failure (Unit {0}))
        → weight user_id r.id (finish r hash simulated w x).1 ≤ weight user_id r.id w
    weight-finish hash simulated w (ok u) = omega arith
    weight-finish hash simulated w (err e) = fail_weight r.id e w

    record_closes :
        (hash : Text) (w : World) → open_after user_id r.id (record_broadcast calls r hash w) ≡ 0
    record_closes hash w = ground (
      arith,
      set_closes user_id r.id SendRequestStatus.broadcast
          (record { tx_hash = some hash; error_code = none }) w.rows refl,
    )

    record_weight :
        (hash : Text) (simulated : Bool) (w : World) (x : Result Failure Table)
        → open_after user_id r.id x ≡ 0
        → weight user_id r.id (after_record calls r hash simulated w x).1 ≤ weight user_id r.id w
    record_weight hash simulated w (err e) h = fail_weight r.id e w
    record_weight hash simulated w (ok rows) h = omega (
      arith,
      h,
      weight-finish hash simulated (record w { rows = rows }) (calls.queue_outgoing r hash),
    )

    broadcast_weight :
        (simulated : Bool) (w : World) (x : Result Failure Text)
        → weight user_id r.id (after_broadcast calls r simulated w x).1 ≤ weight user_id r.id w
    broadcast_weight simulated w (err e) = fail_weight r.id e w
    broadcast_weight simulated w (ok hash) =
        record_weight hash simulated w (record_broadcast calls r hash w) (record_closes hash w)

    hand_weight :
        (digest : Text) (simulated : Bool) (signed : Text) (w : World)
        → weight user_id r.id (broadcast_by calls r digest simulated signed w).1
          ≤ weight user_id r.id w + 1
    hand_weight digest true signed w =
        omega (arith, broadcast_weight true w (ok (codes "sim-" ++ take 40 digest)))
    hand_weight digest false signed w = omega (
      arith,
      length-append w.sent (signed ∷ []),
      broadcast_weight false (record w { sent = w.sent ++ signed ∷ [] }) (calls.broadcast signed),
    )

    sign_weight :
        (digest : Text) (w : World) (x : Result Failure Signed)
        → weight user_id r.id (after_sign calls r digest w x).1 ≤ weight user_id r.id w + 1
    sign_weight digest w (err e) = omega (arith, fail_weight r.id e w)
    sign_weight digest w (ok s) = hand_weight digest s.simulated s.signed w

    build_weight :
        (w : World) (x : Result Failure Text)
        → weight user_id r.id (after_build calls r w x).1 ≤ weight user_id r.id w + 1
    build_weight w (err e) = omega (arith, fail_weight r.id e w)
    build_weight w (ok digest) = sign_weight digest w (calls.sign r digest)

    signing_weight :
        (amount : TokenAmount) (w : World) (x : Result Failure Table)
        → open_after user_id r.id x ≡ 0
        → still_open user_id r.id w.rows ≡ 1
        → weight user_id r.id (after_signing_status calls r amount w x).1 ≤ weight user_id r.id w
    signing_weight amount w (err e) closed one = fail_weight r.id e w
    signing_weight amount w (ok rows) closed one = omega (
      arith,
      closed,
      one,
      build_weight (record w { rows = rows }) (calls.build_transfer r amount),
    )

    run_weight :
        (w : World) (x : Result Failure TokenAmount)
        → still_open user_id r.id w.rows ≡ 1
        → weight user_id r.id (run_row calls r w x).1 ≤ weight user_id r.id w
    run_weight w (err e) one = omega arith
    run_weight w (ok amount) one =
        signing_weight amount w
          (set_send_request_status r.id SendRequestStatus.signing no_extra w.rows)
          (set_closes user_id r.id SendRequestStatus.signing no_extra w.rows refl) one

    row_weight :
        (s : SendRequestStatus) (w : World)
        → (if is_open s then 1 else 0) ≡ still_open user_id r.id w.rows
        → weight user_id r.id (execute_row calls r s w).1 ≤ weight user_id r.id w
    row_weight SendRequestStatus.confirmed w h = run_weight w (stored_amount calls r) (sym h)
    row_weight SendRequestStatus.quoted w h = omega arith
    row_weight SendRequestStatus.signing w h = omega arith
    row_weight SendRequestStatus.broadcast w h = omega arith
    row_weight SendRequestStatus.completed w h = omega arith
    row_weight SendRequestStatus.failed w h = omega arith
    row_weight SendRequestStatus.expired w h = omega arith
    row_weight SendRequestStatus.cancelled w h = omega arith

  found_weight :
      (calls : Calls) (id : Text) (w : World) (o : Option SendRow)
      → find_send_request user_id id w.rows ≡ o
      → weight user_id id (execute_found calls o w).1 ≤ weight user_id id w
  found_weight calls id w none h = omega arith
  found_weight calls id w (some r) h =
      let e = eq_text_sound r.id id (find_id user_id id w.rows h) in
      let found = subst (λ i. find_send_request user_id i w.rows ≡ some r) (sym e) h in
      subst (λ i. weight user_id i (execute_row calls r r.status w).1 ≤ weight user_id i w) e
        (row_weight calls r r.status w (ap open_count (sym found)))

  pub weight-execute :
      (calls : Calls) (id : Text) (w : World)
      → weight user_id id (execute calls user_id id w).1 ≤ weight user_id id w
  unfolding execute
  weight-execute calls id w = found_weight calls id w (find_send_request user_id id w.rows) refl

  claim_weight :
      (calls : Calls) (fp id : Text) (now : ℕ) (w : World) (x : Option SendRow × Table)
      → confirm_send_request user_id id fp now w.rows ≡ x
      → weight user_id id (after_claim calls user_id w x).1 ≤ weight user_id id w
  claim_weight calls fp id now w (none, rows) h = omega (
    arith,
    subst (λ x. still_open user_id id x.1 ≤ still_open user_id id w.rows) h
        (claim_open user_id id fp now w.rows),
  )
  claim_weight calls fp id now w (some c, rows) h = omega (
    arith,
    subst (λ x. still_open user_id id x.1 ≤ still_open user_id id w.rows) h
        (claim_open user_id id fp now w.rows),
    subst
        (λ i.
          weight user_id i (execute calls user_id c.id (record w { rows = rows })).1
          ≤ weight user_id i (record w { rows = rows }))
        (eq_text_sound c.id id (claimed_id user_id id fp now w.rows (ap (λ x. x.0) h)))
        (weight-execute calls c.id (record w { rows = rows })),
  )

  weight-confirm_row :
      (calls : Calls) (request : SendConfirmRequest) (now : ℕ) (r : SendRow) (s : SendRequestStatus)
      (w : World)
      → weight user_id request.send_request_id (confirm_row calls user_id request now r s w).1
        ≤ weight user_id request.send_request_id w
  weight-confirm_row calls request now r SendRequestStatus.quoted w =
      elim (Bool-cases (ltb now r.expires_at)) [
        | inl e ↦ rw e (
            claim_weight calls request.quote_fingerprint request.send_request_id now w
              (confirm_send_request user_id request.send_request_id request.quote_fingerprint now
                w.rows)
              refl)
        | inr e ↦ rw e (omega arith)
      ]
  weight-confirm_row calls request now r SendRequestStatus.confirmed w = omega arith
  weight-confirm_row calls request now r SendRequestStatus.signing w = omega arith
  weight-confirm_row calls request now r SendRequestStatus.broadcast w = omega arith
  weight-confirm_row calls request now r SendRequestStatus.completed w = omega arith
  weight-confirm_row calls request now r SendRequestStatus.failed w = omega arith
  weight-confirm_row calls request now r SendRequestStatus.expired w = omega arith
  weight-confirm_row calls request now r SendRequestStatus.cancelled w = omega arith

  weight-confirm_found :
      (calls : Calls) (request : SendConfirmRequest) (now : ℕ) (o : Option SendRow) (w : World)
      → weight user_id request.send_request_id (confirm_found calls user_id request now o w).1
        ≤ weight user_id request.send_request_id w
  weight-confirm_found calls request now none w = omega arith
  weight-confirm_found calls request now (some r) w =
      weight-confirm_row calls request now r r.status w

  pub weight-confirm_if :
      (calls : Calls) (request : SendConfirmRequest) (now : ℕ) (w : World)
      (gate : Result Failure (Unit {0}))
      → weight user_id request.send_request_id (confirm_if calls user_id request now w gate).1
        ≤ weight user_id request.send_request_id w
  weight-confirm_if calls request now w (err e) = omega arith
  weight-confirm_if calls request now w (ok u) =
      weight-confirm_found calls request now
        (find_send_request user_id request.send_request_id w.rows) w
