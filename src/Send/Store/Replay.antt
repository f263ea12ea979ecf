-- ===== src/Send/Store/Replay.antt =====
-- The idempotency key and the claim of a quote: packages/db/src/repositories/send.ts.
use wallet_bot.Base.{ℕ, ◌≤◌, ◌≡◌, refl, ap, true, false, [], ◌∷◌, ◌++◌, Option, none, some, arith}
use wallet_bot.Base.Text.{Text, eq_text_refl}
use wallet_bot.Send.Store.{
  SendRow, Table, same_request, find_by_key, insert_unless, create_send_request,
  confirm_send_request,
}

find_by_key-append :
    (user_id key : Text) (rows : Table) (r : SendRow)
    → find_by_key user_id key rows ≡ none
    → same_request user_id key r ≡ true
    → find_by_key user_id key (rows ++ r ∷ []) ≡ some r
find_by_key-append user_id key [] r h same = ground arith
find_by_key-append user_id key (q ∷ rows) r h same =
    ground (arith, find_by_key-append user_id key rows r)

insert_twice :
    (input again : SendRow) (rows : Table) (o : Option SendRow)
    → find_by_key input.user_id input.idempotency_key rows ≡ o
    → find_by_key input.user_id input.idempotency_key (insert_unless o input rows).1
      ≡ some (insert_unless o input rows).0.0
insert_twice input again rows (some found) h = h
insert_twice input again rows none h =
    find_by_key-append input.user_id input.idempotency_key rows input h
      (ground (arith, eq_text_refl input.user_id, eq_text_refl input.idempotency_key))

-- After a request was created or found, a second creation with the same user and the same
-- idempotency key, whatever its other fields, answers the same row as not created and adds no row.
pub create_replay :
    (input again : SendRow) (rows : Table)
    → again.user_id ≡ input.user_id
    → again.idempotency_key ≡ input.idempotency_key
    → create_send_request again (create_send_request input rows).1
      ≡ (((create_send_request input rows).0.0, false), (create_send_request input rows).1)
unfolding create_send_request
create_replay input again rows same_user same_key =
    let found : find_by_key again.user_id again.idempotency_key (create_send_request input rows).1
        ≡ some (create_send_request input rows).0.0 =
      rw (same_user, same_key)
        (insert_twice input again rows (find_by_key input.user_id input.idempotency_key rows)
          refl) in
    ap (λ o. insert_unless o again (create_send_request input rows).1) found

-- Once a claim of a quote was executed, whatever it answered, a second claim of the same request by
-- the same user with the same fingerprint, at a time that is not earlier, answers no row.
pub claimed_at_most_once :
    (user_id id fingerprint : Text) (now later : ℕ) (rows : Table)
    → now ≤ later
    → (confirm_send_request user_id id fingerprint later
        (confirm_send_request user_id id fingerprint now rows).1).0
      ≡ none
unfolding confirm_send_request
claimed_at_most_once user_id id fingerprint now later [] h = refl
claimed_at_most_once user_id id fingerprint now later (r ∷ rows) h =
    ground (arith, claimed_at_most_once user_id id fingerprint now later rows)
