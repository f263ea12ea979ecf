-- ===== src/Tests/Machines.antt =====
-- The state machines and the composite keys on concrete inputs.
use wallet_bot.Base.{◌≡◌, ◌⊎◌, true, List, [], ◌∷◌, arith, refl, All}
use wallet_bot.Base.Text.{Text, codes}
use wallet_bot.Domain.Enums.{SendRequestStatus, TxStatus}
use wallet_bot.Domain.StateMachines.{
  send_index, send_request_transitions, tx_index, tx_status_transitions, can_transition,
  assert_transition, is_settled, is_terminal,
}
use wallet_bot.Domain.StateMachines.Reach.{Run, here, next, settled-Run}
use wallet_bot.Util.Keys.{join}
use wallet_bot.Util.Keys.Collisions.{join_collision}
use wallet_bot.Util.Keys.Decode.{HasNoSlash, join-injective}

quoted_confirmed :
    Run send_index send_request_transitions SendRequestStatus.quoted SendRequestStatus.confirmed
unfolding assert_transition can_transition
quoted_confirmed = next here refl

confirmed_reversed : Run tx_index tx_status_transitions TxStatus.confirmed TxStatus.reversed
unfolding assert_transition can_transition
confirmed_reversed = next here refl

confirmed_settled : is_settled TxStatus.confirmed ≡ true
unfolding is_settled
confirmed_settled = refl

settled-Run_example :
    (TxStatus.reversed ≡ TxStatus.confirmed) ⊎ (TxStatus.reversed ≡ TxStatus.reversed)
settled-Run_example = settled-Run confirmed_reversed confirmed_settled

send_distinct : (s t : SendRequestStatus) → send_index s ≡ send_index t → s ≡ t
send_distinct s t h = ground arith

expired_terminal : is_terminal send_request_transitions SendRequestStatus.expired ≡ true
unfolding is_terminal
expired_terminal = refl

join-injective_example :
    ◌≡◌ {A = List Text} (codes "a:b" ∷ codes "c" ∷ []) (codes "a:b" ∷ codes "c" ∷ [])
join-injective_example =
    join-injective (codes "a:b") (codes "a:b") (codes "c" ∷ []) (codes "c" ∷ []) no_slash no_slash
      refl
  where
    no_slash : All HasNoSlash (codes "a:b" ∷ codes "c" ∷ [])
    no_slash = ground arith

join_collision_example :
    join (codes "a\\" ∷ codes "b" ∷ codes "c:d" ∷ [])
    ≡ join (codes "a:b" ∷ codes "c\\" ∷ codes "d" ∷ [])
join_collision_example =
    join_collision (codes "a") (codes "b") (codes "c") (codes "d") (ground arith) (ground arith)
      (ground arith) (ground arith)
