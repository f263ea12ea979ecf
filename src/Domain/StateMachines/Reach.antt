-- ===== src/Domain/StateMachines/Reach.antt =====
-- Where a machine can get to by any number of asserted transitions.
use wallet_bot.Base.{
  ℕ, ◌<◌, true, false, List, [], ◌∷◌, length, ◌==◌, ◌≡◌, ◌≢◌, refl, arith, ◌⊎◌, inl, inr,
  Bool-cases, ==_iff, subst, ◌∙◌,
}
use wallet_bot.Base.Result.{ok}
use wallet_bot.Domain.Enums.{TxStatus, SendRequestStatus}
use wallet_bot.Domain.StateMachines.{
  Transitions, tx_status_transitions, send_request_transitions, tx_index, send_index, includes,
  can_transition, assert_transition, is_terminal, is_settled,
}

-- The moves that `assertTransition` lets through, one after another.
pub data Run {S : Type 0} (index : S → ℕ) (machine : Transitions S) (s : S) : S → Type 0 where
  here : Run index machine s s
  next :
      {t u : S}
      → Run index machine s t
      → assert_transition index machine t u ≡ ok tt
      → Run index machine s u

-- How far a send request has come.
abbrev pub progress : SendRequestStatus → ℕ
progress SendRequestStatus.quoted = 0
progress SendRequestStatus.confirmed = 1
progress SendRequestStatus.signing = 2
progress SendRequestStatus.broadcast = 3
progress _ = 4

send_forward :
    (s t : SendRequestStatus)
    → assert_transition send_index send_request_transitions s t ≡ ok tt
    → (s ≡ t) ⊎ (progress s < progress t)
unfolding assert_transition can_transition
send_forward s t h = ground arith

send-Run :
    {s t : SendRequestStatus}
    → Run send_index send_request_transitions s t
    → (s ≡ t) ⊎ (progress s < progress t)
send-Run here = inl refl
send-Run (next {t = t} {u = u} run step) = meet (send-Run run) (send_forward t u step)
  where
    meet :
        {s t u : SendRequestStatus}
        → (s ≡ t) ⊎ (progress s < progress t)
        → (t ≡ u) ⊎ (progress t < progress u)
        → (s ≡ u) ⊎ (progress s < progress u)
    meet h k = ground arith

-- Where a run of allowed transitions leads a send request from one status to a different one, no
-- such run leads back.
pub send_no_return :
    (s t : SendRequestStatus)
    → Run send_index send_request_transitions s t
    → s ≢ t
    → ¬ Run send_index send_request_transitions t s
send_no_return s t there differ back = ground (arith, send-Run there, send-Run back)

settled_start : (s : TxStatus) → is_settled s ≡ true → s ≡ TxStatus.confirmed
unfolding is_settled
settled_start s h = ground arith

settled_step :
    (t u : TxStatus)
    → (t ≡ TxStatus.confirmed) ⊎ (t ≡ TxStatus.reversed)
    → assert_transition tx_index tx_status_transitions t u ≡ ok tt
    → (u ≡ TxStatus.confirmed) ⊎ (u ≡ TxStatus.reversed)
unfolding assert_transition can_transition
settled_step t u h step = ground arith

-- A transaction that is settled stays so until it is reversed, and gets nowhere else.
pub settled-Run :
    {s t : TxStatus}
    → Run tx_index tx_status_transitions s t
    → is_settled s ≡ true
    → (t ≡ TxStatus.confirmed) ⊎ (t ≡ TxStatus.reversed)
settled-Run {s} here h = inl (settled_start s h)
settled-Run (next {t = t} {u = u} run step) h = settled_step t u (settled-Run run h) step

module _ {S : Type 0} (index : S → ℕ) (machine : Transitions S)
    (distinct : (x y : S) → index x ≡ index y → x ≡ y) where
  includes_empty : (l : List S) (t : S) → (length l == 0) ≡ true → includes index l t ≡ false
  includes_empty [] t e = refl
  includes_empty (x ∷ l) t e = absurd (ground arith)

  terminal_step :
      (s t : S) → is_terminal machine s ≡ true → assert_transition index machine s t ≡ ok tt → s ≡ t
  unfolding is_terminal assert_transition can_transition
  terminal_step s t e h = elim (Bool-cases (index s == index t)) [
    | inl same ↦ distinct s t ((==_iff (index s) (index t)).0 same)
    | inr differ ↦ ground (arith, includes_empty (machine s) t e)
  ]

  -- From a state that the machine calls terminal no other state is reached, in any machine whose
  -- states have different indices.
  pub terminal-Run : {s t : S} → is_terminal machine s ≡ true → Run index machine s t → s ≡ t
  terminal-Run e here = refl
  terminal-Run e (next {t = t} {u = u} run step) =
      let p = terminal-Run e run in
      p ∙ terminal_step t u (subst (λ x. is_terminal machine x ≡ true) p e) step
