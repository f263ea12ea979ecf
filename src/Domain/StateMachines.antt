-- ===== src/Domain/StateMachines.antt =====
-- The state machines of everything that touches money: packages/shared/src/domain/state-machines.ts.
pub mod Reach
use wallet_bot.Base.{
  ℕ, suc, zero, Bool, true, false, List, [], ◌∷◌, ◌||◌, not, if◌then◌else◌, length, ◌==◌,
}
use wallet_bot.Base.Result.{Result, ok, err}
use wallet_bot.Domain.Enums.{
  TxStatus, ScheduledPaymentStatus, ExpectedIncomeStatus, SendRequestStatus, ErrorCode,
  invalid_state_transition,
}

-- The states that may follow each state.
abbrev pub Transitions : Type 0 → Type 0
Transitions S = S → List S

abbrev pub tx_status_transitions : Transitions TxStatus
tx_status_transitions TxStatus.pending =
    TxStatus.confirmed ∷ TxStatus.failed ∷ TxStatus.cancelled ∷ []
tx_status_transitions TxStatus.detected =
    TxStatus.confirming ∷ TxStatus.confirmed ∷ TxStatus.failed ∷ []
tx_status_transitions TxStatus.confirming = TxStatus.confirmed ∷ TxStatus.failed ∷ []
tx_status_transitions TxStatus.confirmed = TxStatus.reversed ∷ []
tx_status_transitions TxStatus.failed = []
tx_status_transitions TxStatus.cancelled = []
tx_status_transitions TxStatus.reversed = []

abbrev pub scheduled_payment_transitions : Transitions ScheduledPaymentStatus
scheduled_payment_transitions ScheduledPaymentStatus.scheduled =
    ScheduledPaymentStatus.processing ∷ ScheduledPaymentStatus.cancelled ∷ []
scheduled_payment_transitions ScheduledPaymentStatus.processing =
    ScheduledPaymentStatus.completed ∷ ScheduledPaymentStatus.failed
    ∷ ScheduledPaymentStatus.scheduled ∷ []
scheduled_payment_transitions ScheduledPaymentStatus.completed = []
scheduled_payment_transitions ScheduledPaymentStatus.failed =
    ScheduledPaymentStatus.scheduled ∷ ScheduledPaymentStatus.cancelled ∷ []
scheduled_payment_transitions ScheduledPaymentStatus.cancelled = []

abbrev pub expected_income_transitions : Transitions ExpectedIncomeStatus
expected_income_transitions ExpectedIncomeStatus.pending =
    ExpectedIncomeStatus.received ∷ ExpectedIncomeStatus.delayed ∷ ExpectedIncomeStatus.cancelled
    ∷ []
expected_income_transitions ExpectedIncomeStatus.delayed =
    ExpectedIncomeStatus.received ∷ ExpectedIncomeStatus.cancelled ∷ ExpectedIncomeStatus.pending
    ∷ []
expected_income_transitions ExpectedIncomeStatus.received = []
expected_income_transitions ExpectedIncomeStatus.cancelled = ExpectedIncomeStatus.pending ∷ []

abbrev pub send_request_transitions : Transitions SendRequestStatus
send_request_transitions SendRequestStatus.quoted =
    SendRequestStatus.confirmed ∷ SendRequestStatus.cancelled ∷ SendRequestStatus.expired ∷ []
send_request_transitions SendRequestStatus.confirmed =
    SendRequestStatus.signing ∷ SendRequestStatus.failed ∷ SendRequestStatus.cancelled ∷ []
send_request_transitions SendRequestStatus.signing =
    SendRequestStatus.broadcast ∷ SendRequestStatus.failed ∷ []
send_request_transitions SendRequestStatus.broadcast =
    SendRequestStatus.completed ∷ SendRequestStatus.failed ∷ []
send_request_transitions SendRequestStatus.completed = []
send_request_transitions SendRequestStatus.failed = []
send_request_transitions SendRequestStatus.cancelled = []
send_request_transitions SendRequestStatus.expired = []

-- A number for each state name, for `===`.
abbrev pub tx_index : TxStatus → ℕ
tx_index TxStatus.pending = 0
tx_index TxStatus.detected = 1
tx_index TxStatus.confirming = 2
tx_index TxStatus.confirmed = 3
tx_index TxStatus.failed = 4
tx_index TxStatus.cancelled = 5
tx_index TxStatus.reversed = 6

abbrev pub scheduled_index : ScheduledPaymentStatus → ℕ
scheduled_index ScheduledPaymentStatus.scheduled = 0
scheduled_index ScheduledPaymentStatus.processing = 1
scheduled_index ScheduledPaymentStatus.completed = 2
scheduled_index ScheduledPaymentStatus.failed = 3
scheduled_index ScheduledPaymentStatus.cancelled = 4

abbrev pub income_index : ExpectedIncomeStatus → ℕ
income_index ExpectedIncomeStatus.pending = 0
income_index ExpectedIncomeStatus.received = 1
income_index ExpectedIncomeStatus.delayed = 2
income_index ExpectedIncomeStatus.cancelled = 3

abbrev pub send_index : SendRequestStatus → ℕ
send_index SendRequestStatus.quoted = 0
send_index SendRequestStatus.confirmed = 1
send_index SendRequestStatus.signing = 2
send_index SendRequestStatus.broadcast = 3
send_index SendRequestStatus.completed = 4
send_index SendRequestStatus.failed = 5
send_index SendRequestStatus.cancelled = 6
send_index SendRequestStatus.expired = 7

module _ {S : Type 0} (index : S → ℕ) where
  -- `allowed.includes(to)`.
  abbrev pub includes : List S → S → Bool
  includes [] to = false
  includes (s ∷ allowed) to = index s == index to || includes allowed to

  unfoldable pub can_transition : Transitions S → S → S → Bool
  can_transition machine from to = includes (machine from) to

  unfoldable pub assert_transition : Transitions S → S → S → Result ErrorCode (Unit {0})
  assert_transition machine from to =
      if index from == index to
      then ok tt
      else if not (can_transition machine from to)
      then err invalid_state_transition
      else ok tt

unfoldable pub is_terminal : {S : Type 0} → Transitions S → S → Bool
is_terminal machine state = length (machine state) == 0

unfoldable pub is_settled : TxStatus → Bool
is_settled status = tx_index status == tx_index TxStatus.confirmed

unfoldable pub is_in_flight : TxStatus → Bool
is_in_flight status =
    tx_index status == tx_index TxStatus.pending
    || tx_index status == tx_index TxStatus.detected
    || tx_index status == tx_index TxStatus.confirming
