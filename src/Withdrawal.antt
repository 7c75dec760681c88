-- ===== src/Withdrawal.antt =====
-- withdraw.go: withdrawals, their validation and the table of legal transitions.
pub mod Transitions
use distledger.Base.{
  ℕ, ◌+◌, ◌≡◌, ◌↔◌, arith, Bool, true, false, not, ◌&&◌, ◌||◌, List, [], ◌∷◌, eqb, if◌then◌else◌,
}
use distledger.Base.Int.{ℤ, pos, ltb_ℤ, leb_ℤ, ◌==ℤ◌}
use distledger.Base.Text.{Text}
use distledger.Word.{sub64}
use distledger.Clock.{Time, is_zero}
use distledger.Errors.{field_error, Result, ok, err, ◌>>◌, fail_if}
use distledger.Keys.{UserKey, validate_user_key, is_empty}
use distledger.Money.{Money}

-- A `uint8`: `unknown n` is n + 5.
pub data WithdrawalState : Type 0 where
  applied approved rejected pay_failed paid : WithdrawalState
  unknown : ℕ → WithdrawalState

abbrev pub state_code : WithdrawalState → ℕ
state_code applied = 0
state_code approved = 1
state_code rejected = 2
state_code pay_failed = 3
state_code paid = 4
state_code (unknown n) = n + 5

-- `==` on states
abbrev pub same_state : WithdrawalState → WithdrawalState → Bool
same_state a b = eqb (state_code a) (state_code b)

pub same_state_iff : (a b : WithdrawalState) → (same_state a b ≡ true) ↔ (a ≡ b)
same_state_iff a b = ground arith

-- `WithdrawalState.Valid`
abbrev pub withdrawal_state_valid : WithdrawalState → Bool
withdrawal_state_valid (unknown n) = false
withdrawal_state_valid _ = true

-- `WithdrawalState.Terminal`
unfoldable pub withdrawal_terminal : WithdrawalState → Bool
withdrawal_terminal rejected = true
withdrawal_terminal paid = true
withdrawal_terminal _ = false

-- `WithdrawalState.Reserved`
unfoldable pub reserved : WithdrawalState → Bool
reserved applied = true
reserved approved = true
reserved pay_failed = true
reserved _ = false

-- `withdrawalTransitions`
abbrev withdrawal_transitions : WithdrawalState → List WithdrawalState
withdrawal_transitions applied = approved ∷ rejected ∷ []
withdrawal_transitions approved = paid ∷ pay_failed ∷ []
withdrawal_transitions pay_failed = paid ∷ rejected ∷ []
withdrawal_transitions _ = []

-- The loop of `CanTransitionWithdrawal`.
abbrev listed : WithdrawalState → List WithdrawalState → Bool
listed to [] = false
listed to (allowed ∷ rest) = same_state allowed to || listed to rest

unfoldable pub can_transition_withdrawal : WithdrawalState → WithdrawalState → Bool
can_transition_withdrawal from to =
    if not (withdrawal_state_valid from) || not (withdrawal_state_valid to)
    then false
    else listed to (withdrawal_transitions from)

pub record Withdrawal : Type 0 where
  pub id : ℤ
  pub key : UserKey
  pub idem_key : Text
  pub amount : Money
  pub fee : Money
  pub real_amount : Money
  pub channel : Text
  pub account_info : Text
  pub state : WithdrawalState
  pub fail_reason : Text
  pub tax_amount : Money
  pub invoice_no : Text
  pub operator : Text
  pub applied_at : Time
  pub audited_at : Time
  pub paid_at : Time
  pub version : ℤ

-- `Withdrawal.Validate`
unfoldable pub validate_withdrawal : Withdrawal → Result (Unit {0})
validate_withdrawal w =
    validate_user_key w.key
    >> fail_if (leb_ℤ w.amount (pos 0)) (field_error "amount")
    >> fail_if (ltb_ℤ w.fee (pos 0)) (field_error "fee")
    >> fail_if (leb_ℤ w.amount w.fee) (field_error "fee")
    >> fail_if (not (w.real_amount ==ℤ sub64 w.amount w.fee)) (field_error "real_amount")
    >> fail_if (not (withdrawal_state_valid w.state)) (field_error "state")
    >> fail_if (same_state w.state paid && is_zero w.paid_at) (field_error "paid_at")
    >> fail_if (not (same_state w.state paid) && not (is_zero w.paid_at)) (field_error "paid_at")
    >> fail_if (is_empty w.idem_key) (field_error "idem_key")

-- `Withdrawal.Outstanding`
unfoldable pub outstanding : Withdrawal → Money
outstanding w = if reserved w.state then w.amount else pos 0
