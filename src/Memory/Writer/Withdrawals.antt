-- ===== src/Memory/Writer/Withdrawals.antt =====
-- store/memory/withdraw.go: the writes of withdrawals.
use distledger.Base.{not, ◌||◌, if◌then◌else◌}
use distledger.Base.Int.{ℤ, pos, ◌+ℤ◌, ◌==ℤ◌}
use distledger.Base.Text.{Text}
use distledger.Clock.{Time, is_zero}
use distledger.Errors.{not_found, duplicate, field_error, conflict_error, transition_error}
use distledger.Keys.{is_empty}
use distledger.Memory.Data.{IdemRef}
use distledger.Memory.Writer.{is_some}
use distledger.Memory.Tx.{
  Tx, pure, lift, gets, raise_if, check_ctx, or_raise, ◌>>=◌, ◌>>◌, set_withdrawal,
  set_withdraw_idem, push_withdrawal_id, fresh_id,
}
use distledger.Withdrawal.{
  Withdrawal, WithdrawalState, same_state, withdrawal_state_valid, can_transition_withdrawal,
  validate_withdrawal,
}

-- `WithdrawalTransition` of store.go.
pub record WithdrawalTransition : Type 0 where
  pub fail_reason : Text
  pub invoice_no : Text
  pub operator : Text
  pub audited_at : Time
  pub paid_at : Time

-- `tx.AppendWithdrawal`
unfoldable pub append_withdrawal : Withdrawal → Tx Withdrawal
append_withdrawal w = do
  check_ctx
  lift (validate_withdrawal w)
  let ref : IdemRef = record { tenant_id = w.key.tenant_id; key = w.idem_key }
  dup ← gets (λ d. d.withdraw_idem ref)
  raise_if (is_some dup) duplicate
  id ← fresh_id
  let w' = record w { id = id }
  set_withdraw_idem ref id
  set_withdrawal id w'
  push_withdrawal_id id
  pure w'

-- A field of the transition that is set replaces the recorded one.
abbrev pub text_or : Text → Text → Text
text_or new old = if is_empty new then old else new

abbrev pub time_or : Time → Time → Time
time_or new old = if is_zero new then old else new

abbrev pub transitioned : Withdrawal → WithdrawalState → WithdrawalTransition → Withdrawal
transitioned w to tr = record w {
  state = to;
  version = w.version +ℤ pos 1;
  fail_reason = text_or tr.fail_reason w.fail_reason;
  invoice_no = text_or tr.invoice_no w.invoice_no;
  operator = text_or tr.operator w.operator;
  audited_at = time_or tr.audited_at w.audited_at;
  paid_at = time_or tr.paid_at w.paid_at;
}

-- `tx.TransitionWithdrawal`
unfoldable pub transition_withdrawal :
    ℤ → WithdrawalState → WithdrawalState → ℤ → WithdrawalTransition → Tx Withdrawal
transition_withdrawal id from to expected_version tr = do
  check_ctx
  raise_if (not (withdrawal_state_valid from) || not (withdrawal_state_valid to))
      (field_error "state")
  w ← or_raise (← gets (λ d. d.withdrawals id)) not_found
  raise_if (not (same_state w.state from)) (conflict_error "withdrawal")
  raise_if (not (w.version ==ℤ expected_version)) (conflict_error "withdrawal")
  raise_if (not (can_transition_withdrawal from to)) (transition_error "withdrawal")
  set_withdrawal id (transitioned w to tr)
  pure (transitioned w to tr)
