-- ===== src/Engine/Handlers.antt =====
-- The handlers' transactions over the interface Engine/Writes.
pub mod Orders
pub mod Refunds
pub mod Agents
use distledger.Base.{◌≡◌, refl, true, Bool, arith, List, [], ◌∷◌}
use distledger.Base.Int.{ℤ, pos, ltb_ℤ}
use distledger.Base.Text.{Text}
use distledger.Account.{AccountDelta, Bucket, LedgerBizType, LedgerEntry}
use distledger.Agent.{Agent, Binding}
use distledger.Clock.{Time}
use distledger.Commission.{Commission, CommissionState, Refund}
use distledger.Engine.Accrual.{credit_accrual}
use distledger.Engine.Checks.{WithdrawRequest}
use distledger.Engine.Clawback.{Reversal, skipped, step, debit_bucket, claw_back}
use distledger.Engine.Config.{Ledger}
use distledger.Engine.Movement.{move}
use distledger.Engine.Movement.Transfer.{IsTransfer, transfer_rules}
use distledger.Errors.{Err, is_handled, is_not_found, is_duplicate, is_conflict}
use distledger.Memory.Tx.{Tx, recover}
use distledger.Engine.Writes.{Writes}
use distledger.Engine.Risk.{load_scoped_commission, freeze_tx, unfreeze_tx, void_step, void_tx}
use distledger.Engine.Settle.{Round, settle_one, settle_due, settle_batch, maintain_tx}
use distledger.Engine.Withdraw.{
  WithdrawDecision, apply_withdrawal, append_or_replay, request_tx, load_scoped_withdrawal,
  approve_tx, release_reservation, reject_tx, failure_tx, pay_tx, settle_payout_tx,
}
use distledger.Keys.{UserKey}
use distledger.Memory.Atomic.{read_rules}
use distledger.Memory.Tx.Rules.{Kept, Keeps, Keeps-recover}
use distledger.Money.{Money}
use distledger.Withdrawal.{Withdrawal, WithdrawalState}
use distledger.Memory.Writer.{
  increment_account, append_commission, set_commission_reversed_amount, transition_commission,
  append_ledger, set_commission_available_at, append_refund, put_agent, put_binding,
}
use distledger.Memory.Writer.Withdrawals.{
  WithdrawalTransition, append_withdrawal, transition_withdrawal,
}

not_found-is_handled : (e : Err) → is_not_found e ≡ true → is_handled e ≡ true
not_found-is_handled e h = ground arith

duplicate-is_handled : (e : Err) → is_duplicate e ≡ true → is_handled e ≡ true
duplicate-is_handled e h = ground arith

conflict-is_handled : (e : Err) → is_conflict e ≡ true → is_handled e ≡ true
conflict-is_handled e h = ground arith

-- What is kept after the errors that a handler catches is kept through the catch.
module _ {l : Ledger} {P : Kept} {C : Err → Bool} (w : Writes l P C) {A : Type 0} where
  Keeps-handled :
      (caught : Err → Bool) (m : Tx A) (handler : Err → Tx A)
      → ((e : Err) → caught e ≡ true → is_handled e ≡ true)
      → Keeps P C m
      → ((e : Err) → Keeps P C (handler e))
      → Keeps P C (recover caught m handler)
  Keeps-handled caught m handler sub km kh =
      Keeps-recover caught m handler km (λ e h. w.handled e (sub e h)) (λ e h. h) kh

  Keeps-recover_not_found :
      (m : Tx A) (handler : Err → Tx A)
      → Keeps P C m
      → ((e : Err) → Keeps P C (handler e))
      → Keeps P C (recover is_not_found m handler)
  Keeps-recover_not_found m handler = Keeps-handled is_not_found m handler not_found-is_handled

  Keeps-recover_duplicate :
      (m : Tx A) (handler : Err → Tx A)
      → Keeps P C m
      → ((e : Err) → Keeps P C (handler e))
      → Keeps P C (recover is_duplicate m handler)
  Keeps-recover_duplicate m handler = Keeps-handled is_duplicate m handler duplicate-is_handled

  Keeps-recover_conflict :
      (m : Tx A) (handler : Err → Tx A)
      → Keeps P C m
      → ((e : Err) → Keeps P C (handler e))
      → Keeps P C (recover is_conflict m handler)
  Keeps-recover_conflict m handler = Keeps-handled is_conflict m handler conflict-is_handled

-- The writes of the interface as rules.
module _ {l : Ledger} {P : Kept} {C : Err → Bool} (w : Writes l P C) where
  Keeps-append_commission : (c : Commission) → Keeps P C (append_commission c)
  Keeps-append_commission = w.appended

  Keeps-set_commission_reversed_amount :
      (id : ℤ) (amount : Money) (version : ℤ)
      → Keeps P C (set_commission_reversed_amount id amount version)
  Keeps-set_commission_reversed_amount = w.reversed

  Keeps-transition_commission :
      (id : ℤ) (from to : CommissionState) (version : ℤ)
      → Keeps P C (transition_commission id from to version)
  Keeps-transition_commission = w.transitioned

  Keeps-append_withdrawal : (row : Withdrawal) → Keeps P C (append_withdrawal row)
  Keeps-append_withdrawal = w.requested

  Keeps-transition_withdrawal :
      (id : ℤ) (from to : WithdrawalState) (version : ℤ) (change : WithdrawalTransition)
      → Keeps P C (transition_withdrawal id from to version change)
  Keeps-transition_withdrawal = w.decided

  Keeps-move :
      (delta : AccountDelta) (biz_type : LedgerBizType) (biz_id remark : Text) (from : Bucket)
      (debit : Money) (to : Bucket) (credit : Money)
      → delta.require_non_negative ≡ true
      → IsTransfer delta from debit to credit
      → Keeps P C (move delta biz_type biz_id remark from debit to credit)
  Keeps-move = w.moved

  Keeps-debit_bucket :
      (original : Commission) (bucket : Bucket) (delta : Money) (reason : Text) (reversal_id : ℤ)
      (target original_amount : Money) (at : Time)
      → Keeps P C
          (debit_bucket l original bucket delta reason reversal_id target original_amount at)
  Keeps-debit_bucket = w.debited

  Keeps-credit_accrual :
      (c : Commission) (now : Time)
      → ltb_ℤ (pos 0) c.amount ≡ true
      → Keeps P C (credit_accrual c now)
  Keeps-credit_accrual = w.credited

  Keeps-set_commission_available_at :
      (id : ℤ) (at : Time) (version : ℤ) → Keeps P C (set_commission_available_at id at version)
  Keeps-set_commission_available_at = w.dated

  Keeps-append_refund : (r : Refund) → Keeps P C (append_refund r)
  Keeps-append_refund = w.refunded

  Keeps-put_agent : (a : Agent) → Keeps P C (put_agent a)
  Keeps-put_agent = w.enrolled

  Keeps-put_binding : (b : Binding) → Keeps P C (put_binding b)
  Keeps-put_binding = w.attributed

ruleset write_rules = (
  read_rules, transfer_rules, Keeps-recover_not_found, Keeps-recover_duplicate,
  Keeps-recover_conflict, Keeps-append_commission, Keeps-set_commission_reversed_amount,
  Keeps-transition_commission, Keeps-append_withdrawal, Keeps-transition_withdrawal, Keeps-move,
  Keeps-debit_bucket, Keeps-set_commission_available_at, Keeps-append_refund, Keeps-put_agent,
  Keeps-put_binding,
)

ruleset handler_rules = (write_rules, refl)

module _ {l : Ledger} {P : Kept} {C : Err → Bool} (w : Writes l P C) where
  load_scoped_withdrawal-Keeps :
      (tenant_id id : ℤ) → Keeps P C (load_scoped_withdrawal tenant_id id)
  unfolding load_scoped_withdrawal
  load_scoped_withdrawal-Keeps tenant_id id = search handler_rules depth 40

  apply_withdrawal-Keeps :
      (req : WithdrawRequest) (fee : Money) (saved : Withdrawal)
      → Keeps P C (apply_withdrawal l req fee saved)
  unfolding apply_withdrawal
  apply_withdrawal-Keeps req fee saved = search handler_rules depth 40

  append_or_replay-Keeps :
      (req : WithdrawRequest) (fee : Money) → Keeps P C (append_or_replay l req fee)
  unfolding append_or_replay
  append_or_replay-Keeps req fee = search (handler_rules, apply_withdrawal-Keeps) depth 40

  pub request_tx-Keeps : (req : WithdrawRequest) (fee : Money) → Keeps P C (request_tx l req fee)
  unfolding request_tx
  request_tx-Keeps req fee = search (handler_rules, append_or_replay-Keeps) depth 40

  pub approve_tx-Keeps : (req : WithdrawDecision) → Keeps P C (approve_tx l req)
  unfolding approve_tx
  approve_tx-Keeps req = search (handler_rules, load_scoped_withdrawal-Keeps) depth 40

  release_reservation-Keeps :
      (row : Withdrawal) (biz_type : LedgerBizType) (reason : Text) (at : Time)
      → Keeps P C (release_reservation row biz_type reason at)
  unfolding release_reservation
  release_reservation-Keeps row biz_type reason at = search handler_rules depth 40

  pub reject_tx-Keeps : (req : WithdrawDecision) → Keeps P C (reject_tx l req)
  unfolding reject_tx
  reject_tx-Keeps req =
      search (handler_rules, load_scoped_withdrawal-Keeps, release_reservation-Keeps) depth 40

  pub failure_tx-Keeps :
      (cur : Withdrawal) (reason operator : Text) → Keeps P C (failure_tx cur reason operator)
  unfolding failure_tx
  failure_tx-Keeps cur reason operator = search handler_rules depth 40

  pay_tx-Keeps :
      (live : Withdrawal) (invoice operator : Text) → Keeps P C (pay_tx l live invoice operator)
  unfolding pay_tx
  pay_tx-Keeps live invoice operator = search handler_rules depth 40

  pub settle_payout_tx-Keeps :
      (cur : Withdrawal) (invoice operator : Text)
      → Keeps P C (settle_payout_tx l cur invoice operator)
  unfolding settle_payout_tx
  settle_payout_tx-Keeps cur invoice operator = search (handler_rules, pay_tx-Keeps) depth 40

  load_scoped_commission-Keeps :
      (tenant_id id : ℤ) → Keeps P C (load_scoped_commission tenant_id id)
  unfolding load_scoped_commission
  load_scoped_commission-Keeps tenant_id id = search handler_rules depth 40

  pub freeze_tx-Keeps : (tenant_id id : ℤ) → Keeps P C (freeze_tx tenant_id id)
  unfolding freeze_tx
  freeze_tx-Keeps tenant_id id = search (handler_rules, load_scoped_commission-Keeps) depth 40

  pub unfreeze_tx-Keeps : (tenant_id id : ℤ) → Keeps P C (unfreeze_tx tenant_id id)
  unfolding unfreeze_tx
  unfreeze_tx-Keeps tenant_id id = search (handler_rules, load_scoped_commission-Keeps) depth 40

  claw_back-Keeps :
      (original : Commission) (delta target : Money) (terminal : CommissionState) (reason : Text)
      (at : Time)
      → Keeps P C (claw_back l original delta target terminal reason at)
  unfolding claw_back
  claw_back-Keeps original delta target terminal reason at = search handler_rules depth 40

  void_step-Keeps : (cur : Commission) (r : Reversal) → Keeps P C (void_step l cur r)
  unfolding void_step
  void_step-Keeps cur skipped = search handler_rules depth 40
  void_step-Keeps cur (step delta target) = search (handler_rules, claw_back-Keeps) depth 40

  pub void_tx-Keeps : (tenant_id id : ℤ) → Keeps P C (void_tx l tenant_id id)
  unfolding void_tx
  void_tx-Keeps tenant_id id =
      search (handler_rules, load_scoped_commission-Keeps, void_step-Keeps) depth 40

  settle_one-Keeps :
      (c : Commission) (outstanding : Money) (now : Time) → Keeps P C (settle_one c outstanding now)
  unfolding settle_one
  settle_one-Keeps c outstanding now = search handler_rules depth 40

  settle_due-Keeps : (now : Time) (c : Commission) (r : Round) → Keeps P C (settle_due now c r)
  unfolding settle_due
  settle_due-Keeps now c r = search (handler_rules, settle_one-Keeps) depth 40

  settle_batch-Keeps :
      (now : Time) (cs : List Commission) (r : Round) → Keeps P C (settle_batch now cs r)
  unfolding settle_batch
  settle_batch-Keeps now [] r = search handler_rules depth 40
  settle_batch-Keeps now (c ∷ cs) r =
      let rest : (r : Round) → Keeps P C (settle_batch now cs r) =
        λ r. settle_batch-Keeps now cs r in
      search (handler_rules, settle_due-Keeps) depth 40

  pub maintain_tx-Keeps :
      (tenant_id : ℤ) (now : Time) (limit : ℤ) → Keeps P C (maintain_tx tenant_id now limit)
  unfolding maintain_tx
  maintain_tx-Keeps tenant_id now limit = search (handler_rules, settle_batch-Keeps) depth 40
