-- ===== src/Engine/Calls.antt =====
-- The calls of a `Ledger` that write, as one type, so that a property of all of them is one theorem.
pub mod Steps
pub mod Unchanged
pub mod Covered
pub mod Balanced
use distledger.Base.{
  Option, none, some, ℕ, ◌≡◌, refl, Bool, true, false, arith, length, ltb, if◌then◌else◌,
}
use distledger.Base.Int.{ℤ}
use distledger.Base.Text.{Text}
use distledger.Agent.{Agent, Binding}
use distledger.Commission.{Commission}
use distledger.Engine.Accrual.{on_order_paid}
use distledger.Engine.Binding.{bind_agent, bind_buyer}
use distledger.Engine.Receipt.{on_order_received}
use distledger.Engine.Refund.{on_order_refunded}
use distledger.Engine.Checks.{WithdrawRequest, check_request, validate_reason, validate_rejection}
use distledger.Engine.Config.{Ledger}
use distledger.Engine.Payout.{
  PayoutChannel, Reply, replied, failed, PayoutResult, record_payout_failure, settle_payout,
  after_reply, pay_loaded, pay_withdraw, mark_loaded, mark_withdraw_paid, payable, is_paid_state,
  payout_request,
}
use distledger.Engine.Risk.{
  freeze_tx, unfreeze_tx, void_tx, freeze_commission, unfreeze_commission, void_commission,
}
use distledger.Engine.Settle.{Round, maintain_tx, maintain_round}
use distledger.Engine.Withdraw.{
  WithdrawDecision, PayoutOutcome, request_tx, approve_tx, reject_tx, failure_tx, settle_payout_tx,
  request_withdraw, approve_withdraw, reject_withdraw,
}
use distledger.Errors.{Err, Result, ok, err, field_error}
use distledger.Events.{
  OrderPaidEvent, OrderReceivedEvent, OrderRefundedEvent, AccrueResult, ReceiveResult, RefundResult,
  BindAgentRequest, BindBuyerRequest,
}
use distledger.Keys.{max_remark_len}
use distledger.Memory.Rollback.{Tracks}
use distledger.Memory.Store.{Ctx, Store, update, update_failed}
use distledger.Memory.Tx.{Tx}
use distledger.Memory.Tx.Rules.{Keeps, any_error}
use distledger.Withdrawal.{Withdrawal}

-- The context that `pay` and `mark_paid` carry is what it is to their first transaction, which reads.
pub data Call : Type 0 where
  request : WithdrawRequest → Call
  approve : WithdrawDecision → Call
  reject : WithdrawDecision → Call
  pay : PayoutOutcome → Ctx → Call
  mark_paid : PayoutOutcome → Ctx → Call
  freeze : ℤ → ℤ → Text → Call
  unfreeze : ℤ → ℤ → Text → Call
  void : ℤ → ℤ → Text → Call
  settle : ℤ → ℤ → Call
  order_paid : OrderPaidEvent → Call
  order_received : OrderReceivedEvent → Call
  order_refunded : OrderRefundedEvent → Call
  bind_to_parent : BindAgentRequest → Call
  bind_to_agent : BindBuyerRequest → Call

pub data Answer : Type 0 where
  withdrawal : Withdrawal → Answer
  request_answer : Withdrawal → Bool → Answer
  commission : Commission → Answer
  settled : Round → Answer
  accrued : AccrueResult → Answer
  received : ReceiveResult → Answer
  refunded : RefundResult → Answer
  agent : Agent → Answer
  attributed : Binding → Answer

abbrev pub as_answer : {A : Type 0} → (A → Answer) → Result A × Store → Result Answer × Store
as_answer f (ok a, s) = (ok (f a), s)
as_answer f (err e, s) = (err e, s)

-- A call, with the answer of its method.
unfoldable pub perform : Ledger → Option PayoutChannel → Call → Ctx → Store → Result Answer × Store
perform l channel (request req) ctx s =
    as_answer (λ (w, existed). request_answer w existed) (request_withdraw l req ctx s)
perform l channel (approve req) ctx s = as_answer withdrawal (approve_withdraw l req ctx s)
perform l channel (reject req) ctx s = as_answer withdrawal (reject_withdraw l req ctx s)
perform l channel (pay req before) ctx s =
    as_answer withdrawal (pay_withdraw l channel req before ctx s)
perform l channel (mark_paid req before) ctx s =
    as_answer withdrawal (mark_withdraw_paid l req before ctx s)
perform l channel (freeze tenant_id id reason) ctx s =
    as_answer commission (freeze_commission tenant_id id reason ctx s)
perform l channel (unfreeze tenant_id id reason) ctx s =
    as_answer commission (unfreeze_commission tenant_id id reason ctx s)
perform l channel (void tenant_id id reason) ctx s =
    as_answer commission (void_commission l tenant_id id reason ctx s)
perform l channel (settle tenant_id limit) ctx s =
    as_answer settled (maintain_round tenant_id l.now limit ctx s)
perform l channel (order_paid ev) ctx s = as_answer accrued (on_order_paid l ev ctx s)
perform l channel (order_received ev) ctx s = as_answer received (on_order_received l ev ctx s)
perform l channel (order_refunded ev) ctx s = as_answer refunded (on_order_refunded l ev ctx s)
perform l channel (bind_to_parent req) ctx s = as_answer agent (bind_agent l req ctx s)
perform l channel (bind_to_agent req) ctx s = as_answer attributed (bind_buyer l req ctx s)
