-- ===== src/Engine/Calls/Steps.antt =====
-- The shape of a call: a transaction of the writes of Engine/Writes, or an answer.
use distledger.Base.{Option, none, some, Bool, true, false, length, ltb, if◌then◌else◌}
use distledger.Base.Int.{ℤ}
use distledger.Base.Text.{Text}
use distledger.Engine.Handlers.{
  request_tx-Keeps, approve_tx-Keeps, reject_tx-Keeps, failure_tx-Keeps, settle_payout_tx-Keeps,
  freeze_tx-Keeps, unfreeze_tx-Keeps, void_tx-Keeps, maintain_tx-Keeps,
}
use distledger.Engine.Handlers.Orders.{paid_tx-Keeps}
use distledger.Engine.Handlers.Refunds.{received_tx-Keeps, refunded_tx-Keeps}
use distledger.Engine.Handlers.Agents.{bind_agent_tx-Keeps, bind_buyer_tx-Keeps}
use distledger.Engine.Accrual.{paid_tx, on_order_paid}
use distledger.Engine.Binding.{
  bind_agent_tx, bind_agent, bind_buyer_tx, bind_buyer, bind_or_find, unless_locked,
}
use distledger.Engine.Binding.Untouched.{Untouched, bind_or_find-Untouched}
use distledger.Agent.{Binding}
use distledger.Engine.Receipt.{received_tx, on_order_received}
use distledger.Engine.Refund.{refunded_tx, on_order_refunded}
use distledger.Events.{
  OrderPaidEvent, OrderReceivedEvent, OrderRefundedEvent, BindAgentRequest, BindBuyerRequest,
  validate_paid, validate_received, validate_refunded,
}
use distledger.Engine.Checks.{
  check_agent, check_buyer, WithdrawRequest, check_request, validate_reason, validate_rejection,
}
use distledger.Engine.Config.{Ledger}
use distledger.Engine.Payout.{
  PayoutChannel, Reply, replied, failed, record_payout_failure, settle_payout, after_reply,
  pay_loaded, pay_withdraw, mark_loaded, mark_withdraw_paid, payable, is_paid_state, payout_request,
}
use distledger.Engine.Risk.{
  freeze_tx, unfreeze_tx, void_tx, freeze_commission, unfreeze_commission, void_commission,
}
use distledger.Engine.Settle.{maintain_tx, maintain_round}
use distledger.Engine.Withdraw.{
  WithdrawDecision, PayoutOutcome, request_tx, approve_tx, reject_tx, failure_tx, settle_payout_tx,
  request_withdraw, approve_withdraw, reject_withdraw,
}
use distledger.Errors.{Err, Result, ok, err}
use distledger.Keys.{max_remark_len}
use distledger.Memory.Store.{Ctx, Store, update}
use distledger.Memory.Tx.{Tx}
use distledger.Memory.Tx.Rules.{Kept, Keeps}
use distledger.Engine.Writes.{Writes}
use distledger.Withdrawal.{Withdrawal}
use distledger.Engine.Calls.{
  Call, request, approve, reject, pay, mark_paid, freeze, unfreeze, void, settle, order_paid,
  order_received, order_refunded, bind_to_parent, bind_to_agent, Answer, as_answer, perform,
}

-- The outcome of a call in the store `s`: an answer that leaves the store alone, or a transaction made
-- of the writes that `Writes` names.
pub data Step (l : Ledger) (ctx : Ctx) (s : Store) : (A : Type 0) → Result A × Store → Type 1 where
  same : {A : Type 0} (r : Result A) → Step l ctx s _ (r, s)
  updated :
      {A : Type 0} (body : Tx A)
      → ((P : Kept) (C : Err → Bool) → Writes l P C → Keeps P C body)
      → Step l ctx s _ (update ctx body s)
  bound :
      {o : Result (Binding × Bool) × Store}
      → Step l ctx s _ o
      → Untouched s o
      → Step l ctx s _ (unless_locked o)
  answered :
      {A : Type 0} (f : A → Answer) {o : Result A × Store}
      → Step l ctx s _ o
      → Step l ctx s _ (as_answer f o)

module _ {l : Ledger} {ctx : Ctx} {s : Store} where
  Step-if :
      {A : Type 0} (b : Bool) {o o' : Result A × Store}
      → Step l ctx s _ o
      → Step l ctx s _ o'
      → Step l ctx s _ (if b then o else o')
  Step-if true h h' = h
  Step-if false h h' = h'

  checked-Step :
      {A B : Type 0} (r : Result A) {k : A → Result B × Store}
      → ((a : A) → Step l ctx s _ (k a))
      → Step l ctx s B (elim r [ err e ↦ (err e, s) | ok a ↦ k a ])
  checked-Step (ok a) h = h a
  checked-Step (err e) h = same _

module _ (l : Ledger) (ctx : Ctx) (s : Store) where
  request_withdraw-Step : (req : WithdrawRequest) → Step l ctx s _ (request_withdraw l req ctx s)
  unfolding request_withdraw
  request_withdraw-Step req =
      checked-Step (check_request l req)
        (λ fee. updated (request_tx l req fee) (λ P C w. request_tx-Keeps w req fee))

  approve_withdraw-Step : (req : WithdrawDecision) → Step l ctx s _ (approve_withdraw l req ctx s)
  unfolding approve_withdraw
  approve_withdraw-Step req = updated (approve_tx l req) (λ P C w. approve_tx-Keeps w req)

  reject_withdraw-Step : (req : WithdrawDecision) → Step l ctx s _ (reject_withdraw l req ctx s)
  unfolding reject_withdraw
  reject_withdraw-Step req =
      checked-Step (validate_rejection req.reason)
        (λ u. updated (reject_tx l req) (λ P C w. reject_tx-Keeps w req))

  record_payout_failure-Step :
      (cur : Withdrawal) (reason operator : Text)
      → Step l ctx s _ (record_payout_failure cur reason operator ctx s)
  unfolding record_payout_failure
  record_payout_failure-Step cur reason operator =
      updated (failure_tx cur reason operator) (λ P C w. failure_tx-Keeps w cur reason operator)

  settle_payout-Step :
      (cur : Withdrawal) (invoice operator : Text)
      → Step l ctx s _ (settle_payout l cur invoice operator ctx s)
  unfolding settle_payout
  settle_payout-Step cur invoice operator = Step-if (ltb max_remark_len (length invoice)) (same _) (
      updated (settle_payout_tx l cur invoice operator)
        (λ P C w. settle_payout_tx-Keeps w cur invoice operator))

  after_reply-Step :
      (cur : Withdrawal) (operator : Text) (reply : Reply)
      → Step l ctx s _ (after_reply l cur operator reply ctx s)
  unfolding after_reply
  after_reply-Step cur operator (failed message) = record_payout_failure-Step cur _ operator
  after_reply-Step cur operator (replied r) =
      Step-if r.is_paid (settle_payout-Step cur r.invoice_no operator)
        (record_payout_failure-Step cur _ operator)

  pay_loaded-Step :
      (channel : PayoutChannel) (operator : Text) (r : Result Withdrawal)
      → Step l ctx s _ (pay_loaded l channel operator r ctx s)
  unfolding pay_loaded
  pay_loaded-Step channel operator (err e) = same _
  pay_loaded-Step channel operator (ok cur) =
      Step-if (payable cur.state) (after_reply-Step cur operator (channel (payout_request cur)))
        (same _)

  mark_loaded-Step :
      (req : PayoutOutcome) (r : Result Withdrawal) → Step l ctx s _ (mark_loaded l req r ctx s)
  unfolding mark_loaded
  mark_loaded-Step req (err e) = same _
  mark_loaded-Step req (ok cur) =
      Step-if (is_paid_state cur.state) (same _)
        (Step-if (payable cur.state) (settle_payout-Step cur req.invoice_no req.operator) (same _))

  pay_withdraw-Step :
      (channel : Option PayoutChannel) (req : PayoutOutcome) (before : Ctx)
      → Step l ctx s _ (pay_withdraw l channel req before ctx s)
  unfolding pay_withdraw
  pay_withdraw-Step none req before = same _
  pay_withdraw-Step (some channel) req before = pay_loaded-Step channel req.operator _

  mark_withdraw_paid-Step :
      (req : PayoutOutcome) (before : Ctx) → Step l ctx s _ (mark_withdraw_paid l req before ctx s)
  unfolding mark_withdraw_paid
  mark_withdraw_paid-Step req before =
      Step-if (ltb max_remark_len (length req.invoice_no)) (same _) (mark_loaded-Step req _)

  freeze_commission-Step :
      (tenant_id id : ℤ) (reason : Text)
      → Step l ctx s _ (freeze_commission tenant_id id reason ctx s)
  unfolding freeze_commission
  freeze_commission-Step tenant_id id reason =
      checked-Step (validate_reason reason)
        (λ u. updated (freeze_tx tenant_id id) (λ P C w. freeze_tx-Keeps w tenant_id id))

  unfreeze_commission-Step :
      (tenant_id id : ℤ) (reason : Text)
      → Step l ctx s _ (unfreeze_commission tenant_id id reason ctx s)
  unfolding unfreeze_commission
  unfreeze_commission-Step tenant_id id reason =
      checked-Step (validate_reason reason)
        (λ u. updated (unfreeze_tx tenant_id id) (λ P C w. unfreeze_tx-Keeps w tenant_id id))

  void_commission-Step :
      (tenant_id id : ℤ) (reason : Text)
      → Step l ctx s _ (void_commission l tenant_id id reason ctx s)
  unfolding void_commission
  void_commission-Step tenant_id id reason =
      checked-Step (validate_reason reason)
        (λ u. updated (void_tx l tenant_id id) (λ P C w. void_tx-Keeps w tenant_id id))

  pub maintain_round-Step :
      (tenant_id limit : ℤ) → Step l ctx s _ (maintain_round tenant_id l.now limit ctx s)
  unfolding maintain_round
  maintain_round-Step tenant_id limit =
      updated (maintain_tx tenant_id l.now limit)
        (λ P C w. maintain_tx-Keeps w tenant_id l.now limit)

  on_order_paid-Step : (ev : OrderPaidEvent) → Step l ctx s _ (on_order_paid l ev ctx s)
  unfolding on_order_paid
  on_order_paid-Step ev =
      checked-Step (validate_paid ev) (λ u. updated (paid_tx l ev) (λ P C w. paid_tx-Keeps w ev))

  on_order_received-Step : (ev : OrderReceivedEvent) → Step l ctx s _ (on_order_received l ev ctx s)
  unfolding on_order_received
  on_order_received-Step ev =
      checked-Step (validate_received ev)
        (λ u. updated (received_tx l ev) (λ P C w. received_tx-Keeps w ev))

  on_order_refunded-Step : (ev : OrderRefundedEvent) → Step l ctx s _ (on_order_refunded l ev ctx s)
  unfolding on_order_refunded
  on_order_refunded-Step ev =
      checked-Step (validate_refunded ev)
        (λ u. updated (refunded_tx l ev) (λ P C w. refunded_tx-Keeps w ev))

  bind_agent-Step : (req : BindAgentRequest) → Step l ctx s _ (bind_agent l req ctx s)
  unfolding bind_agent
  bind_agent-Step req =
      checked-Step (check_agent req)
        (λ u. updated (bind_agent_tx l req) (λ P C w. bind_agent_tx-Keeps w req))

  bind_or_find-Step : (req : BindBuyerRequest) → Step l ctx s _ (bind_or_find l req ctx s)
  unfolding bind_or_find
  bind_or_find-Step req =
      checked-Step (check_buyer req)
        (λ u. updated (bind_buyer_tx l req _) (λ P C w. bind_buyer_tx-Keeps w req _))

  bind_buyer-Step : (req : BindBuyerRequest) → Step l ctx s _ (bind_buyer l req ctx s)
  unfolding bind_buyer
  bind_buyer-Step req = bound (bind_or_find-Step req) (bind_or_find-Untouched l req ctx s)

  pub perform-Step :
      (channel : Option PayoutChannel) (c : Call) → Step l ctx s _ (perform l channel c ctx s)
  unfolding perform
  perform-Step channel (request req) = answered _ (request_withdraw-Step req)
  perform-Step channel (approve req) = answered _ (approve_withdraw-Step req)
  perform-Step channel (reject req) = answered _ (reject_withdraw-Step req)
  perform-Step channel (pay req before) = answered _ (pay_withdraw-Step channel req before)
  perform-Step channel (mark_paid req before) = answered _ (mark_withdraw_paid-Step req before)
  perform-Step channel (freeze tenant_id id reason) =
      answered _ (freeze_commission-Step tenant_id id reason)
  perform-Step channel (unfreeze tenant_id id reason) =
      answered _ (unfreeze_commission-Step tenant_id id reason)
  perform-Step channel (void tenant_id id reason) =
      answered _ (void_commission-Step tenant_id id reason)
  perform-Step channel (settle tenant_id limit) = answered _ (maintain_round-Step tenant_id limit)
  perform-Step channel (order_paid ev) = answered _ (on_order_paid-Step ev)
  perform-Step channel (order_received ev) = answered _ (on_order_received-Step ev)
  perform-Step channel (order_refunded ev) = answered _ (on_order_refunded-Step ev)
  perform-Step channel (bind_to_parent req) = answered _ (bind_agent-Step req)
  perform-Step channel (bind_to_agent req) = answered _ (bind_buyer-Step req)
