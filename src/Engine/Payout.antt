-- ===== src/Engine/Payout.antt =====
-- payout.go: paying an approved withdrawal, through a channel or by hand. The channel is a parameter:
-- what it answers to each request.
use distledger.Base.{Option, none, some, Bool, true, false, [], length, ltb, ◌++◌, if◌then◌else◌}
use distledger.Base.Int.{ℤ}
use distledger.Base.Text.{Text, text}
use distledger.Engine.Config.{Ledger}
use distledger.Engine.Withdraw.{PayoutOutcome, load_scoped_withdrawal, failure_tx, settle_payout_tx}
use distledger.Errors.{no_payout_channel, Result, ok, err, field_error, transition_error}
use distledger.Keys.{is_empty, max_remark_len}
use distledger.Memory.Store.{Ctx, Store, update, view}
use distledger.Money.{Money}
use distledger.Withdrawal.{Withdrawal, WithdrawalState, approved, pay_failed, paid}

pub record PayoutRequest : Type 0 where
  pub idem_key : Text
  pub tenant_id : ℤ
  pub user_id : ℤ
  pub amount : Money
  pub account_info : Text
  pub withdrawal_id : ℤ

pub record PayoutResult : Type 0 where
  pub is_paid : Bool
  pub invoice_no : Text
  pub fail_reason : Text

-- `(PayoutResult, error)`, the error as its text.
pub data Reply : Type 0 where
  replied : PayoutResult → Reply
  failed : Text → Reply

abbrev pub PayoutChannel : Type 0
PayoutChannel = PayoutRequest → Reply

-- `ManualChannel`
abbrev pub manual_channel : PayoutChannel
manual_channel req = replied (record { is_paid = true; invoice_no = []; fail_reason = [] })

-- `recordPayoutFailure`
unfoldable pub record_payout_failure :
    Withdrawal → Text → Text → Ctx → Store → Result Withdrawal × Store
record_payout_failure cur reason operator ctx s = update ctx (failure_tx cur reason operator) s

-- `settlePayout`
unfoldable pub settle_payout :
    Ledger → Withdrawal → Text → Text → Ctx → Store → Result Withdrawal × Store
settle_payout l cur invoice operator ctx s =
    if ltb max_remark_len (length invoice)
    then (err (field_error "invoice_no"), s)
    else update ctx (settle_payout_tx l cur invoice operator) s

-- States that `PayWithdraw` and `MarkWithdrawPaid` pay from.
abbrev pub payable : WithdrawalState → Bool
payable approved = true
payable pay_failed = true
payable _ = false

abbrev pub is_paid_state : WithdrawalState → Bool
is_paid_state paid = true
is_paid_state _ = false

abbrev pub payout_request : Withdrawal → PayoutRequest
payout_request cur = record {
  idem_key = cur.idem_key;
  tenant_id = cur.key.tenant_id;
  user_id = cur.key.user_id;
  amount = cur.real_amount;
  account_info = cur.account_info;
  withdrawal_id = cur.id;
}

-- The reason that is recorded for a refusal.
abbrev reason_or_default : Text → Text
reason_or_default reason =
    if is_empty reason then text "channel reported failure without a reason" else reason

-- `PayWithdraw`, once the channel has answered.
unfoldable pub after_reply :
    Ledger → Withdrawal → Text → Reply → Ctx → Store → Result Withdrawal × Store
after_reply l cur operator (failed message) ctx s =
    record_payout_failure cur (text "channel error: " ++ message) operator ctx s
after_reply l cur operator (replied r) ctx s =
    if r.is_paid
    then settle_payout l cur r.invoice_no operator ctx s
    else record_payout_failure cur (reason_or_default r.fail_reason) operator ctx s

-- What follows the load in `PayWithdraw`.
unfoldable pub pay_loaded :
    Ledger → PayoutChannel → Text → Result Withdrawal → Ctx → Store → Result Withdrawal × Store
unfolding after_reply settle_payout record_payout_failure
pay_loaded l channel operator (err e) ctx s = (err e, s)
pay_loaded l channel operator (ok cur) ctx s =
    if payable cur.state
    then after_reply l cur operator (channel (payout_request cur)) ctx s
    else (err (transition_error "withdrawal pay"), s)

-- `PayWithdraw`: two transactions with the call of the channel between them, which leaves the store
-- alone. The context may report something else to each: `before` is what it is to the first one. A
-- ledger may have no channel.
unfoldable pub pay_withdraw :
    Ledger → Option PayoutChannel → PayoutOutcome → Ctx → Ctx → Store → Result Withdrawal × Store
unfolding pay_loaded
pay_withdraw l none req before ctx s = (err no_payout_channel, s)
pay_withdraw l (some channel) req before ctx s =
    pay_loaded l channel req.operator
      (view before (load_scoped_withdrawal req.tenant_id req.withdrawal_id) s).0 ctx s

-- What follows the load in `MarkWithdrawPaid`.
unfoldable pub mark_loaded :
    Ledger → PayoutOutcome → Result Withdrawal → Ctx → Store → Result Withdrawal × Store
unfolding settle_payout
mark_loaded l req (err e) ctx s = (err e, s)
mark_loaded l req (ok cur) ctx s =
    if is_paid_state cur.state
    then (ok cur, s)
    else if payable cur.state
    then settle_payout l cur req.invoice_no req.operator ctx s
    else (err (transition_error "withdrawal mark paid"), s)

-- `MarkWithdrawPaid`, with a context for each of its two transactions.
unfoldable pub mark_withdraw_paid :
    Ledger → PayoutOutcome → Ctx → Ctx → Store → Result Withdrawal × Store
unfolding mark_loaded
mark_withdraw_paid l req before ctx s =
    if ltb max_remark_len (length req.invoice_no)
    then (err (field_error "invoice_no"), s)
    else mark_loaded l req
        (view before (load_scoped_withdrawal req.tenant_id req.withdrawal_id) s).0 ctx s
