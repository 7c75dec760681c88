-- ===== src/Engine/Withdraw.antt =====
-- payout.go: requesting, reviewing and paying out withdrawals.
pub mod Replay
pub mod Queries
pub mod Scoped
use distledger.Base.{
  Bool, true, false, not, ◌||◌, Option, none, some, [], ◌++◌, take, if◌then◌else◌,
}
use distledger.Base.Int.{ℤ, pos, leb_ℤ, ◌==ℤ◌}
use distledger.Base.Text.{Text, text}
use distledger.Account.{
  AccountDelta, LedgerBizType, withdraw_hold, withdraw_paid, withdraw_refund, bucket_available,
  bucket_withdrawing, bucket_withdrawn,
}
use distledger.Clock.{Time, zero_time, is_zero}
use distledger.Engine.Checks.{
  WithdrawRequest, check_request, check_scope, validate_rejection, channel_or_manual,
  max_reason_len,
}
use distledger.Engine.Config.{Ledger}
use distledger.Engine.Movement.{move}
use distledger.Errors.{
  Result, ok, err, is_not_found, is_duplicate, not_found, transition_error, other_error,
}
use distledger.Idem.{i64s, withdraw_idem_key}
use distledger.Keys.{UserKey}
use distledger.Memory.Reader.{withdrawal_by_id, withdrawal_by_idem_key}
use distledger.Memory.Store.{Ctx, Store, update}
use distledger.Memory.Tx.{Tx, Done, pure, lift, raise_if, recover, if_some, ◌>>=◌, ◌>>◌}
use distledger.Memory.Writer.Withdrawals.{
  WithdrawalTransition, append_withdrawal, transition_withdrawal,
}
use distledger.Money.{Money}
use distledger.Money.Print.{money_text}
use distledger.Withdrawal.{
  Withdrawal, applied, approved, rejected, pay_failed, paid, reserved, outstanding, same_state,
}
use distledger.Word.{sub64, neg64}

pub record WithdrawDecision : Type 0 where
  pub tenant_id : ℤ
  pub withdrawal_id : ℤ
  pub operator : Text
  pub reason : Text

-- No method reads `fail_reason`.
pub record PayoutOutcome : Type 0 where
  pub tenant_id : ℤ
  pub withdrawal_id : ℤ
  pub operator : Text
  pub invoice_no : Text
  pub fail_reason : Text

-- The delta of a movement between buckets: no gross total changes, and no bucket may go negative.
abbrev pub guarded_delta : UserKey → Money → Money → Money → Time → AccountDelta
guarded_delta key available withdrawing withdrawn at = record {
  key = key;
  frozen = pos 0;
  available = available;
  withdrawing = withdrawing;
  withdrawn = withdrawn;
  total_earned = pos 0;
  total_reversed = pos 0;
  at = at;
  require_non_negative = true;
}

abbrev no_change : WithdrawalTransition
no_change = record {
  fail_reason = [];
  invoice_no = [];
  operator = [];
  audited_at = zero_time;
  paid_at = zero_time;
}

-- The withdrawal that `RequestWithdraw` builds.
abbrev new_withdrawal : Ledger → WithdrawRequest → Money → Withdrawal
new_withdrawal l req fee = record {
  id = pos 0;
  key = record { tenant_id = req.tenant_id; user_id = req.user_id };
  idem_key = withdraw_idem_key l.digest req.tenant_id req.idem_key;
  amount = req.amount;
  fee = fee;
  real_amount = sub64 req.amount fee;
  channel = channel_or_manual req.channel;
  account_info = req.account_info;
  state = applied;
  fail_reason = [];
  tax_amount = pos 0;
  invoice_no = [];
  operator = [];
  applied_at = l.now;
  audited_at = zero_time;
  paid_at = zero_time;
  version = pos 0;
}

-- A new request: the row, the reservation and its entry.
unfoldable pub apply_withdrawal :
    Ledger → WithdrawRequest → Money → Withdrawal → Tx (Withdrawal × Bool)
apply_withdrawal l req fee saved = do
  move (guarded_delta saved.key (neg64 req.amount) req.amount (pos 0) l.now) withdraw_hold
      (i64s saved.id)
      (text "withdraw request "
        ++ (i64s saved.id
            ++ (text " hold " ++ (money_text req.amount ++ (text " fee " ++ money_text fee)))))
      bucket_available (neg64 req.amount) bucket_withdrawing req.amount
  pure (saved, false)

-- Either the row that stands under the idempotency key, or nothing.
abbrev pub prior : ℤ → Text → Tx (Option Withdrawal)
prior tenant_id idem =
    recover is_not_found (withdrawal_by_idem_key tenant_id idem >>= λ w. pure (some w))
      (λ e. pure none)

-- A row under the key: replayed; a new one: applied.
unfoldable pub append_or_replay : Ledger → WithdrawRequest → Money → Tx (Withdrawal × Bool)
append_or_replay l req fee = do
  let idem = withdraw_idem_key l.digest req.tenant_id req.idem_key
  added ←
      recover is_duplicate (append_withdrawal (new_withdrawal l req fee) >>= λ w. pure (some w))
        (λ e. pure none)
  if_some added (apply_withdrawal l req fee)
      (withdrawal_by_idem_key req.tenant_id idem >>= λ w. pure (w, true))

-- The transaction of `RequestWithdraw`; the Boolean says that the row existed.
unfoldable pub request_tx : Ledger → WithdrawRequest → Money → Tx (Withdrawal × Bool)
request_tx l req fee = do
  found ← prior req.tenant_id (withdraw_idem_key l.digest req.tenant_id req.idem_key)
  if_some found (λ w. pure (w, true)) (append_or_replay l req fee)

-- `RequestWithdraw`
unfoldable pub request_withdraw :
    Ledger → WithdrawRequest → Ctx → Store → Result (Withdrawal × Bool) × Store
request_withdraw l req ctx s = elim (check_request l req) [
  | err e ↦ (err e, s)
  | ok fee ↦ update ctx (request_tx l req fee) s
]

-- `loadScopedWithdrawal`, and inside `View` `loadWithdrawal`.
unfoldable pub load_scoped_withdrawal : ℤ → ℤ → Tx Withdrawal
load_scoped_withdrawal tenant_id id = do
  lift (check_scope tenant_id id)
  cur ← withdrawal_by_id id
  raise_if (not (cur.key.tenant_id ==ℤ tenant_id)) not_found
  pure cur

unfoldable pub approve_tx : Ledger → WithdrawDecision → Tx Withdrawal
approve_tx l req = do
  cur ← load_scoped_withdrawal req.tenant_id req.withdrawal_id
  transition_withdrawal cur.id applied approved cur.version
      (record no_change { operator = req.operator; audited_at = l.now })

-- `ApproveWithdraw`
unfoldable pub approve_withdraw :
    Ledger → WithdrawDecision → Ctx → Store → Result Withdrawal × Store
approve_withdraw l req ctx s = update ctx (approve_tx l req) s

-- `releaseReservation`
unfoldable pub release_reservation : Withdrawal → LedgerBizType → Text → Time → Tx Done
release_reservation w biz_type reason at =
    if leb_ℤ (outstanding w) (pos 0)
    then pure tt
    else move (guarded_delta w.key (outstanding w) (neg64 (outstanding w)) (pos 0) at) biz_type
        (i64s w.id)
        (text "withdraw released "
          ++ (i64s w.id
              ++ (text " amount " ++ (money_text (outstanding w) ++ (text " reason " ++ reason)))))
        bucket_withdrawing (neg64 (outstanding w)) bucket_available (outstanding w)

unfoldable pub reject_tx : Ledger → WithdrawDecision → Tx Withdrawal
reject_tx l req = do
  cur ← load_scoped_withdrawal req.tenant_id req.withdrawal_id
  raise_if (not (reserved cur.state)) (transition_error "withdrawal reject")
  release_reservation cur withdraw_refund req.reason l.now
  transition_withdrawal cur.id cur.state rejected cur.version
      (record no_change { operator = req.operator; fail_reason = req.reason; audited_at = l.now })

-- `RejectWithdraw`
unfoldable pub reject_withdraw : Ledger → WithdrawDecision → Ctx → Store → Result Withdrawal × Store
reject_withdraw l req ctx s = elim (validate_rejection req.reason) [
  | err e ↦ (err e, s)
  | ok u ↦ update ctx (reject_tx l req) s
]

-- The transaction of `recordPayoutFailure`, its reason cut to the limit.
unfoldable pub failure_tx : Withdrawal → Text → Text → Tx Withdrawal
failure_tx cur reason operator = do
  live ← withdrawal_by_id cur.id
  transition_withdrawal live.id live.state pay_failed live.version
      (record no_change { fail_reason = take max_reason_len reason; operator = operator })

-- The movement and the transition of `settlePayout`.
unfoldable pub pay_tx : Ledger → Withdrawal → Text → Text → Tx Withdrawal
pay_tx l live invoice operator = do
  move (guarded_delta live.key (pos 0) (neg64 (outstanding live)) (outstanding live) l.now)
      withdraw_paid (i64s live.id)
      (text "withdraw paid "
        ++ (i64s live.id
            ++ (text " amount "
                ++ (money_text (outstanding live)
                    ++ (text " real "
                        ++ (money_text live.real_amount
                            ++ (text " fee " ++ money_text live.fee)))))))
      bucket_withdrawing (neg64 (outstanding live)) bucket_withdrawn (outstanding live)
  raise_if (not (is_zero live.paid_at)) (other_error "withdrawal already records a payout")
  transition_withdrawal live.id live.state paid live.version
      (record no_change { invoice_no = invoice; operator = operator; paid_at = l.now })

-- The transaction of `settlePayout`.
unfoldable pub settle_payout_tx : Ledger → Withdrawal → Text → Text → Tx Withdrawal
settle_payout_tx l cur invoice operator = do
  live ← withdrawal_by_id cur.id
  if same_state live.state paid || leb_ℤ (outstanding live) (pos 0)
      then pure live
      else pay_tx l live invoice operator
