-- ===== src/Engine/Writes.antt =====
-- What a handler does to the store, as an interface: the writes and the movements of money that it
-- makes, each of which keeps a property after a success and after the errors of a class, among them
-- those that a handler catches. A property that has these writes is kept by every handler
-- (Engine/Handlers).
pub mod Single
use distledger.Base.{◌≡◌, true, Bool}
use distledger.Base.Int.{ℤ, pos, ltb_ℤ}
use distledger.Base.Text.{Text}
use distledger.Account.{AccountDelta, Bucket, LedgerBizType}
use distledger.Agent.{Agent, Binding}
use distledger.Clock.{Time}
use distledger.Commission.{Commission, CommissionState, Refund}
use distledger.Engine.Accrual.{credit_accrual}
use distledger.Engine.Clawback.{debit_bucket}
use distledger.Engine.Config.{Ledger}
use distledger.Engine.Movement.{move}
use distledger.Engine.Movement.Transfer.{IsTransfer}
use distledger.Errors.{Err, is_handled}
use distledger.Memory.Tx.Rules.{Kept, Keeps}
use distledger.Memory.Writer.{
  append_commission, set_commission_reversed_amount, transition_commission,
  set_commission_available_at, append_refund, put_agent, put_binding,
}
use distledger.Memory.Writer.Withdrawals.{
  WithdrawalTransition, append_withdrawal, transition_withdrawal,
}
use distledger.Money.{Money}
use distledger.Withdrawal.{Withdrawal, WithdrawalState}

pub record Writes (l : Ledger) (P : Kept) (C : Err → Bool) : Type 0 where
  pub handled : (e : Err) → is_handled e ≡ true → C e ≡ true
  pub appended : (c : Commission) → Keeps P C (append_commission c)
  pub reversed :
      (id : ℤ) (amount : Money) (version : ℤ)
      → Keeps P C (set_commission_reversed_amount id amount version)
  pub transitioned :
      (id : ℤ) (from to : CommissionState) (version : ℤ)
      → Keeps P C (transition_commission id from to version)
  pub requested : (w : Withdrawal) → Keeps P C (append_withdrawal w)
  pub decided :
      (id : ℤ) (from to : WithdrawalState) (version : ℤ) (tr : WithdrawalTransition)
      → Keeps P C (transition_withdrawal id from to version tr)
  -- Money moves between two buckets of an account under a guard, and the entry records that.
  pub moved :
      (delta : AccountDelta) (biz_type : LedgerBizType) (biz_id remark : Text) (from : Bucket)
      (debit : Money) (to : Bucket) (credit : Money)
      → delta.require_non_negative ≡ true
      → IsTransfer delta from debit to credit
      → Keeps P C (move delta biz_type biz_id remark from debit to credit)
  -- A clawback, which may take a debt.
  pub debited :
      (original : Commission) (bucket : Bucket) (delta : Money) (reason : Text) (reversal_id : ℤ)
      (target original_amount : Money) (at : Time)
      → Keeps P C
          (debit_bucket l original bucket delta reason reversal_id target original_amount at)
  -- The credit of a level has no guard: its amount is positive.
  pub credited :
      (c : Commission) (now : Time)
      → ltb_ℤ (pos 0) c.amount ≡ true
      → Keeps P C (credit_accrual c now)
  pub dated :
      (id : ℤ) (at : Time) (version : ℤ) → Keeps P C (set_commission_available_at id at version)
  pub refunded : (r : Refund) → Keeps P C (append_refund r)
  pub enrolled : (a : Agent) → Keeps P C (put_agent a)
  pub attributed : (b : Binding) → Keeps P C (put_binding b)
