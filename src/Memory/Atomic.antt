-- ===== src/Memory/Atomic.antt =====
-- The undo log under the operations of a transaction.
use distledger.Base.{Bool}
use distledger.Base.Int.{ℤ}
use distledger.Base.Text.{Text}
use distledger.Account.{Account, AccountDelta, LedgerEntry}
use distledger.Agent.{Agent, Binding}
use distledger.Clock.{Time}
use distledger.Commission.{Commission, CommissionState, Refund}
use distledger.Errors.{Err}
use distledger.Keys.{UserKey, OrderKey}
use distledger.Memory.Data.{Data}
use distledger.Memory.Reader.{
  agent, binding, account, commission, commissions_by_order, refunds_by_order, due_commissions,
  withdrawal_by_id, withdrawal_by_idem_key,
}
use distledger.Memory.Rollback.{Tracks}
use distledger.Memory.Rollback.Writes.{tracks_rules}
use distledger.Memory.Tx.Rules.{Kept, Keeps, keeps_rules}
use distledger.Memory.Writer.{
  put_agent, put_binding, put_account, increment_account, append_commission,
  set_commission_available_at, set_commission_reversed_amount, transition_commission, append_refund,
  append_ledger,
}
use distledger.Memory.Writer.Withdrawals.{
  WithdrawalTransition, append_withdrawal, transition_withdrawal,
}
use distledger.Money.{Money}
use distledger.Withdrawal.{Withdrawal, WithdrawalState}

-- The reads keep whatever holds.
module _ {P : Kept} {C : Err → Bool} where
  pub Keeps-agent : (key : UserKey) → Keeps P C (agent key)
  unfolding agent
  Keeps-agent key = search keeps_rules

  pub Keeps-binding : (key : UserKey) → Keeps P C (binding key)
  unfolding binding
  Keeps-binding key = search keeps_rules

  pub Keeps-account : (key : UserKey) → Keeps P C (account key)
  unfolding account
  Keeps-account key = search keeps_rules

  pub Keeps-commission : (id : ℤ) → Keeps P C (commission id)
  unfolding commission
  Keeps-commission id = search keeps_rules

  pub Keeps-commissions_by_order : (key : OrderKey) → Keeps P C (commissions_by_order key)
  unfolding commissions_by_order
  Keeps-commissions_by_order key = search keeps_rules

  pub Keeps-refunds_by_order : (key : OrderKey) → Keeps P C (refunds_by_order key)
  unfolding refunds_by_order
  Keeps-refunds_by_order key = search keeps_rules

  pub Keeps-due_commissions :
      (tenant_id : ℤ) (at : Time) (limit : ℤ) → Keeps P C (due_commissions tenant_id at limit)
  unfolding due_commissions
  Keeps-due_commissions tenant_id at limit = search keeps_rules

  pub Keeps-withdrawal_by_id : (id : ℤ) → Keeps P C (withdrawal_by_id id)
  unfolding withdrawal_by_id
  Keeps-withdrawal_by_id id = search keeps_rules

  pub Keeps-withdrawal_by_idem_key :
      (tenant_id : ℤ) (idem_key : Text) → Keeps P C (withdrawal_by_idem_key tenant_id idem_key)
  unfolding withdrawal_by_idem_key
  Keeps-withdrawal_by_idem_key tenant_id idem_key = search keeps_rules depth 10

pub ruleset read_rules = (
  keeps_rules, Keeps-agent, Keeps-binding, Keeps-account, Keeps-commission,
  Keeps-commissions_by_order, Keeps-refunds_by_order, Keeps-due_commissions, Keeps-withdrawal_by_id,
  Keeps-withdrawal_by_idem_key,
)

ruleset write_rules = (keeps_rules, tracks_rules)

module _ (d0 : Data) {C : Err → Bool} where
  pub put_agent-Tracks : (a : Agent) → Keeps (Tracks d0) C (put_agent a)
  unfolding put_agent
  put_agent-Tracks a = search write_rules depth 40

  pub put_binding-Tracks : (b : Binding) → Keeps (Tracks d0) C (put_binding b)
  unfolding put_binding
  put_binding-Tracks b = search write_rules depth 40

  pub put_account-Tracks : (a : Account) → Keeps (Tracks d0) C (put_account a)
  unfolding put_account
  put_account-Tracks a = search write_rules depth 40

  pub increment_account-Tracks :
      (delta : AccountDelta) → Keeps (Tracks d0) C (increment_account delta)
  unfolding increment_account
  increment_account-Tracks delta = search write_rules depth 40

  pub append_commission-Tracks : (c : Commission) → Keeps (Tracks d0) C (append_commission c)
  unfolding append_commission
  append_commission-Tracks c = search write_rules depth 40

  pub set_commission_available_at-Tracks :
      (id : ℤ) (at : Time) (version : ℤ)
      → Keeps (Tracks d0) C (set_commission_available_at id at version)
  unfolding set_commission_available_at
  set_commission_available_at-Tracks id at version = search write_rules depth 40

  pub set_commission_reversed_amount-Tracks :
      (id : ℤ) (reversed : Money) (version : ℤ)
      → Keeps (Tracks d0) C (set_commission_reversed_amount id reversed version)
  unfolding set_commission_reversed_amount
  set_commission_reversed_amount-Tracks id reversed version = search write_rules depth 40

  pub transition_commission-Tracks :
      (id : ℤ) (from to : CommissionState) (version : ℤ)
      → Keeps (Tracks d0) C (transition_commission id from to version)
  unfolding transition_commission
  transition_commission-Tracks id from to version = search write_rules depth 40

  pub append_refund-Tracks : (r : Refund) → Keeps (Tracks d0) C (append_refund r)
  unfolding append_refund
  append_refund-Tracks r = search write_rules depth 40

  pub append_ledger-Tracks : (e : LedgerEntry) → Keeps (Tracks d0) C (append_ledger e)
  unfolding append_ledger
  append_ledger-Tracks e = search write_rules depth 40

  pub append_withdrawal-Tracks : (w : Withdrawal) → Keeps (Tracks d0) C (append_withdrawal w)
  unfolding append_withdrawal
  append_withdrawal-Tracks w = search write_rules depth 40

  pub transition_withdrawal-Tracks :
      (id : ℤ) (from to : WithdrawalState) (version : ℤ) (tr : WithdrawalTransition)
      → Keeps (Tracks d0) C (transition_withdrawal id from to version tr)
  unfolding transition_withdrawal
  transition_withdrawal-Tracks id from to version tr = search write_rules depth 40

pub ruleset atomic_rules = (
  read_rules, put_agent-Tracks, put_binding-Tracks, put_account-Tracks, increment_account-Tracks,
  append_commission-Tracks, set_commission_available_at-Tracks,
  set_commission_reversed_amount-Tracks, transition_commission-Tracks, append_refund-Tracks,
  append_ledger-Tracks, append_withdrawal-Tracks, transition_withdrawal-Tracks,
)
