-- ===== src/Memory/Elsewhere.antt =====
-- Properties of the accounts and of the ledger entries, and the writes of everything else.
use distledger.Base.{Bool, List}
use distledger.Base.Int.{ℤ, pos, ◌+ℤ◌}
use distledger.Base.Maps.{Map}
use distledger.Account.{Account, LedgerEntry}
use distledger.Agent.{Agent, Binding}
use distledger.Clock.{Time}
use distledger.Commission.{Commission, CommissionState, Refund}
use distledger.Errors.{Err}
use distledger.Keys.{UserKey, OrderKey}
use distledger.Memory.Atomic.{read_rules}
use distledger.Memory.Data.{Data, IdemRef}
use distledger.Memory.Tx.{
  set_agent, set_binding, set_commission, set_ledger, set_idem, set_withdrawal, set_withdraw_idem,
  push_by_order, push_by_agent, push_ledger_by_user, push_ledger_by_tenant, push_ledger_id,
  push_commission_id, push_withdrawal_id, insert_account_id, fresh_id, insert_due, remove_due,
  set_refund, set_refund_idem, push_refunds_by_order,
}
use distledger.Memory.Tx.Rules.{Keeps}
use distledger.Memory.Undo.{Undo}
use distledger.Memory.Writer.{
  append_commission, set_commission_reversed_amount, transition_commission, append_ledger,
  set_commission_available_at, append_refund, put_agent, put_binding,
}
use distledger.Memory.Writer.Withdrawals.{
  WithdrawalTransition, append_withdrawal, transition_withdrawal,
}
use distledger.Money.{Money}
use distledger.Withdrawal.{Withdrawal, WithdrawalState}

-- A predicate on the accounts, the ledger entries, their ids by user, and the last id.
abbrev pub Books : Type 1
Books = Map UserKey Account → Map ℤ LedgerEntry → Map UserKey (List ℤ) → ℤ → Type 0

pub record OfBooks (Q : Books) (u : Undo) (d : Data) : Type 0 where
  pub on : Q d.accounts d.ledger d.ledger_by_user d.next_id

-- An id that is given out leaves the predicate true.
pub record Grows (Q : Books) : Type 0 where
  pub at :
      (accounts : Map UserKey Account) (ledger : Map ℤ LedgerEntry) (by_user : Map UserKey (List ℤ))
      (id : ℤ)
      → Q accounts ledger by_user id
      → Q accounts ledger by_user (id +ℤ pos 1)

module _ {Q : Books} {C : Err → Bool} where
  set_agent-OfBooks : (k : UserKey) (v : Agent) → Keeps (OfBooks Q) C (set_agent k v)
  unfolding set_agent
  set_agent-OfBooks k v = record { at = λ s h. record { on = h.on } }

  set_binding-OfBooks : (k : UserKey) (v : Binding) → Keeps (OfBooks Q) C (set_binding k v)
  unfolding set_binding
  set_binding-OfBooks k v = record { at = λ s h. record { on = h.on } }

  set_commission-OfBooks : (k : ℤ) (v : Commission) → Keeps (OfBooks Q) C (set_commission k v)
  unfolding set_commission
  set_commission-OfBooks k v = record { at = λ s h. record { on = h.on } }

  set_idem-OfBooks : (k : IdemRef) (v : ℤ) → Keeps (OfBooks Q) C (set_idem k v)
  unfolding set_idem
  set_idem-OfBooks k v = record { at = λ s h. record { on = h.on } }

  set_withdrawal-OfBooks : (k : ℤ) (v : Withdrawal) → Keeps (OfBooks Q) C (set_withdrawal k v)
  unfolding set_withdrawal
  set_withdrawal-OfBooks k v = record { at = λ s h. record { on = h.on } }

  set_withdraw_idem-OfBooks : (k : IdemRef) (v : ℤ) → Keeps (OfBooks Q) C (set_withdraw_idem k v)
  unfolding set_withdraw_idem
  set_withdraw_idem-OfBooks k v = record { at = λ s h. record { on = h.on } }

  push_by_order-OfBooks : (k : OrderKey) (v : ℤ) → Keeps (OfBooks Q) C (push_by_order k v)
  unfolding push_by_order
  push_by_order-OfBooks k v = record { at = λ s h. record { on = h.on } }

  push_by_agent-OfBooks : (k : UserKey) (v : ℤ) → Keeps (OfBooks Q) C (push_by_agent k v)
  unfolding push_by_agent
  push_by_agent-OfBooks k v = record { at = λ s h. record { on = h.on } }

  push_ledger_by_tenant-OfBooks : (k : ℤ) (v : ℤ) → Keeps (OfBooks Q) C (push_ledger_by_tenant k v)
  unfolding push_ledger_by_tenant
  push_ledger_by_tenant-OfBooks k v = record { at = λ s h. record { on = h.on } }

  push_ledger_id-OfBooks : (k : ℤ) → Keeps (OfBooks Q) C (push_ledger_id k)
  unfolding push_ledger_id
  push_ledger_id-OfBooks k = record { at = λ s h. record { on = h.on } }

  push_commission_id-OfBooks : (k : ℤ) → Keeps (OfBooks Q) C (push_commission_id k)
  unfolding push_commission_id
  push_commission_id-OfBooks k = record { at = λ s h. record { on = h.on } }

  push_withdrawal_id-OfBooks : (k : ℤ) → Keeps (OfBooks Q) C (push_withdrawal_id k)
  unfolding push_withdrawal_id
  push_withdrawal_id-OfBooks k = record { at = λ s h. record { on = h.on } }

  pub insert_account_id-OfBooks : (k : UserKey) → Keeps (OfBooks Q) C (insert_account_id k)
  unfolding insert_account_id
  insert_account_id-OfBooks k = record { at = λ s h. record { on = h.on } }

  set_refund-OfBooks : (k : ℤ) (v : Refund) → Keeps (OfBooks Q) C (set_refund k v)
  unfolding set_refund
  set_refund-OfBooks k v = record { at = λ s h. record { on = h.on } }

  set_refund_idem-OfBooks : (k : IdemRef) (v : ℤ) → Keeps (OfBooks Q) C (set_refund_idem k v)
  unfolding set_refund_idem
  set_refund_idem-OfBooks k v = record { at = λ s h. record { on = h.on } }

  push_refunds_by_order-OfBooks :
      (k : OrderKey) (v : ℤ) → Keeps (OfBooks Q) C (push_refunds_by_order k v)
  unfolding push_refunds_by_order
  push_refunds_by_order-OfBooks k v = record { at = λ s h. record { on = h.on } }

  insert_due-OfBooks :
      (tenant_id : ℤ) (at : Time) (id : ℤ) → Keeps (OfBooks Q) C (insert_due tenant_id at id)
  unfolding insert_due
  insert_due-OfBooks tenant_id at id = record { at = λ s h. record { on = h.on } }

  remove_due-OfBooks :
      (tenant_id : ℤ) (at : Time) (id : ℤ) → Keeps (OfBooks Q) C (remove_due tenant_id at id)
  unfolding remove_due
  remove_due-OfBooks tenant_id at id = record { at = λ s h. record { on = h.on } }

  fresh_id-OfBooks : Grows Q → Keeps (OfBooks Q) C fresh_id
  unfolding fresh_id
  fresh_id-OfBooks grows = record { at = λ s h. record { on = grows.at _ _ _ _ h.on } }

ruleset elsewhere_rules = (
  read_rules, set_agent-OfBooks, set_binding-OfBooks, set_commission-OfBooks, set_idem-OfBooks,
  set_withdrawal-OfBooks, set_withdraw_idem-OfBooks, push_by_order-OfBooks, push_by_agent-OfBooks,
  push_ledger_by_tenant-OfBooks, push_ledger_id-OfBooks, push_commission_id-OfBooks,
  push_withdrawal_id-OfBooks, insert_account_id-OfBooks, fresh_id-OfBooks, insert_due-OfBooks,
  remove_due-OfBooks, set_refund-OfBooks, set_refund_idem-OfBooks, push_refunds_by_order-OfBooks,
)

module _ {Q : Books} {C : Err → Bool} (grows : Grows Q) where
  pub append_commission-OfBooks : (c : Commission) → Keeps (OfBooks Q) C (append_commission c)
  unfolding append_commission
  append_commission-OfBooks c = search elsewhere_rules depth 40

  pub set_commission_reversed_amount-OfBooks :
      (id : ℤ) (reversed : Money) (version : ℤ)
      → Keeps (OfBooks Q) C (set_commission_reversed_amount id reversed version)
  unfolding set_commission_reversed_amount
  set_commission_reversed_amount-OfBooks id reversed version = search elsewhere_rules depth 40

  pub transition_commission-OfBooks :
      (id : ℤ) (from to : CommissionState) (version : ℤ)
      → Keeps (OfBooks Q) C (transition_commission id from to version)
  unfolding transition_commission
  transition_commission-OfBooks id from to version = search elsewhere_rules depth 40

  pub append_withdrawal-OfBooks : (w : Withdrawal) → Keeps (OfBooks Q) C (append_withdrawal w)
  unfolding append_withdrawal
  append_withdrawal-OfBooks w = search elsewhere_rules depth 40

  pub transition_withdrawal-OfBooks :
      (id : ℤ) (from to : WithdrawalState) (version : ℤ) (change : WithdrawalTransition)
      → Keeps (OfBooks Q) C (transition_withdrawal id from to version change)
  unfolding transition_withdrawal
  transition_withdrawal-OfBooks id from to version change = search elsewhere_rules depth 40

  pub set_commission_available_at-OfBooks :
      (id : ℤ) (at : Time) (version : ℤ)
      → Keeps (OfBooks Q) C (set_commission_available_at id at version)
  unfolding set_commission_available_at
  set_commission_available_at-OfBooks id at version = search elsewhere_rules depth 40

  pub append_refund-OfBooks : (r : Refund) → Keeps (OfBooks Q) C (append_refund r)
  unfolding append_refund
  append_refund-OfBooks r = search elsewhere_rules depth 40

  pub put_agent-OfBooks : (a : Agent) → Keeps (OfBooks Q) C (put_agent a)
  unfolding put_agent
  put_agent-OfBooks a = search elsewhere_rules depth 40

  pub put_binding-OfBooks : (b : Binding) → Keeps (OfBooks Q) C (put_binding b)
  unfolding put_binding
  put_binding-OfBooks b = search elsewhere_rules depth 40

-- Predicates on the accounts alone.
abbrev pub OfAccounts : (Map UserKey Account → Type 0) → Undo → Data → Type 0
OfAccounts Q = OfBooks (λ accounts ledger by_user id. Q accounts)

pub OfAccounts-Grows :
    (Q : Map UserKey Account → Type 0) → Grows (λ accounts ledger by_user id. Q accounts)
OfAccounts-Grows Q = record { at = λ accounts ledger by_user id h. h }

module _ {Q : Map UserKey Account → Type 0} {C : Err → Bool} where
  set_ledger-OfAccounts : (k : ℤ) (v : LedgerEntry) → Keeps (OfAccounts Q) C (set_ledger k v)
  unfolding set_ledger
  set_ledger-OfAccounts k v = record { at = λ s h. record { on = h.on } }

  push_ledger_by_user-OfAccounts :
      (k : UserKey) (v : ℤ) → Keeps (OfAccounts Q) C (push_ledger_by_user k v)
  unfolding push_ledger_by_user
  push_ledger_by_user-OfAccounts k v = record { at = λ s h. record { on = h.on } }

  pub append_ledger-OfAccounts : (e : LedgerEntry) → Keeps (OfAccounts Q) C (append_ledger e)
  unfolding append_ledger
  append_ledger-OfAccounts e =
      search
        (elsewhere_rules, set_ledger-OfAccounts, push_ledger_by_user-OfAccounts, OfAccounts-Grows)
        depth 40
