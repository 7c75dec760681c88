-- ===== src/Tests/History.antt =====
-- A history of a store, from the first agent to the first order.
use distledger.Base.{◌≡◌, refl, none, some, [], length, ◌<◌, ◌↔◌, inr, true, false, arith}
use distledger.Base.Int.{ℤ, pos}
use distledger.Account.{
  bucket_frozen, bucket_available, bucket_withdrawing, bucket_withdrawn, unknown, Bucket,
  LedgerEntry, delta, value, Account, zero_account,
}
use distledger.Word.{IsInt64}
use distledger.Agent.{active, free, link}
use distledger.Engine.Calls.{bind_to_parent, bind_to_agent, order_paid}
use distledger.Engine.History.{Event, called, after, Reached, fresh, next}
use distledger.Engine.History.Balanced.{Reached-sum, Reached-IsBalanced}
use distledger.Events.{BindAgentRequest, BindBuyerRequest, OrderPaidEvent}
use distledger.Keys.{UserKey}
use distledger.Memory.Books.{AreInt64Entries, entries_of, sum_of, tail_value}
use distledger.Memory.Reader.{account_or_zero}
use distledger.Memory.Store.{begin, Store, new_store}
use distledger.Errors.{ok}
use distledger.SelfCheck.Conservation.{check_account}
use distledger.SelfCheck.Conservation.Accounts.{check_account-judges}
use distledger.SelfCheck.Conservation.Judged.{IsReconciled, IsPermitted}
use distledger.SelfCheck.Conservation.Reached.{Reached-check_account}
use distledger.SelfCheck.Results.{InvariantResult, fresh_result, i1}
use distledger.Tests.Orders.{order_ledger, test_order}
use distledger.Tests.{test_ctx}

abbrev enrolment : BindAgentRequest
enrolment = record {
  tenant_id = pos 1;
  user_id = pos 7;
  parent_id = pos 0;
  join_type = free;
  status = active;
  rate_override_bp = none;
}

abbrev attribution : BindBuyerRequest
attribution = record {
  tenant_id = pos 1;
  buyer_user_id = pos 42;
  agent_user_id = pos 7;
  source = link;
  source_ref = [];
  bound_at = pos 5;
}

abbrev enrolled : Event
enrolled = called order_ledger none (bind_to_parent enrolment) test_ctx

abbrev attributed : Event
attributed = called order_ledger none (bind_to_agent attribution) test_ctx

abbrev paid : Event
paid = called order_ledger none (order_paid test_order) test_ctx

abbrev seller : UserKey
seller = record { tenant_id = pos 1; user_id = pos 7 }

abbrev history : Store
history = after paid (after attributed (after enrolled new_store))

history-Reached : Reached history
history-Reached = next (next (next fresh enrolled) attributed) paid

changes_fit :
    (e : LedgerEntry)
    → IsInt64 e.delta_frozen
    → IsInt64 e.delta_available
    → IsInt64 e.delta_withdrawing
    → IsInt64 e.delta_withdrawn
    → (b : Bucket) → IsInt64 (delta b e)
changes_fit e f v w p bucket_frozen = f
changes_fit e f v w p bucket_available = v
changes_fit e f v w p bucket_withdrawing = w
changes_fit e f v w p bucket_withdrawn = p
changes_fit e f v w p (unknown n) = (omega arith, omega arith)

-- The one entry of the seller.
history_entry :
    AreInt64Entries (entries_of history.data_of.ledger history.data_of.ledger_by_user seller)
    × (length (entries_of history.data_of.ledger history.data_of.ledger_by_user seller) ≡ 1)
unfolding distledger.Memory.Tx.pure distledger.Memory.Tx.raise distledger.Memory.Tx.lift
    distledger.Memory.Tx.gets distledger.Memory.Tx.◌>>=◌ distledger.Memory.Tx.recover
    distledger.Memory.Tx.if_some distledger.Memory.Tx.raise_if distledger.Memory.Tx.check_ctx
    distledger.Memory.Tx.or_raise distledger.Memory.Tx.set_agent distledger.Memory.Tx.set_binding
    distledger.Memory.Tx.set_account distledger.Memory.Tx.set_commission
    distledger.Memory.Tx.set_ledger distledger.Memory.Tx.set_idem distledger.Memory.Tx.set_refund
    distledger.Memory.Tx.set_refund_idem distledger.Memory.Tx.set_withdrawal
    distledger.Memory.Tx.set_withdraw_idem distledger.Memory.Tx.push_by_order
    distledger.Memory.Tx.push_by_agent distledger.Memory.Tx.push_refunds_by_order
    distledger.Memory.Tx.push_ledger_by_user distledger.Memory.Tx.push_ledger_by_tenant
    distledger.Memory.Tx.push_ledger_id distledger.Memory.Tx.push_commission_id
    distledger.Memory.Tx.push_withdrawal_id distledger.Memory.Tx.fresh_id
    distledger.Memory.Tx.search_from distledger.Memory.Tx.insert_due distledger.Memory.Tx.remove_due
    distledger.Memory.Tx.insert_account_id distledger.Memory.Undo.rollback
    distledger.Memory.Reader.agent distledger.Memory.Reader.binding distledger.Memory.Reader.account
    distledger.Memory.Reader.commission distledger.Memory.Reader.commissions_by_order
    distledger.Memory.Reader.refunds_by_order distledger.Memory.Reader.collect_due
    distledger.Memory.Reader.due_commissions distledger.Memory.Reader.withdrawal_by_id
    distledger.Memory.Reader.withdrawal_by_idem_key distledger.Memory.Writer.put_agent
    distledger.Memory.Writer.put_binding distledger.Memory.Writer.put_account
    distledger.Memory.Writer.increment_account distledger.Memory.Writer.check_new_commission
    distledger.Memory.Writer.append_commission distledger.Memory.Writer.write_available_at
    distledger.Memory.Writer.set_commission_available_at
    distledger.Memory.Writer.set_commission_reversed_amount
    distledger.Memory.Writer.transition_commission distledger.Memory.Writer.append_refund
    distledger.Memory.Writer.append_ledger distledger.Memory.Store.update
    distledger.Memory.Store.view distledger.Engine.Accrual.credit_accrual
    distledger.Engine.Accrual.credit_added distledger.Engine.Accrual.accrue_amount
    distledger.Engine.Accrual.accrue_agent distledger.Engine.Accrual.accrue_levels
    distledger.Engine.Accrual.accrue_base distledger.Engine.Accrual.accrue_bases
    distledger.Engine.Accrual.accrue_first distledger.Engine.Accrual.accrue_bound
    distledger.Engine.Accrual.accrue_order distledger.Engine.Accrual.paid_tx
    distledger.Engine.Accrual.on_order_paid distledger.Engine.Config.default_rates
    distledger.Engine.Config.default_elig distledger.Engine.Config.new_ledger
    distledger.Events.validate_items distledger.Events.validate_paid
    distledger.Events.validate_received distledger.Events.validate_refunded
    distledger.Events.accrued_amount distledger.Idem.i64s distledger.Idem.encode_parts
    distledger.Idem.hash_parts distledger.Idem.accrue_idem_key distledger.Idem.reverse_idem_key
    distledger.Idem.withdraw_idem_key distledger.Idem.refund_idem_key
    distledger.Idem.validate_idem_key_override distledger.Money.add distledger.Money.sub
    distledger.Money.neg distledger.Money.abs_uint64 distledger.Money.apply distledger.Money.mul_div
    distledger.Money.Print.money_text distledger.Money.Print.rate_text distledger.SafeMath.mul_div
    distledger.SafeMath.add distledger.SafeMath.sub distledger.SafeMath.neg distledger.Word.wrap64
    distledger.Base.Int.◌+ℤ◌ distledger.Base.Int.◌-ℤ◌ distledger.Account.apply_delta
    distledger.Agent.effective distledger.Rules.Snapshot.describe
    distledger.Rules.Snapshot.rules_version distledger.Commission.commission_terminal
    distledger.Commission.can_transition_commission
    distledger.Commission.validate_commission_transition distledger.Commission.outstanding_amount
    distledger.Commission.max_reversible distledger.Commission.fully_reversed
    distledger.Commission.due_at distledger.Clock.add_days distledger.Engine.Binding.bind_agent
    distledger.Engine.Binding.bind_agent_tx distledger.Engine.Binding.add_agent
    distledger.Engine.Binding.change_agent distledger.Engine.Binding.resolve_depth
    distledger.Engine.Binding.bind_buyer distledger.Engine.Binding.bind_or_find
    distledger.Engine.Binding.bind_buyer_tx distledger.Engine.Binding.bind_new
    distledger.Engine.Binding.rebind distledger.Memory.Writer.write_entry
    distledger.Engine.Calls.perform distledger.Engine.Binding.expiry_for
history_entry = (
  (
    changes_fit _ (omega arith, omega arith) (omega arith, omega arith) (omega arith, omega arith)
        (omega arith, omega arith),
    tt,
  ),
  refl,
)

history_fits :
    AreInt64Entries (entries_of history.data_of.ledger history.data_of.ledger_by_user seller)
history_fits = history_entry.0

Reached-sum_example :
    (value bucket_frozen (account_or_zero seller (history.data_of.accounts seller))
      ≡ sum_of bucket_frozen
          (entries_of history.data_of.ledger history.data_of.ledger_by_user seller))
    × (tail_value bucket_frozen
          (entries_of history.data_of.ledger history.data_of.ledger_by_user seller)
        ≡ value bucket_frozen (account_or_zero seller (history.data_of.accounts seller)))
Reached-sum_example = Reached-sum seller bucket_frozen history-Reached history_fits

abbrev seller_account : Account
seller_account = record (zero_account seller) {
  frozen = pos 45;
  total_earned = pos 45;
  version = pos 1;
  updated_at = pos 0;
}

history_stored : history.data_of.accounts seller ≡ some seller_account
unfolding distledger.Memory.Tx.pure distledger.Memory.Tx.raise distledger.Memory.Tx.lift
    distledger.Memory.Tx.gets distledger.Memory.Tx.◌>>=◌ distledger.Memory.Tx.recover
    distledger.Memory.Tx.if_some distledger.Memory.Tx.raise_if distledger.Memory.Tx.check_ctx
    distledger.Memory.Tx.or_raise distledger.Memory.Tx.set_agent distledger.Memory.Tx.set_binding
    distledger.Memory.Tx.set_account distledger.Memory.Tx.set_commission
    distledger.Memory.Tx.set_ledger distledger.Memory.Tx.set_idem distledger.Memory.Tx.set_refund
    distledger.Memory.Tx.set_refund_idem distledger.Memory.Tx.set_withdrawal
    distledger.Memory.Tx.set_withdraw_idem distledger.Memory.Tx.push_by_order
    distledger.Memory.Tx.push_by_agent distledger.Memory.Tx.push_refunds_by_order
    distledger.Memory.Tx.push_ledger_by_user distledger.Memory.Tx.push_ledger_by_tenant
    distledger.Memory.Tx.push_ledger_id distledger.Memory.Tx.push_commission_id
    distledger.Memory.Tx.push_withdrawal_id distledger.Memory.Tx.fresh_id
    distledger.Memory.Tx.search_from distledger.Memory.Tx.insert_due distledger.Memory.Tx.remove_due
    distledger.Memory.Tx.insert_account_id distledger.Memory.Undo.rollback
    distledger.Memory.Reader.agent distledger.Memory.Reader.binding distledger.Memory.Reader.account
    distledger.Memory.Reader.commission distledger.Memory.Reader.commissions_by_order
    distledger.Memory.Reader.refunds_by_order distledger.Memory.Reader.collect_due
    distledger.Memory.Reader.due_commissions distledger.Memory.Reader.withdrawal_by_id
    distledger.Memory.Reader.withdrawal_by_idem_key distledger.Memory.Writer.put_agent
    distledger.Memory.Writer.put_binding distledger.Memory.Writer.put_account
    distledger.Memory.Writer.increment_account distledger.Memory.Writer.check_new_commission
    distledger.Memory.Writer.append_commission distledger.Memory.Writer.write_available_at
    distledger.Memory.Writer.set_commission_available_at
    distledger.Memory.Writer.set_commission_reversed_amount
    distledger.Memory.Writer.transition_commission distledger.Memory.Writer.append_refund
    distledger.Memory.Writer.append_ledger distledger.Memory.Store.update
    distledger.Memory.Store.view distledger.Engine.Accrual.credit_accrual
    distledger.Engine.Accrual.credit_added distledger.Engine.Accrual.accrue_amount
    distledger.Engine.Accrual.accrue_agent distledger.Engine.Accrual.accrue_levels
    distledger.Engine.Accrual.accrue_base distledger.Engine.Accrual.accrue_bases
    distledger.Engine.Accrual.accrue_first distledger.Engine.Accrual.accrue_bound
    distledger.Engine.Accrual.accrue_order distledger.Engine.Accrual.paid_tx
    distledger.Engine.Accrual.on_order_paid distledger.Engine.Config.default_rates
    distledger.Engine.Config.default_elig distledger.Engine.Config.new_ledger
    distledger.Events.validate_items distledger.Events.validate_paid
    distledger.Events.validate_received distledger.Events.validate_refunded
    distledger.Events.accrued_amount distledger.Idem.i64s distledger.Idem.encode_parts
    distledger.Idem.hash_parts distledger.Idem.accrue_idem_key distledger.Idem.reverse_idem_key
    distledger.Idem.withdraw_idem_key distledger.Idem.refund_idem_key
    distledger.Idem.validate_idem_key_override distledger.Money.add distledger.Money.sub
    distledger.Money.neg distledger.Money.abs_uint64 distledger.Money.apply distledger.Money.mul_div
    distledger.Money.Print.money_text distledger.Money.Print.rate_text distledger.SafeMath.mul_div
    distledger.SafeMath.add distledger.SafeMath.sub distledger.SafeMath.neg distledger.Word.wrap64
    distledger.Base.Int.◌+ℤ◌ distledger.Base.Int.◌-ℤ◌ distledger.Account.apply_delta
    distledger.Agent.effective distledger.Rules.Snapshot.describe
    distledger.Rules.Snapshot.rules_version distledger.Commission.commission_terminal
    distledger.Commission.can_transition_commission
    distledger.Commission.validate_commission_transition distledger.Commission.outstanding_amount
    distledger.Commission.max_reversible distledger.Commission.fully_reversed
    distledger.Commission.due_at distledger.Clock.add_days distledger.Engine.Binding.bind_agent
    distledger.Engine.Binding.bind_agent_tx distledger.Engine.Binding.add_agent
    distledger.Engine.Binding.change_agent distledger.Engine.Binding.resolve_depth
    distledger.Engine.Binding.bind_buyer distledger.Engine.Binding.bind_or_find
    distledger.Engine.Binding.bind_buyer_tx distledger.Engine.Binding.bind_new
    distledger.Engine.Binding.rebind distledger.Memory.Writer.write_entry
    distledger.Engine.Calls.perform distledger.Engine.Binding.expiry_for
history_stored = refl

history_credited :
    value bucket_frozen (account_or_zero seller (history.data_of.accounts seller)) ≡ pos 45
history_credited = rw history_stored refl

history_few : length (entries_of history.data_of.ledger history.data_of.ledger_by_user seller) < 5
history_few = let one = history_entry.1 in omega arith

seller-IsPermitted : (b : Bucket) → IsPermitted false seller_account b
seller-IsPermitted bucket_frozen = inr (omega arith)
seller-IsPermitted bucket_available = inr (omega arith)
seller-IsPermitted bucket_withdrawing = inr (omega arith)
seller-IsPermitted bucket_withdrawn = inr (omega arith)
seller-IsPermitted (unknown n) = inr (omega arith)

Reached-check_account_example :
    (r' : InvariantResult) × ((check_account order_ledger 5 seller_account
        (fresh_result i1)
        (begin test_ctx history.data_of)).0
      ≡ ok r')
    × (r'.is_ok ≡ true)
Reached-check_account_example =
    Reached-check_account order_ledger seller_account 5 (fresh_result i1) test_ctx history-Reached
      history_stored history_fits history_few seller-IsPermitted (λ n. refl) refl

check_account-judges_example :
    (r' : InvariantResult) × ((check_account order_ledger 5
        (zero_account seller)
        (fresh_result i1)
        (begin test_ctx history.data_of)).0
      ≡ ok r')
    × ((r'.is_ok ≡ true) ↔ (
        ((fresh_result i1).is_ok ≡ true)
        × IsReconciled false
            (zero_account seller)
            (entries_of history.data_of.ledger history.data_of.ledger_by_user seller)))
check_account-judges_example =
    check_account-judges order_ledger (zero_account seller) 5 (fresh_result i1)
      (begin test_ctx history.data_of) (λ n. refl)
      ((Reached-IsBalanced history-Reached).indexed seller) history_fits
      (((Reached-IsBalanced history-Reached).each seller).running history_fits) history_few
