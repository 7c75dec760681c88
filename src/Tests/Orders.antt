-- ===== src/Tests/Orders.antt =====
-- The theorems on orders, refunds, agents and the heartbeat at concrete inputs.
use distledger.Base.{
  ◌↔◌, ℕ, ◌+◌, ◌≤◌, ◌≡◌, refl, true, false, Option, none, some, List, [], ◌∷◌, ◌++◌, take, arith,
  if◌then◌else◌,
}
use distledger.Base.Int.{ℤ, pos, negsuc, ◌≤ℤ◌}
use distledger.Base.Maps.{insert}
use distledger.Base.Text.{Text, text, text_eqb}
use distledger.Account.{Account, zero_account}
use distledger.Agent.{Agent, Binding, active, free, link}
use distledger.Commission.{Commission}
use distledger.Engine.Accrual.{on_order_paid, accrued_commission}
use distledger.Engine.Accrual.Cap.{total}
use distledger.Engine.Accrual.Replay.{on_order_paid-replayed}
use distledger.Engine.Accrual.Solvent.{on_order_paid-solvent}
use distledger.Engine.Config.{Ledger}
use distledger.Errors.{Result, ok, err}
use distledger.Events.{OrderItem, OrderPaidEvent, AccrueResult}
use distledger.Engine.Binding.{add_agent, resolve_depth, bind_buyer}
use distledger.Engine.Binding.Locked.{bind_buyer-locked}
use distledger.Engine.Binding.Depth.{add_agent-IsDepth, resolve_depth-terminates}
use distledger.Engine.Config.{Config, new_ledger}
use distledger.Engine.Config.Consistent.{new_ledger_iff}
use distledger.Engine.Covered.{AreCovered, AreCovered-insert}
use distledger.Engine.Maintain.{maintain}
use distledger.Engine.Maintain.Budget.{maintain-budget}
use distledger.Engine.Maintain.Covered.{maintain-AreCovered}
use distledger.Engine.Refund.{on_order_refunded}
use distledger.Engine.Shares.{
  Shares, no_shares, refund_shares, total_base, order_shares, item_shares, base_of, group,
}
use distledger.Engine.Shares.Bounds.{AreShares, refund_shares-AreShares}
use distledger.Events.{
  BindAgentRequest, BindBuyerRequest, OrderRefundedEvent, RefundResult, validate_paid,
}
use distledger.Events.Validated.{IsPayable, validate_paid-IsPayable}
use distledger.Memory.Tx.Values.{Returns}
use distledger.Rules.{normalize, validate}
use distledger.Rules.Snapshot.{rules_version}
use distledger.Rules.Validated.{IsConsistent}
use distledger.Keys.{user_key_eq, int_eq, order_key_eq}
use distledger.Memory.Data.{Data, new_data}
use distledger.Memory.DueWork.{due_work}
use distledger.Memory.DueWork.Due.{All, IsDue, due_work-AreDue}
use distledger.Memory.Store.{Ctx, Store, new_store}
use distledger.Tests.{test_ledger, test_ctx, test_rules}

-- A digest that starts with the last bytes.
abbrev backwards : List ℕ → List ℕ
backwards [] = []
backwards (b ∷ bs) = backwards bs ++ (b ∷ [])

abbrev pub order_ledger : Ledger
order_ledger = record test_ledger { rules = test_rules; digest = backwards }

abbrev agent_with : ℤ → ℤ → ℤ → Agent
agent_with id parent_id depth = record {
  key = record { tenant_id = pos 1; user_id = id };
  parent_id = parent_id;
  depth = depth;
  status = active;
  join_type = free;
  rate_override_bp = none;
  created_at = pos 5;
  updated_at = pos 5;
  version = pos 1;
}

abbrev test_binding : Binding
test_binding = record {
  id = pos 0;
  buyer = record { tenant_id = pos 1; user_id = pos 42 };
  agent_user_id = pos 7;
  source = link;
  source_ref = [];
  bound_at = pos 5;
  expire_at = pos 0;
  active = true;
  rebound_from = pos 0;
  version = pos 1;
}

-- A buyer, bound to an agent with a parent.
abbrev bound_data : Data
bound_data = record new_data {
  agents =
      insert (record { tenant_id = pos 1; user_id = pos 7 }) (agent_with (pos 7) (pos 8) (pos 2))
        (insert (record { tenant_id = pos 1; user_id = pos 8 }) (agent_with (pos 8) (pos 0) (pos 1))
          new_data.agents);
  bindings = insert (record { tenant_id = pos 1; user_id = pos 42 }) test_binding new_data.bindings;
}

abbrev bound_store : Store
bound_store = record new_store { data_of = bound_data }

abbrev pub test_order : OrderPaidEvent
test_order = record {
  tenant_id = pos 1;
  order_id = text "o-1";
  buyer_user_id = pos 42;
  paid_amount = pos 1000;
  items = record { item_id = text "a"; amount = pos 900 } ∷ [];
  paid_at = pos 900;
  idem_key = [];
}

abbrev or_blank : Result AccrueResult → AccrueResult
or_blank (ok r) = r
or_blank (err e) = record {
  order_key = record { tenant_id = pos 0; order_id = [] };
  attributed = false;
  agent_user_id = pos 0;
  commissions = [];
  replayed = false;
  unallocated_base = pos 0;
  skipped = [];
}

abbrev test_result : AccrueResult
test_result = or_blank (on_order_paid order_ledger test_order test_ctx bound_store).0

-- 5 % and 2 % of 900.
order_total : total test_result.commissions ≡ 63
unfolding distledger.Memory.Tx.pure distledger.Memory.Tx.raise distledger.Memory.Tx.lift
    distledger.Memory.Tx.gets distledger.Memory.Tx.◌>>=◌ distledger.Memory.Tx.recover
    distledger.Memory.Tx.if_some distledger.Memory.Tx.raise_if distledger.Memory.Tx.check_ctx
    distledger.Memory.Tx.or_raise distledger.Memory.Tx.set_agent distledger.Memory.Tx.set_binding
    distledger.Memory.Tx.set_account distledger.Memory.Tx.set_commission
    distledger.Memory.Tx.set_ledger distledger.Memory.Tx.set_idem distledger.Memory.Tx.set_refund
    distledger.Memory.Tx.set_refund_idem distledger.Memory.Tx.set_withdrawal
    distledger.Memory.Tx.set_withdraw_idem distledger.Memory.Tx.push_by_order
    distledger.Memory.Tx.push_by_agent distledger.Memory.Tx.push_refunds_by_order
    distledger.Memory.Tx.push_ledger_by_user distledger.Memory.Tx.push_ledger_by_tenant
    distledger.Memory.Tx.push_ledger_id distledger.Memory.Tx.push_commission_id
    distledger.Memory.Tx.push_withdrawal_id distledger.Memory.Tx.fresh_id
    distledger.Memory.Tx.search_from distledger.Memory.Tx.insert_due distledger.Memory.Tx.remove_due
    distledger.Memory.Tx.insert_account_id distledger.Memory.Undo.rollback
    distledger.Memory.Reader.agent distledger.Memory.Reader.binding distledger.Memory.Reader.account
    distledger.Memory.Reader.commission distledger.Memory.Reader.commissions_by_order
    distledger.Memory.Reader.refunds_by_order distledger.Memory.Reader.collect_due
    distledger.Memory.Reader.due_commissions distledger.Memory.Reader.withdrawal_by_id
    distledger.Memory.Reader.withdrawal_by_idem_key distledger.Memory.Writer.put_agent
    distledger.Memory.Writer.put_binding distledger.Memory.Writer.put_account
    distledger.Memory.Writer.increment_account distledger.Memory.Writer.check_new_commission
    distledger.Memory.Writer.append_commission distledger.Memory.Writer.write_available_at
    distledger.Memory.Writer.set_commission_available_at
    distledger.Memory.Writer.set_commission_reversed_amount
    distledger.Memory.Writer.transition_commission distledger.Memory.Writer.append_refund
    distledger.Memory.Writer.append_ledger distledger.Memory.Store.update
    distledger.Memory.Store.view distledger.Engine.Accrual.credit_accrual
    distledger.Engine.Accrual.credit_added distledger.Engine.Accrual.accrue_amount
    distledger.Engine.Accrual.accrue_agent distledger.Engine.Accrual.accrue_levels
    distledger.Engine.Accrual.accrue_base distledger.Engine.Accrual.accrue_bases
    distledger.Engine.Accrual.accrue_first distledger.Engine.Accrual.accrue_bound
    distledger.Engine.Accrual.accrue_order distledger.Engine.Accrual.paid_tx
    distledger.Engine.Accrual.on_order_paid distledger.Engine.Config.default_rates
    distledger.Engine.Config.default_elig distledger.Engine.Config.new_ledger
    distledger.Events.validate_items distledger.Events.validate_paid
    distledger.Events.validate_received distledger.Events.validate_refunded
    distledger.Events.accrued_amount distledger.Idem.i64s distledger.Idem.encode_parts
    distledger.Idem.hash_parts distledger.Idem.accrue_idem_key distledger.Idem.reverse_idem_key
    distledger.Idem.withdraw_idem_key distledger.Idem.refund_idem_key
    distledger.Idem.validate_idem_key_override distledger.Money.add distledger.Money.sub
    distledger.Money.neg distledger.Money.abs_uint64 distledger.Money.apply distledger.Money.mul_div
    distledger.Money.Print.money_text distledger.Money.Print.rate_text distledger.SafeMath.mul_div
    distledger.SafeMath.add distledger.SafeMath.sub distledger.SafeMath.neg distledger.Word.wrap64
    distledger.Base.Int.◌+ℤ◌ distledger.Base.Int.◌-ℤ◌ distledger.Account.apply_delta
    distledger.Agent.effective distledger.Rules.Snapshot.describe
    distledger.Rules.Snapshot.rules_version distledger.Commission.commission_terminal
    distledger.Commission.can_transition_commission
    distledger.Commission.validate_commission_transition distledger.Commission.outstanding_amount
    distledger.Commission.max_reversible distledger.Commission.fully_reversed
    distledger.Commission.due_at distledger.Clock.add_days
order_total = refl

order_accrued : (on_order_paid order_ledger test_order test_ctx bound_store).0 ≡ ok test_result
unfolding distledger.Memory.Tx.pure distledger.Memory.Tx.raise distledger.Memory.Tx.lift
    distledger.Memory.Tx.gets distledger.Memory.Tx.◌>>=◌ distledger.Memory.Tx.recover
    distledger.Memory.Tx.if_some distledger.Memory.Tx.raise_if distledger.Memory.Tx.check_ctx
    distledger.Memory.Tx.or_raise distledger.Memory.Tx.set_agent distledger.Memory.Tx.set_binding
    distledger.Memory.Tx.set_account distledger.Memory.Tx.set_commission
    distledger.Memory.Tx.set_ledger distledger.Memory.Tx.set_idem distledger.Memory.Tx.set_refund
    distledger.Memory.Tx.set_refund_idem distledger.Memory.Tx.set_withdrawal
    distledger.Memory.Tx.set_withdraw_idem distledger.Memory.Tx.push_by_order
    distledger.Memory.Tx.push_by_agent distledger.Memory.Tx.push_refunds_by_order
    distledger.Memory.Tx.push_ledger_by_user distledger.Memory.Tx.push_ledger_by_tenant
    distledger.Memory.Tx.push_ledger_id distledger.Memory.Tx.push_commission_id
    distledger.Memory.Tx.push_withdrawal_id distledger.Memory.Tx.fresh_id
    distledger.Memory.Tx.search_from distledger.Memory.Tx.insert_due distledger.Memory.Tx.remove_due
    distledger.Memory.Tx.insert_account_id distledger.Memory.Undo.rollback
    distledger.Memory.Reader.agent distledger.Memory.Reader.binding distledger.Memory.Reader.account
    distledger.Memory.Reader.commission distledger.Memory.Reader.commissions_by_order
    distledger.Memory.Reader.refunds_by_order distledger.Memory.Reader.collect_due
    distledger.Memory.Reader.due_commissions distledger.Memory.Reader.withdrawal_by_id
    distledger.Memory.Reader.withdrawal_by_idem_key distledger.Memory.Writer.put_agent
    distledger.Memory.Writer.put_binding distledger.Memory.Writer.put_account
    distledger.Memory.Writer.increment_account distledger.Memory.Writer.check_new_commission
    distledger.Memory.Writer.append_commission distledger.Memory.Writer.write_available_at
    distledger.Memory.Writer.set_commission_available_at
    distledger.Memory.Writer.set_commission_reversed_amount
    distledger.Memory.Writer.transition_commission distledger.Memory.Writer.append_refund
    distledger.Memory.Writer.append_ledger distledger.Memory.Store.update
    distledger.Memory.Store.view distledger.Engine.Accrual.credit_accrual
    distledger.Engine.Accrual.credit_added distledger.Engine.Accrual.accrue_amount
    distledger.Engine.Accrual.accrue_agent distledger.Engine.Accrual.accrue_levels
    distledger.Engine.Accrual.accrue_base distledger.Engine.Accrual.accrue_bases
    distledger.Engine.Accrual.accrue_first distledger.Engine.Accrual.accrue_bound
    distledger.Engine.Accrual.accrue_order distledger.Engine.Accrual.paid_tx
    distledger.Engine.Accrual.on_order_paid distledger.Engine.Config.default_rates
    distledger.Engine.Config.default_elig distledger.Engine.Config.new_ledger
    distledger.Events.validate_items distledger.Events.validate_paid
    distledger.Events.validate_received distledger.Events.validate_refunded
    distledger.Events.accrued_amount distledger.Idem.i64s distledger.Idem.encode_parts
    distledger.Idem.hash_parts distledger.Idem.accrue_idem_key distledger.Idem.reverse_idem_key
    distledger.Idem.withdraw_idem_key distledger.Idem.refund_idem_key
    distledger.Idem.validate_idem_key_override distledger.Money.add distledger.Money.sub
    distledger.Money.neg distledger.Money.abs_uint64 distledger.Money.apply distledger.Money.mul_div
    distledger.Money.Print.money_text distledger.Money.Print.rate_text distledger.SafeMath.mul_div
    distledger.SafeMath.add distledger.SafeMath.sub distledger.SafeMath.neg distledger.Word.wrap64
    distledger.Base.Int.◌+ℤ◌ distledger.Base.Int.◌-ℤ◌ distledger.Account.apply_delta
    distledger.Agent.effective distledger.Rules.Snapshot.describe
    distledger.Rules.Snapshot.rules_version distledger.Commission.commission_terminal
    distledger.Commission.can_transition_commission
    distledger.Commission.validate_commission_transition distledger.Commission.outstanding_amount
    distledger.Commission.max_reversible distledger.Commission.fully_reversed
    distledger.Commission.due_at distledger.Clock.add_days
order_accrued = refl

on_order_paid-solvent_example : total test_result.commissions ≤ 1000
on_order_paid-solvent_example =
    on_order_paid-solvent order_ledger test_order test_ctx bound_store test_result
      (omega arith, omega arith) (omega arith, omega arith) ((omega arith, omega arith), tt)
      order_accrued

abbrev accrued_first : Commission
accrued_first =
    accrued_commission order_ledger test_order (record { item_id = text "a"; amount = pos 900 })
      (pos 1) (pos 7) (pos 500) (pos 45)

abbrev agent_account : Account
agent_account = record (zero_account (record { tenant_id = pos 1; user_id = pos 7 })) {
  frozen = pos 45;
  total_earned = pos 45;
}

abbrev due_commission : Commission
due_commission = record accrued_first { id = pos 1; available_at = pos 990 }

-- A store with one commission, which is due, and its account.
abbrev pub due_data : Data
due_data = record bound_data {
  commissions = insert (pos 1) due_commission bound_data.commissions;
  by_order =
      insert (record { tenant_id = pos 1; order_id = text "o-1" }) (pos 1 ∷ []) bound_data.by_order;
  pending_due = record { tenant_id = pos 1; at = pos 990; id = pos 1 } ∷ [];
  accounts = insert agent_account.key agent_account bound_data.accounts;
  next_id = pos 1;
}

abbrev due_store : Store
due_store = record new_store { data_of = due_data }

on_order_paid-replayed_example :
    (on_order_paid order_ledger test_order test_ctx due_store).1.data_of ≡ due_data
on_order_paid-replayed_example =
    on_order_paid-replayed order_ledger test_order test_ctx due_store due_commission [] refl

maintain-budget_example :
    (maintain order_ledger (λ n. test_ctx) due_store).total.settled_count
      + (maintain order_ledger (λ n. test_ctx) due_store).left
    ≡ 20000
maintain-budget_example = maintain-budget order_ledger (λ n. test_ctx) due_store

due_store-AreCovered : AreCovered (due_data.accounts)
due_store-AreCovered =
    AreCovered-insert bound_data.accounts agent_account.key agent_account
      (record { each = λ key a e. cc })
      (record {
        covered = (omega arith, omega arith, omega arith, omega arith);
        fits = record {
          frozen_fits = (omega arith, omega arith);
          available_fits = (omega arith, omega arith);
          withdrawing_fits = (omega arith, omega arith);
          withdrawn_fits = (omega arith, omega arith);
          earned_fits = (omega arith, omega arith);
          reversed_fits = (omega arith, omega arith);
        };
      })

maintain-AreCovered_example :
    AreCovered (maintain order_ledger (λ n. test_ctx) due_store).store.data_of.accounts
maintain-AreCovered_example =
    maintain-AreCovered order_ledger (λ n. test_ctx) due_store refl due_store-AreCovered

abbrev test_enrolment : BindAgentRequest
test_enrolment = record {
  tenant_id = pos 1;
  user_id = pos 9;
  parent_id = pos 7;
  join_type = free;
  status = active;
  rate_override_bp = none;
}

add_agent-IsDepth_example :
    Returns (λ a. (pos 1 ≤ℤ a.depth) × (a.depth ≤ℤ pos 3)) (add_agent order_ledger test_enrolment)
add_agent-IsDepth_example = add_agent-IsDepth order_ledger test_enrolment

resolve_depth-terminates_example :
    resolve_depth 7 (record { tenant_id = pos 1; user_id = pos 9 }) (pos 1) [] (pos 7)
    ≡ resolve_depth 4 (record { tenant_id = pos 1; user_id = pos 9 }) (pos 1) [] (pos 7)
resolve_depth-terminates_example =
    resolve_depth-terminates 3 (record { tenant_id = pos 1; user_id = pos 9 }) (pos 7)

abbrev test_config : Config
test_config = record {
  has_store = true;
  rules = test_rules;
  now = pos 1000;
  digest = backwards;
  rate_resolver = none;
  eligibility = none;
}

-- A fee of 200 %.
abbrev fee_config : Config
fee_config = record test_config { rules = record test_rules { fee_rate_bp = pos 20000 } }

fee_normalized : normalize fee_config.rules ≡ some fee_config.rules
unfolding normalize
fee_normalized = refl

new_ledger_iff_example :
    ((l : Ledger) × (new_ledger fee_config ≡ some (ok l)) × (l.rules ≡ fee_config.rules))
    ↔ IsConsistent fee_config.rules
new_ledger_iff_example = new_ledger_iff fee_config fee_config.rules refl fee_normalized

-- `New` accepts it.
fee_accepted : validate fee_config.rules ≡ ok tt
unfolding validate distledger.Word.wrap64 distledger.Base.Int.◌+ℤ◌
fee_accepted = refl

validate_paid_passed : validate_paid test_order ≡ ok tt
unfolding distledger.Memory.Tx.pure distledger.Memory.Tx.raise distledger.Memory.Tx.lift
    distledger.Memory.Tx.gets distledger.Memory.Tx.◌>>=◌ distledger.Memory.Tx.recover
    distledger.Memory.Tx.if_some distledger.Memory.Tx.raise_if distledger.Memory.Tx.check_ctx
    distledger.Memory.Tx.or_raise distledger.Memory.Tx.set_agent distledger.Memory.Tx.set_binding
    distledger.Memory.Tx.set_account distledger.Memory.Tx.set_commission
    distledger.Memory.Tx.set_ledger distledger.Memory.Tx.set_idem distledger.Memory.Tx.set_refund
    distledger.Memory.Tx.set_refund_idem distledger.Memory.Tx.set_withdrawal
    distledger.Memory.Tx.set_withdraw_idem distledger.Memory.Tx.push_by_order
    distledger.Memory.Tx.push_by_agent distledger.Memory.Tx.push_refunds_by_order
    distledger.Memory.Tx.push_ledger_by_user distledger.Memory.Tx.push_ledger_by_tenant
    distledger.Memory.Tx.push_ledger_id distledger.Memory.Tx.push_commission_id
    distledger.Memory.Tx.push_withdrawal_id distledger.Memory.Tx.fresh_id
    distledger.Memory.Tx.search_from distledger.Memory.Tx.insert_due distledger.Memory.Tx.remove_due
    distledger.Memory.Tx.insert_account_id distledger.Memory.Undo.rollback
    distledger.Memory.Reader.agent distledger.Memory.Reader.binding distledger.Memory.Reader.account
    distledger.Memory.Reader.commission distledger.Memory.Reader.commissions_by_order
    distledger.Memory.Reader.refunds_by_order distledger.Memory.Reader.collect_due
    distledger.Memory.Reader.due_commissions distledger.Memory.Reader.withdrawal_by_id
    distledger.Memory.Reader.withdrawal_by_idem_key distledger.Memory.Writer.put_agent
    distledger.Memory.Writer.put_binding distledger.Memory.Writer.put_account
    distledger.Memory.Writer.increment_account distledger.Memory.Writer.check_new_commission
    distledger.Memory.Writer.append_commission distledger.Memory.Writer.write_available_at
    distledger.Memory.Writer.set_commission_available_at
    distledger.Memory.Writer.set_commission_reversed_amount
    distledger.Memory.Writer.transition_commission distledger.Memory.Writer.append_refund
    distledger.Memory.Writer.append_ledger distledger.Memory.Store.update
    distledger.Memory.Store.view distledger.Engine.Accrual.credit_accrual
    distledger.Engine.Accrual.credit_added distledger.Engine.Accrual.accrue_amount
    distledger.Engine.Accrual.accrue_agent distledger.Engine.Accrual.accrue_levels
    distledger.Engine.Accrual.accrue_base distledger.Engine.Accrual.accrue_bases
    distledger.Engine.Accrual.accrue_first distledger.Engine.Accrual.accrue_bound
    distledger.Engine.Accrual.accrue_order distledger.Engine.Accrual.paid_tx
    distledger.Engine.Accrual.on_order_paid distledger.Engine.Config.default_rates
    distledger.Engine.Config.default_elig distledger.Engine.Config.new_ledger
    distledger.Events.validate_items distledger.Events.validate_paid
    distledger.Events.validate_received distledger.Events.validate_refunded
    distledger.Events.accrued_amount distledger.Idem.i64s distledger.Idem.encode_parts
    distledger.Idem.hash_parts distledger.Idem.accrue_idem_key distledger.Idem.reverse_idem_key
    distledger.Idem.withdraw_idem_key distledger.Idem.refund_idem_key
    distledger.Idem.validate_idem_key_override distledger.Money.add distledger.Money.sub
    distledger.Money.neg distledger.Money.abs_uint64 distledger.Money.apply distledger.Money.mul_div
    distledger.Money.Print.money_text distledger.Money.Print.rate_text distledger.SafeMath.mul_div
    distledger.SafeMath.add distledger.SafeMath.sub distledger.SafeMath.neg distledger.Word.wrap64
    distledger.Base.Int.◌+ℤ◌ distledger.Base.Int.◌-ℤ◌ distledger.Account.apply_delta
    distledger.Agent.effective distledger.Rules.Snapshot.describe
    distledger.Rules.Snapshot.rules_version distledger.Commission.commission_terminal
    distledger.Commission.can_transition_commission
    distledger.Commission.validate_commission_transition distledger.Commission.outstanding_amount
    distledger.Commission.max_reversible distledger.Commission.fully_reversed
    distledger.Commission.due_at distledger.Clock.add_days
validate_paid_passed = refl

validate_paid-IsPayable_example : IsPayable test_order
validate_paid-IsPayable_example =
    validate_paid-IsPayable test_order ((omega arith, omega arith), tt) validate_paid_passed

-- A refund of 100 for the order, against one item.
abbrev test_refund : OrderRefundedEvent
test_refund = record {
  tenant_id = pos 1;
  order_id = text "o-1";
  is_full = false;
  items = [];
  amount = pos 100;
  refunded_at = pos 950;
  idem_key = text "r-1";
}

abbrev test_accruals : List Commission
test_accruals = accrued_first ∷ []

accrued_first-base : (id : Text) → pos 0 ≤ℤ base_of (group id test_accruals)
accrued_first-base id =
    elim (text_eqb (text "a") id)
      as (λ b. pos 0 ≤ℤ base_of (if b then accrued_first ∷ [] else [])) [
        | true ↦ omega arith
        | false ↦ omega arith
      ]

abbrev shares_or_none : Result Shares → Shares
shares_or_none (ok m) = m
shares_or_none (err e) = no_shares

refund_shared :
    refund_shares test_refund test_accruals
    ≡ ok (shares_or_none (refund_shares test_refund test_accruals))
unfolding distledger.Memory.Tx.pure distledger.Memory.Tx.raise distledger.Memory.Tx.lift
    distledger.Memory.Tx.gets distledger.Memory.Tx.◌>>=◌ distledger.Memory.Tx.recover
    distledger.Memory.Tx.if_some distledger.Memory.Tx.raise_if distledger.Memory.Tx.check_ctx
    distledger.Memory.Tx.or_raise distledger.Memory.Tx.set_agent distledger.Memory.Tx.set_binding
    distledger.Memory.Tx.set_account distledger.Memory.Tx.set_commission
    distledger.Memory.Tx.set_ledger distledger.Memory.Tx.set_idem distledger.Memory.Tx.set_refund
    distledger.Memory.Tx.set_refund_idem distledger.Memory.Tx.set_withdrawal
    distledger.Memory.Tx.set_withdraw_idem distledger.Memory.Tx.push_by_order
    distledger.Memory.Tx.push_by_agent distledger.Memory.Tx.push_refunds_by_order
    distledger.Memory.Tx.push_ledger_by_user distledger.Memory.Tx.push_ledger_by_tenant
    distledger.Memory.Tx.push_ledger_id distledger.Memory.Tx.push_commission_id
    distledger.Memory.Tx.push_withdrawal_id distledger.Memory.Tx.fresh_id
    distledger.Memory.Tx.search_from distledger.Memory.Tx.insert_due distledger.Memory.Tx.remove_due
    distledger.Memory.Tx.insert_account_id distledger.Memory.Undo.rollback
    distledger.Memory.Reader.agent distledger.Memory.Reader.binding distledger.Memory.Reader.account
    distledger.Memory.Reader.commission distledger.Memory.Reader.commissions_by_order
    distledger.Memory.Reader.refunds_by_order distledger.Memory.Reader.collect_due
    distledger.Memory.Reader.due_commissions distledger.Memory.Reader.withdrawal_by_id
    distledger.Memory.Reader.withdrawal_by_idem_key distledger.Memory.Writer.put_agent
    distledger.Memory.Writer.put_binding distledger.Memory.Writer.put_account
    distledger.Memory.Writer.increment_account distledger.Memory.Writer.check_new_commission
    distledger.Memory.Writer.append_commission distledger.Memory.Writer.write_available_at
    distledger.Memory.Writer.set_commission_available_at
    distledger.Memory.Writer.set_commission_reversed_amount
    distledger.Memory.Writer.transition_commission distledger.Memory.Writer.append_refund
    distledger.Memory.Writer.append_ledger distledger.Memory.Store.update
    distledger.Memory.Store.view distledger.Engine.Accrual.credit_accrual
    distledger.Engine.Accrual.credit_added distledger.Engine.Accrual.accrue_amount
    distledger.Engine.Accrual.accrue_agent distledger.Engine.Accrual.accrue_levels
    distledger.Engine.Accrual.accrue_base distledger.Engine.Accrual.accrue_bases
    distledger.Engine.Accrual.accrue_first distledger.Engine.Accrual.accrue_bound
    distledger.Engine.Accrual.accrue_order distledger.Engine.Accrual.paid_tx
    distledger.Engine.Accrual.on_order_paid distledger.Engine.Config.default_rates
    distledger.Engine.Config.default_elig distledger.Engine.Config.new_ledger
    distledger.Events.validate_items distledger.Events.validate_paid
    distledger.Events.validate_received distledger.Events.validate_refunded
    distledger.Events.accrued_amount distledger.Idem.i64s distledger.Idem.encode_parts
    distledger.Idem.hash_parts distledger.Idem.accrue_idem_key distledger.Idem.reverse_idem_key
    distledger.Idem.withdraw_idem_key distledger.Idem.refund_idem_key
    distledger.Idem.validate_idem_key_override distledger.Money.add distledger.Money.sub
    distledger.Money.neg distledger.Money.abs_uint64 distledger.Money.apply distledger.Money.mul_div
    distledger.Money.Print.money_text distledger.Money.Print.rate_text distledger.SafeMath.mul_div
    distledger.SafeMath.add distledger.SafeMath.sub distledger.SafeMath.neg distledger.Word.wrap64
    distledger.Base.Int.◌+ℤ◌ distledger.Base.Int.◌-ℤ◌ distledger.Account.apply_delta
    distledger.Agent.effective distledger.Rules.Snapshot.describe
    distledger.Rules.Snapshot.rules_version distledger.Commission.commission_terminal
    distledger.Commission.can_transition_commission
    distledger.Commission.validate_commission_transition distledger.Commission.outstanding_amount
    distledger.Commission.max_reversible distledger.Commission.fully_reversed
    distledger.Commission.due_at distledger.Clock.add_days refund_shares total_base order_shares
    item_shares
refund_shared = refl

refund_shares-AreShares_example :
    AreShares test_accruals (shares_or_none (refund_shares test_refund test_accruals))
refund_shares-AreShares_example =
    refund_shares-AreShares test_refund test_accruals
      (shares_or_none (refund_shares test_refund test_accruals)) accrued_first-base tt refund_shared

due_settled : (maintain order_ledger (λ n. test_ctx) due_store).total.settled_count ≡ 1
unfolding distledger.Memory.Tx.pure distledger.Memory.Tx.raise distledger.Memory.Tx.lift
    distledger.Memory.Tx.gets distledger.Memory.Tx.◌>>=◌ distledger.Memory.Tx.recover
    distledger.Memory.Tx.if_some distledger.Memory.Tx.raise_if distledger.Memory.Tx.check_ctx
    distledger.Memory.Tx.or_raise distledger.Memory.Tx.set_agent distledger.Memory.Tx.set_binding
    distledger.Memory.Tx.set_account distledger.Memory.Tx.set_commission
    distledger.Memory.Tx.set_ledger distledger.Memory.Tx.set_idem distledger.Memory.Tx.set_refund
    distledger.Memory.Tx.set_refund_idem distledger.Memory.Tx.set_withdrawal
    distledger.Memory.Tx.set_withdraw_idem distledger.Memory.Tx.push_by_order
    distledger.Memory.Tx.push_by_agent distledger.Memory.Tx.push_refunds_by_order
    distledger.Memory.Tx.push_ledger_by_user distledger.Memory.Tx.push_ledger_by_tenant
    distledger.Memory.Tx.push_ledger_id distledger.Memory.Tx.push_commission_id
    distledger.Memory.Tx.push_withdrawal_id distledger.Memory.Tx.fresh_id
    distledger.Memory.Tx.search_from distledger.Memory.Tx.insert_due distledger.Memory.Tx.remove_due
    distledger.Memory.Tx.insert_account_id distledger.Memory.Undo.rollback
    distledger.Memory.Reader.agent distledger.Memory.Reader.binding distledger.Memory.Reader.account
    distledger.Memory.Reader.commission distledger.Memory.Reader.commissions_by_order
    distledger.Memory.Reader.refunds_by_order distledger.Memory.Reader.collect_due
    distledger.Memory.Reader.due_commissions distledger.Memory.Reader.withdrawal_by_id
    distledger.Memory.Reader.withdrawal_by_idem_key distledger.Memory.DueWork.sift_down
    distledger.Memory.DueWork.heapify distledger.Memory.DueWork.add_candidate
    distledger.Memory.DueWork.due_candidates distledger.Memory.DueWork.due_work
    distledger.Memory.Writer.put_agent distledger.Memory.Writer.put_binding
    distledger.Memory.Writer.put_account distledger.Memory.Writer.increment_account
    distledger.Memory.Writer.check_new_commission distledger.Memory.Writer.append_commission
    distledger.Memory.Writer.write_available_at distledger.Memory.Writer.set_commission_available_at
    distledger.Memory.Writer.set_commission_reversed_amount
    distledger.Memory.Writer.transition_commission distledger.Memory.Writer.append_refund
    distledger.Memory.Writer.append_ledger distledger.Memory.Store.update
    distledger.Memory.Store.view distledger.Engine.Accrual.credit_accrual
    distledger.Engine.Accrual.credit_added distledger.Engine.Accrual.accrue_amount
    distledger.Engine.Accrual.accrue_agent distledger.Engine.Accrual.accrue_levels
    distledger.Engine.Accrual.accrue_base distledger.Engine.Accrual.accrue_bases
    distledger.Engine.Accrual.accrue_first distledger.Engine.Accrual.accrue_bound
    distledger.Engine.Accrual.accrue_order distledger.Engine.Accrual.paid_tx
    distledger.Engine.Accrual.on_order_paid distledger.Engine.Movement.move
    distledger.Engine.Settle.settle_one distledger.Engine.Settle.settle_due
    distledger.Engine.Settle.settle_batch distledger.Engine.Settle.maintain_tx
    distledger.Engine.Settle.maintain_round distledger.Engine.Maintain.maintain_tenant
    distledger.Engine.Maintain.group_by_tenant distledger.Engine.Maintain.maintain_group
    distledger.Engine.Maintain.maintain_groups distledger.Engine.Maintain.after_read
    distledger.Engine.Maintain.maintain_rounds distledger.Engine.Maintain.maintain
    distledger.Engine.Refund.count_reversal distledger.Engine.Refund.reverse_one
    distledger.Engine.Refund.reverse_all distledger.Engine.Refund.reverse_item
    distledger.Engine.Refund.refund_item distledger.Engine.Refund.refund_items
    distledger.Engine.Refund.refund_accruals distledger.Engine.Refund.refund_order
    distledger.Engine.Refund.refunded_tx distledger.Engine.Refund.on_order_refunded
    distledger.Engine.Shares.item_shares distledger.Engine.Shares.total_base
    distledger.Engine.Shares.order_shares distledger.Engine.Shares.refund_shares
    distledger.Engine.Clawback.reversal_delta distledger.Engine.Clawback.take_debt
    distledger.Engine.Clawback.debit_bucket distledger.Engine.Clawback.claw_back
    distledger.Idem.i64s distledger.Idem.encode_parts distledger.Idem.hash_parts
    distledger.Idem.accrue_idem_key distledger.Idem.reverse_idem_key
    distledger.Idem.withdraw_idem_key distledger.Idem.refund_idem_key
    distledger.Idem.validate_idem_key_override distledger.Money.add distledger.Money.sub
    distledger.Money.neg distledger.Money.abs_uint64 distledger.Money.apply distledger.Money.mul_div
    distledger.Money.Print.money_text distledger.Money.Print.rate_text distledger.SafeMath.mul_div
    distledger.SafeMath.add distledger.SafeMath.sub distledger.SafeMath.neg distledger.Word.wrap64
    distledger.Base.Int.◌+ℤ◌ distledger.Base.Int.◌-ℤ◌ distledger.Account.apply_delta
    distledger.Commission.commission_terminal distledger.Commission.can_transition_commission
    distledger.Commission.validate_commission_transition distledger.Commission.outstanding_amount
    distledger.Commission.max_reversible distledger.Commission.fully_reversed
    distledger.Commission.due_at distledger.Clock.add_days distledger.Events.validate_items
    distledger.Events.validate_paid distledger.Events.validate_received
    distledger.Events.validate_refunded distledger.Events.accrued_amount
due_settled = refl

abbrev reversed_of : Result RefundResult → ℤ
reversed_of (ok r) = r.reversed_amount
reversed_of (err e) = pos 0

-- A ninth of the base is refunded: a ninth of the commission is taken back.
refund_reversed :
    reversed_of (on_order_refunded order_ledger test_refund test_ctx due_store).0 ≡ pos 5
unfolding distledger.Memory.Tx.pure distledger.Memory.Tx.raise distledger.Memory.Tx.lift
    distledger.Memory.Tx.gets distledger.Memory.Tx.◌>>=◌ distledger.Memory.Tx.recover
    distledger.Memory.Tx.if_some distledger.Memory.Tx.raise_if distledger.Memory.Tx.check_ctx
    distledger.Memory.Tx.or_raise distledger.Memory.Tx.set_agent distledger.Memory.Tx.set_binding
    distledger.Memory.Tx.set_account distledger.Memory.Tx.set_commission
    distledger.Memory.Tx.set_ledger distledger.Memory.Tx.set_idem distledger.Memory.Tx.set_refund
    distledger.Memory.Tx.set_refund_idem distledger.Memory.Tx.set_withdrawal
    distledger.Memory.Tx.set_withdraw_idem distledger.Memory.Tx.push_by_order
    distledger.Memory.Tx.push_by_agent distledger.Memory.Tx.push_refunds_by_order
    distledger.Memory.Tx.push_ledger_by_user distledger.Memory.Tx.push_ledger_by_tenant
    distledger.Memory.Tx.push_ledger_id distledger.Memory.Tx.push_commission_id
    distledger.Memory.Tx.push_withdrawal_id distledger.Memory.Tx.fresh_id
    distledger.Memory.Tx.search_from distledger.Memory.Tx.insert_due distledger.Memory.Tx.remove_due
    distledger.Memory.Tx.insert_account_id distledger.Memory.Undo.rollback
    distledger.Memory.Reader.agent distledger.Memory.Reader.binding distledger.Memory.Reader.account
    distledger.Memory.Reader.commission distledger.Memory.Reader.commissions_by_order
    distledger.Memory.Reader.refunds_by_order distledger.Memory.Reader.collect_due
    distledger.Memory.Reader.due_commissions distledger.Memory.Reader.withdrawal_by_id
    distledger.Memory.Reader.withdrawal_by_idem_key distledger.Memory.Writer.put_agent
    distledger.Memory.Writer.put_binding distledger.Memory.Writer.put_account
    distledger.Memory.Writer.increment_account distledger.Memory.Writer.check_new_commission
    distledger.Memory.Writer.append_commission distledger.Memory.Writer.write_available_at
    distledger.Memory.Writer.set_commission_available_at
    distledger.Memory.Writer.set_commission_reversed_amount
    distledger.Memory.Writer.transition_commission distledger.Memory.Writer.append_refund
    distledger.Memory.Writer.append_ledger distledger.Memory.Store.update
    distledger.Memory.Store.view distledger.Engine.Movement.move
    distledger.Engine.Refund.count_reversal distledger.Engine.Refund.reverse_one
    distledger.Engine.Refund.reverse_all distledger.Engine.Refund.reverse_item
    distledger.Engine.Refund.refund_item distledger.Engine.Refund.refund_items
    distledger.Engine.Refund.refund_accruals distledger.Engine.Refund.refund_order
    distledger.Engine.Refund.refunded_tx distledger.Engine.Refund.on_order_refunded
    distledger.Engine.Shares.item_shares distledger.Engine.Shares.total_base
    distledger.Engine.Shares.order_shares distledger.Engine.Shares.refund_shares
    distledger.Engine.Clawback.reversal_delta distledger.Engine.Clawback.take_debt
    distledger.Engine.Clawback.debit_bucket distledger.Engine.Clawback.claw_back
    distledger.Idem.i64s distledger.Idem.encode_parts distledger.Idem.hash_parts
    distledger.Idem.accrue_idem_key distledger.Idem.reverse_idem_key
    distledger.Idem.withdraw_idem_key distledger.Idem.refund_idem_key
    distledger.Idem.validate_idem_key_override distledger.Money.add distledger.Money.sub
    distledger.Money.neg distledger.Money.abs_uint64 distledger.Money.apply distledger.Money.mul_div
    distledger.Money.Print.money_text distledger.Money.Print.rate_text distledger.SafeMath.mul_div
    distledger.SafeMath.add distledger.SafeMath.sub distledger.SafeMath.neg distledger.Word.wrap64
    distledger.Base.Int.◌+ℤ◌ distledger.Base.Int.◌-ℤ◌ distledger.Account.apply_delta
    distledger.Commission.commission_terminal distledger.Commission.can_transition_commission
    distledger.Commission.validate_commission_transition distledger.Commission.outstanding_amount
    distledger.Commission.max_reversible distledger.Commission.fully_reversed
    distledger.Commission.due_at distledger.Clock.add_days distledger.Events.validate_items
    distledger.Events.validate_paid distledger.Events.validate_received
    distledger.Events.validate_refunded distledger.Events.accrued_amount
refund_reversed = refl

-- A buyer of the agent 7 asks for the agent 8.
abbrev test_switch : BindBuyerRequest
test_switch = record {
  tenant_id = pos 1;
  buyer_user_id = pos 42;
  agent_user_id = pos 8;
  source = link;
  source_ref = [];
  bound_at = pos 990;
}

bind_buyer-locked_example :
    (bind_buyer order_ledger test_switch test_ctx bound_store).1.data_of ≡ bound_data
unfolding distledger.Agent.effective
bind_buyer-locked_example =
    bind_buyer-locked order_ledger test_switch test_ctx bound_store test_binding refl refl

due_work-AreDue_example : Returns (All (IsDue (pos 1000))) (due_work (pos 1000) (pos 10))
due_work-AreDue_example = due_work-AreDue (pos 1000) (pos 10)
