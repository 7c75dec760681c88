-- ===== src/Memory/Writer.antt =====
-- writer.go and withdraw.go: the writes of a transaction.
pub mod Withdrawals
pub mod Refused
pub mod Values
use distledger.Base.{
  ℕ, Bool, true, false, not, ◌&&◌, ◌||◌, Option, none, some, List, [], ◌∷◌, length, ltb,
  if◌then◌else◌,
}
use distledger.Base.Int.{ℤ, pos, ◌+ℤ◌, ltb_ℤ, leb_ℤ, ◌==ℤ◌}
use distledger.Account.{
  Account, AccountDelta, LedgerEntry, apply_delta, negative_buckets, settleable, zero_account,
  ledger_biz_type_valid, Bucket,
}
use distledger.Agent.{Agent, Binding, join_type_valid, agent_status_valid, bind_source_valid}
use distledger.Clock.{Time, is_zero}
use distledger.Money.{Money}
use distledger.Rules.Limits.{max_levels}
use distledger.Commission.{
  Commission, CommissionState, Refund, pending, frozen, same_state, commission_state_valid,
  max_reversible, validate_commission_transition,
}
use distledger.Errors.{
  Err, Result, ok, err, fail_if, not_found, duplicate, insufficient_balance, field_error,
  conflict_error,
}
use distledger.Keys.{
  UserKey, validate_user_key, validate_order_key, is_empty, max_remark_len, user_key_eq,
}
use distledger.Memory.Data.{Data, IdemRef}
use distledger.Memory.Reader.{account_or_zero}
use distledger.Memory.Tx.{
  Tx, Done, pure, raise, lift, gets, raise_if, check_ctx, or_raise, ◌>>=◌, ◌>>◌, set_agent,
  set_binding, set_account, set_commission, set_ledger, set_idem, set_refund, set_refund_idem,
  push_by_order, push_by_agent, push_refunds_by_order, push_ledger_by_user, push_ledger_by_tenant,
  push_ledger_id, push_commission_id, fresh_id, insert_due, remove_due, insert_account_id,
}

abbrev pub is_some : {A : Type 0} → Option A → Bool
is_some none = false
is_some (some a) = true

-- `dueTracked`
abbrev pub due_tracked : CommissionState → Bool
due_tracked s = same_state s pending || same_state s frozen

-- `checkVersion`: `actual` is the stored version, if the row exists.
abbrev pub check_version : ℤ → Option ℤ → Result Done
check_version expected none = fail_if (not (expected ==ℤ pos 0)) (conflict_error "version")
check_version expected (some actual) =
    fail_if (not (expected ==ℤ actual)) (conflict_error "version")

-- `tx.PutAgent`
unfoldable pub put_agent : Agent → Tx Agent
put_agent a = do
  check_ctx
  lift (validate_user_key a.key)
  raise_if (ltb_ℤ a.parent_id (pos 0)) (field_error "parent_id")
  raise_if (not (a.parent_id ==ℤ pos 0) && (a.parent_id ==ℤ a.key.user_id))
      (field_error "parent_id")
  raise_if (not (agent_status_valid a.status)) (field_error "status")
  raise_if (not (join_type_valid a.join_type)) (field_error "join_type")
  cur ← gets (λ d. d.agents a.key)
  lift (check_version a.version (elim cur [ none ↦ none | some c ↦ some c.version ]))
  let a' = record a { version = a.version +ℤ pos 1 }
  set_agent a.key a'
  pure a'

-- `tx.PutBinding`
unfoldable pub put_binding : Binding → Tx Binding
put_binding b = do
  check_ctx
  lift (validate_user_key b.buyer)
  raise_if (leb_ℤ b.agent_user_id (pos 0)) (field_error "agent_user_id")
  raise_if (not (bind_source_valid b.source)) (field_error "source")
  cur ← gets (λ d. d.bindings b.buyer)
  lift (check_version b.version (elim cur [ none ↦ none | some c ↦ some c.version ]))
  let b' = record b { version = b.version +ℤ pos 1 }
  set_binding b.buyer b'
  pure b'

-- `tx.PutAccount`
unfoldable pub put_account : Account → Tx Account
put_account a = do
  check_ctx
  lift (validate_user_key a.key)
  raise_if (not (settleable a)) (field_error "account")
  cur ← gets (λ d. d.accounts a.key)
  lift (check_version a.version (elim cur [ none ↦ none | some c ↦ some c.version ]))
  if is_some cur then pure tt else insert_account_id a.key
  let a' = record a { version = a.version +ℤ pos 1 }
  set_account a.key a'
  pure a'

-- `len(bad) > 0`
abbrev pub has_buckets : List Bucket → Bool
has_buckets [] = false
has_buckets (b ∷ bs) = true

-- `tx.IncrementAccount`
unfoldable pub increment_account : AccountDelta → Tx Account
increment_account delta = do
  check_ctx
  lift (validate_user_key delta.key)
  cur ← gets (λ d. d.accounts delta.key)
  let acct = account_or_zero delta.key cur
  updated ← lift (apply_delta delta (record acct { key = delta.key }))
  raise_if (delta.require_non_negative && has_buckets (negative_buckets updated))
      insufficient_balance
  if is_some cur then pure tt else insert_account_id delta.key
  let updated' = record updated { version = updated.version +ℤ pos 1 }
  set_account delta.key updated'
  pure updated'

-- The guards of `tx.AppendCommission`.
unfoldable pub check_new_commission : Commission → Tx Done
check_new_commission c = do
  check_ctx
  lift (validate_order_key c.key)
  raise_if (is_empty c.idem_key) (field_error "idem_key")
  raise_if (leb_ℤ c.agent_user_id (pos 0)) (field_error "agent_user_id")
  raise_if (ltb_ℤ c.layer (pos 1) || ltb_ℤ max_levels c.layer) (field_error "layer")
  raise_if (not (commission_state_valid c.state)) (field_error "state")
  raise_if (c.amount ==ℤ pos 0) (field_error "amount")
  raise_if (ltb_ℤ c.amount (pos 0) && leb_ℤ c.reverse_of (pos 0)) (field_error "reverse_of")
  raise_if (ltb_ℤ (pos 0) c.amount && not (c.reverse_of ==ℤ pos 0)) (field_error "reverse_of")
  raise_if (ltb_ℤ c.reversed_amount (pos 0) || ltb_ℤ (max_reversible c) c.reversed_amount)
      (field_error "reversed_amount")
  raise_if (ltb_ℤ c.reverse_of (pos 0)) (field_error "reverse_of")

-- `tx.AppendCommission`
unfoldable pub append_commission : Commission → Tx Commission
unfolding check_new_commission
append_commission c = do
  check_new_commission c
  let ref : IdemRef = record { tenant_id = c.key.tenant_id; key = c.idem_key }
  dup ← gets (λ d. d.idem ref)
  raise_if (is_some dup) duplicate
  id ← fresh_id
  let c' = record c { id = id }
  set_idem ref id
  set_commission id c'
  push_commission_id id
  push_by_order c.key id
  push_by_agent (record { tenant_id = c.key.tenant_id; user_id = c.agent_user_id }) id
  if due_tracked c.state && not (is_zero c.available_at)
      then insert_due c.key.tenant_id c.available_at id
      else pure tt
  pure c'

-- The write behind the guards of `tx.SetCommissionAvailableAt`.
unfoldable pub write_available_at : Commission → ℤ → Time → Tx Commission
write_available_at c id at = do
  let c' = record c { available_at = at; version = c.version +ℤ pos 1 }
  set_commission id c'
  if due_tracked c.state then insert_due c.key.tenant_id at id else pure tt
  pure c'

-- `tx.SetCommissionAvailableAt`
unfoldable pub set_commission_available_at : ℤ → Time → ℤ → Tx Commission
unfolding write_available_at
set_commission_available_at id at expected_version = do
  check_ctx
  c ← or_raise (← gets (λ d. d.commissions id)) not_found
  let changed = do
    raise_if (not (c.version ==ℤ expected_version)) (conflict_error "commission")
    write_available_at c id at
  if is_zero c.available_at then changed else pure c

-- `tx.SetCommissionReversedAmount`
unfoldable pub set_commission_reversed_amount : ℤ → Money → ℤ → Tx Commission
set_commission_reversed_amount id reversed expected_version = do
  check_ctx
  c ← or_raise (← gets (λ d. d.commissions id)) not_found
  raise_if (ltb_ℤ reversed (pos 0) || ltb_ℤ (max_reversible c) reversed)
      (field_error "reversed_amount")
  raise_if (not (c.version ==ℤ expected_version)) (conflict_error "commission")
  let c' = record c { reversed_amount = reversed; version = c.version +ℤ pos 1 }
  if c.reversed_amount ==ℤ reversed then pure c else set_commission id c' >> pure c'

-- `tx.TransitionCommission`
unfoldable pub transition_commission : ℤ → CommissionState → CommissionState → ℤ → Tx Commission
transition_commission id from to expected_version = do
  check_ctx
  c ← or_raise (← gets (λ d. d.commissions id)) not_found
  raise_if (not (same_state c.state from)) (conflict_error "commission state")
  raise_if (not (c.version ==ℤ expected_version)) (conflict_error "commission")
  lift (validate_commission_transition from to)
  let c' = record c { state = to; version = c.version +ℤ pos 1 }
  set_commission id c'
  if not (due_tracked to) && not (is_zero c.available_at)
      then remove_due c.key.tenant_id c.available_at id
      else pure tt
  pure c'

-- `tx.AppendRefund`
unfoldable pub append_refund : Refund → Tx Refund
append_refund r = do
  check_ctx
  lift (validate_order_key r.key)
  raise_if (is_empty r.idem_key) (field_error "idem_key")
  raise_if (leb_ℤ r.amount (pos 0)) (field_error "amount")
  raise_if (ltb_ℤ r.cumulative r.amount) (field_error "cumulative")
  let ref : IdemRef = record { tenant_id = r.key.tenant_id; key = r.idem_key }
  dup ← gets (λ d. d.refund_idem ref)
  raise_if (is_some dup) duplicate
  id ← fresh_id
  let r' = record r { id = id }
  set_refund_idem ref id
  set_refund id r'
  push_refunds_by_order r.key id
  pure r'

-- The write behind the guards of `tx.AppendLedger`.
unfoldable pub write_entry : LedgerEntry → Tx LedgerEntry
write_entry e = do
  id ← fresh_id
  let e' = record e { id = id }
  set_ledger id e'
  push_ledger_id id
  push_ledger_by_user e.key id
  push_ledger_by_tenant e.key.tenant_id id
  pure e'

-- `tx.AppendLedger`
unfoldable pub append_ledger : LedgerEntry → Tx LedgerEntry
unfolding write_entry
append_ledger e = do
  check_ctx
  lift (validate_user_key e.key)
  raise_if (not (ledger_biz_type_valid e.biz_type)) (field_error "biz_type")
  raise_if (ltb max_remark_len (length e.remark)) (field_error "remark")
  write_entry e
