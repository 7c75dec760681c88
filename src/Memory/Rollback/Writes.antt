-- ===== src/Memory/Rollback/Writes.antt =====
-- The undo log under the writes of a transaction.
use distledger.Base.{List, [], ◌∷◌, ◌++◌, inl, inr, not, Bool, Bool-cases}
use distledger.Base.Int.{ℤ}
use distledger.Base.Maps.{◌==◌}
use distledger.Account.{Account, LedgerEntry}
use distledger.Agent.{Agent, Binding}
use distledger.Clock.{Time}
use distledger.Commission.{Commission, Refund}
use distledger.Errors.{Err}
use distledger.Keys.{UserKey, OrderKey, int_eq, user_key_eq, order_key_eq}
use distledger.Memory.Data.{Data, IdemRef, DueRef, idem_ref_eq, same_due, due_less}
use distledger.Memory.Undo.{OrderedUndo}
use distledger.Memory.Undo.Restore.{
  MapTracks-write, IndexTracks-push, LengthTracks-push, OrderedTracks, OrderedTracks-push,
  OrderedTracks-change,
}
use distledger.Memory.Tx.{
  set_agent, set_binding, set_account, set_commission, set_ledger, set_idem, set_refund,
  set_refund_idem, set_withdrawal, set_withdraw_idem, push_by_order, push_by_agent,
  push_refunds_by_order, push_ledger_by_user, push_ledger_by_tenant, push_ledger_id,
  push_commission_id, push_withdrawal_id, fresh_id, insert_due, remove_due, insert_account_id, Edit,
  place_due, drop_due, place_account_id, account_at_least, search_from, due_ref,
}
use distledger.Memory.Tx.Rules.{Keeps}
use distledger.Withdrawal.{Withdrawal}
use distledger.Memory.Rollback.{Tracks}

-- An edit of a sorted slice keeps its undo record in step.
EditTracks : {T : Type 0} → List T → Edit T → Type 0
EditTracks xs0 (ys, u) = OrderedTracks u xs0 ys

place_due-tracks :
    (ref : DueRef) (p : List DueRef × List DueRef) (xs0 xs : List DueRef) (u : OrderedUndo DueRef)
    → OrderedTracks u xs0 xs
    → EditTracks xs0 (place_due ref p xs u)
unfolding EditTracks
place_due-tracks ref (lo, []) xs0 xs u h = OrderedTracks-push u xs0 xs ref h
place_due-tracks ref (lo, x ∷ hi) xs0 xs u h = OrderedTracks-change u xs0 xs _ h

drop_due-tracks :
    (ref : DueRef) (p : List DueRef × List DueRef) (xs0 xs : List DueRef) (u : OrderedUndo DueRef)
    → OrderedTracks u xs0 xs
    → EditTracks xs0 (drop_due ref p xs u)
unfolding EditTracks
drop_due-tracks ref (lo, []) xs0 xs u h = h
drop_due-tracks ref (lo, x ∷ hi) xs0 xs u h = elim (Bool-cases (same_due x ref)) [
  | inl e ↦ rw e (OrderedTracks-change u xs0 xs (lo ++ hi) h)
  | inr e ↦ rw e h
]

place_account_id-tracks :
    (key : UserKey) (p : List UserKey × List UserKey) (xs0 xs : List UserKey)
    (u : OrderedUndo UserKey)
    → OrderedTracks u xs0 xs
    → EditTracks xs0 (place_account_id key p xs u)
unfolding EditTracks
place_account_id-tracks key (lo, []) xs0 xs u h = OrderedTracks-push u xs0 xs key h
place_account_id-tracks key (lo, x ∷ hi) xs0 xs u h = elim (Bool-cases (x == key)) [
  | inl e ↦ rw e h
  | inr e ↦ rw e (OrderedTracks-change u xs0 xs (lo ++ (key ∷ x ∷ hi)) h)
]

module _ (d0 : Data) {C : Err → Bool} where
  pub agent-Tracks : (k : UserKey) (v : Agent) → Keeps (Tracks d0) C (set_agent k v)
  unfolding set_agent
  agent-Tracks k v = record {
    at = λ s h. assumption (MapTracks-write s.undo.agents d0.agents s.store.agents k v h.agents);
  }

  pub binding-Tracks : (k : UserKey) (v : Binding) → Keeps (Tracks d0) C (set_binding k v)
  unfolding set_binding
  binding-Tracks k v = record {
    at = λ s h.
        assumption (MapTracks-write s.undo.bindings d0.bindings s.store.bindings k v h.bindings);
  }

  pub account-Tracks : (k : UserKey) (v : Account) → Keeps (Tracks d0) C (set_account k v)
  unfolding set_account
  account-Tracks k v = record {
    at = λ s h.
        assumption (MapTracks-write s.undo.accounts d0.accounts s.store.accounts k v h.accounts);
  }

  pub commission-Tracks : (k : ℤ) (v : Commission) → Keeps (Tracks d0) C (set_commission k v)
  unfolding set_commission
  commission-Tracks k v = record {
    at = λ s h.
        assumption
          (MapTracks-write s.undo.commissions d0.commissions s.store.commissions k v h.commissions);
  }

  pub ledger-Tracks : (k : ℤ) (v : LedgerEntry) → Keeps (Tracks d0) C (set_ledger k v)
  unfolding set_ledger
  ledger-Tracks k v = record {
    at = λ s h. assumption (MapTracks-write s.undo.ledger d0.ledger s.store.ledger k v h.ledger);
  }

  pub idem-Tracks : (k : IdemRef) (v : ℤ) → Keeps (Tracks d0) C (set_idem k v)
  unfolding set_idem
  idem-Tracks k v = record {
    at = λ s h. assumption (MapTracks-write s.undo.idem d0.idem s.store.idem k v h.idem);
  }

  pub refund-Tracks : (k : ℤ) (v : Refund) → Keeps (Tracks d0) C (set_refund k v)
  unfolding set_refund
  refund-Tracks k v = record {
    at =
        λ s h. assumption (MapTracks-write s.undo.refunds d0.refunds s.store.refunds k v h.refunds);
  }

  pub refund_idem-Tracks : (k : IdemRef) (v : ℤ) → Keeps (Tracks d0) C (set_refund_idem k v)
  unfolding set_refund_idem
  refund_idem-Tracks k v = record {
    at = λ s h.
        assumption
          (MapTracks-write s.undo.refund_idem d0.refund_idem s.store.refund_idem k v h.refund_idem);
  }

  pub withdrawal-Tracks : (k : ℤ) (v : Withdrawal) → Keeps (Tracks d0) C (set_withdrawal k v)
  unfolding set_withdrawal
  withdrawal-Tracks k v = record {
    at = λ s h.
        assumption
          (MapTracks-write s.undo.withdrawals d0.withdrawals s.store.withdrawals k v h.withdrawals);
  }

  pub withdraw_idem-Tracks : (k : IdemRef) (v : ℤ) → Keeps (Tracks d0) C (set_withdraw_idem k v)
  unfolding set_withdraw_idem
  withdraw_idem-Tracks k v = record {
    at = λ s h. assumption (
        MapTracks-write s.undo.withdraw_idem d0.withdraw_idem s.store.withdraw_idem k v
          h.withdraw_idem);
  }

  pub by_order-Tracks : (k : OrderKey) (x : ℤ) → Keeps (Tracks d0) C (push_by_order k x)
  unfolding push_by_order
  by_order-Tracks k x = record {
    at = λ s h.
        assumption (IndexTracks-push s.undo.by_order d0.by_order s.store.by_order k x h.by_order);
  }

  pub by_agent-Tracks : (k : UserKey) (x : ℤ) → Keeps (Tracks d0) C (push_by_agent k x)
  unfolding push_by_agent
  by_agent-Tracks k x = record {
    at = λ s h.
        assumption (IndexTracks-push s.undo.by_agent d0.by_agent s.store.by_agent k x h.by_agent);
  }

  pub refunds_by_order-Tracks :
      (k : OrderKey) (x : ℤ) → Keeps (Tracks d0) C (push_refunds_by_order k x)
  unfolding push_refunds_by_order
  refunds_by_order-Tracks k x = record {
    at = λ s h. assumption (
        IndexTracks-push s.undo.refunds_by_order d0.refunds_by_order s.store.refunds_by_order k x
          h.refunds_by_order);
  }

  pub ledger_by_user-Tracks : (k : UserKey) (x : ℤ) → Keeps (Tracks d0) C (push_ledger_by_user k x)
  unfolding push_ledger_by_user
  ledger_by_user-Tracks k x = record {
    at = λ s h. assumption (
        IndexTracks-push s.undo.ledger_by_user d0.ledger_by_user s.store.ledger_by_user k x
          h.ledger_by_user);
  }

  pub ledger_by_tenant-Tracks : (k : ℤ) (x : ℤ) → Keeps (Tracks d0) C (push_ledger_by_tenant k x)
  unfolding push_ledger_by_tenant
  ledger_by_tenant-Tracks k x = record {
    at = λ s h. assumption (
        IndexTracks-push s.undo.ledger_by_tenant d0.ledger_by_tenant s.store.ledger_by_tenant k x
          h.ledger_by_tenant);
  }

  pub ledger_id-Tracks : (x : ℤ) → Keeps (Tracks d0) C (push_ledger_id x)
  unfolding push_ledger_id
  ledger_id-Tracks x = record {
    at = λ s h.
        assumption
          (LengthTracks-push s.undo.ledger_ids_len d0.ledger_ids s.store.ledger_ids x h.ledger_ids);
  }

  pub commission_id-Tracks : (x : ℤ) → Keeps (Tracks d0) C (push_commission_id x)
  unfolding push_commission_id
  commission_id-Tracks x = record {
    at = λ s h. assumption (
        LengthTracks-push s.undo.commission_ids_len d0.commission_ids s.store.commission_ids x
          h.commission_ids);
  }

  pub withdrawal_id-Tracks : (x : ℤ) → Keeps (Tracks d0) C (push_withdrawal_id x)
  unfolding push_withdrawal_id
  withdrawal_id-Tracks x = record {
    at = λ s h. assumption (
        LengthTracks-push s.undo.withdrawal_ids_len d0.withdrawal_ids s.store.withdrawal_ids x
          h.withdrawal_ids);
  }

  pub fresh_id-Tracks : Keeps (Tracks d0) C fresh_id
  unfolding fresh_id
  fresh_id-Tracks = record { at = λ s h. assumption }

  pub insert_due-Tracks :
      (tenant_id : ℤ) (at : Time) (id : ℤ) → Keeps (Tracks d0) C (insert_due tenant_id at id)
  unfolding insert_due EditTracks
  insert_due-Tracks tenant_id at id = record {
    at = λ s h. assumption (
        place_due-tracks (due_ref tenant_id at id)
          (search_from (λ x. not (due_less x (due_ref tenant_id at id))) s.store.pending_due)
          d0.pending_due s.store.pending_due s.undo.due h.pending_due);
  }

  pub remove_due-Tracks :
      (tenant_id : ℤ) (at : Time) (id : ℤ) → Keeps (Tracks d0) C (remove_due tenant_id at id)
  unfolding remove_due EditTracks
  remove_due-Tracks tenant_id at id = record {
    at = λ s h. assumption (
        drop_due-tracks (due_ref tenant_id at id)
          (search_from (λ x. not (due_less x (due_ref tenant_id at id))) s.store.pending_due)
          d0.pending_due s.store.pending_due s.undo.due h.pending_due);
  }

  pub insert_account_id-Tracks : (key : UserKey) → Keeps (Tracks d0) C (insert_account_id key)
  unfolding insert_account_id EditTracks
  insert_account_id-Tracks key = record {
    at = λ s h. assumption (
        place_account_id-tracks key (search_from (account_at_least key) s.store.account_ids)
          d0.account_ids s.store.account_ids s.undo.account_ids h.account_ids);
  }

pub ruleset tracks_rules = (
  agent-Tracks, binding-Tracks, account-Tracks, commission-Tracks, ledger-Tracks, idem-Tracks,
  refund-Tracks, refund_idem-Tracks, withdrawal-Tracks, withdraw_idem-Tracks, by_order-Tracks,
  by_agent-Tracks, refunds_by_order-Tracks, ledger_by_user-Tracks, ledger_by_tenant-Tracks,
  ledger_id-Tracks, commission_id-Tracks, withdrawal_id-Tracks, fresh_id-Tracks, insert_due-Tracks,
  remove_due-Tracks, insert_account_id-Tracks,
)
