-- ===== src/Memory/Rollback.antt =====
-- The link between the undo log, the data and the data that the transaction began with.
pub mod Writes
use distledger.Base.{
  ◌≡◌, refl, arith, List, [], ◌∷◌, ◌++◌, inl, inr, not, Bool-cases, take-length, fun_ext,
}
use distledger.Base.Int.{ℤ}
use distledger.Base.Maps.{◌==◌}
use distledger.Account.{Account, LedgerEntry}
use distledger.Agent.{Agent, Binding}
use distledger.Clock.{Time}
use distledger.Commission.{Commission, Refund}
use distledger.Errors.{Err}
use distledger.Keys.{UserKey, OrderKey, int_eq, user_key_eq, order_key_eq}
use distledger.Memory.Data.{Data, IdemRef, DueRef, idem_ref_eq, same_due, due_less}
use distledger.Memory.Undo.{Undo, OrderedUndo, rollback, new_undo}
use distledger.Memory.Undo.Restore.{
  MapTracks, MapTracks-write, IndexTracks, IndexTracks-push, LengthTracks, LengthTracks-push,
  OrderedTracks, OrderedTracks-push, OrderedTracks-change,
}
use distledger.Memory.Tx.{
  TxState, set_agent, set_binding, set_account, set_commission, set_ledger, set_idem, set_refund,
  set_refund_idem, set_withdrawal, set_withdraw_idem, push_by_order, push_by_agent,
  push_refunds_by_order, push_ledger_by_user, push_ledger_by_tenant, push_ledger_id,
  push_commission_id, push_withdrawal_id, fresh_id, insert_due, remove_due, insert_account_id, Edit,
  place_due, drop_due, place_account_id, account_at_least, search_from, due_ref,
}
use distledger.Memory.Tx.Rules.{Keeps}
use distledger.Withdrawal.{Withdrawal}

-- From `d0`, the log `u` and the data `d` stand for each other.
pub record Linked (d0 : Data) (u : Undo) (d : Data) : Type 0 where
  pub agents : MapTracks u.agents d0.agents d.agents
  pub bindings : MapTracks u.bindings d0.bindings d.bindings
  pub accounts : MapTracks u.accounts d0.accounts d.accounts
  pub commissions : MapTracks u.commissions d0.commissions d.commissions
  pub ledger : MapTracks u.ledger d0.ledger d.ledger
  pub idem : MapTracks u.idem d0.idem d.idem
  pub refunds : MapTracks u.refunds d0.refunds d.refunds
  pub refund_idem : MapTracks u.refund_idem d0.refund_idem d.refund_idem
  pub withdrawals : MapTracks u.withdrawals d0.withdrawals d.withdrawals
  pub withdraw_idem : MapTracks u.withdraw_idem d0.withdraw_idem d.withdraw_idem
  pub by_order : IndexTracks u.by_order d0.by_order d.by_order
  pub by_agent : IndexTracks u.by_agent d0.by_agent d.by_agent
  pub refunds_by_order : IndexTracks u.refunds_by_order d0.refunds_by_order d.refunds_by_order
  pub ledger_by_user : IndexTracks u.ledger_by_user d0.ledger_by_user d.ledger_by_user
  pub ledger_by_tenant : IndexTracks u.ledger_by_tenant d0.ledger_by_tenant d.ledger_by_tenant
  pub ledger_ids : LengthTracks u.ledger_ids_len d0.ledger_ids d.ledger_ids
  pub commission_ids : LengthTracks u.commission_ids_len d0.commission_ids d.commission_ids
  pub withdrawal_ids : LengthTracks u.withdrawal_ids_len d0.withdrawal_ids d.withdrawal_ids
  pub account_ids : OrderedTracks u.account_ids d0.account_ids d.account_ids
  pub pending_due : OrderedTracks u.due d0.pending_due d.pending_due
  pub next_id : u.next_id ≡ d0.next_id

abbrev pub Tracks : Data → Undo → Data → Type 0
Tracks d0 u d = Linked d0 u d

-- A log that tracks `d0` rolls the data back to `d0`.
pub rollback-eq : (d0 : Data) (u : Undo) (d : Data) → Linked d0 u d → rollback u d ≡ d0
unfolding rollback
rollback-eq d0 u d h = λ i. record {
  agents = fun_ext h.agents i;
  bindings = fun_ext h.bindings i;
  accounts = fun_ext h.accounts i;
  commissions = fun_ext h.commissions i;
  ledger = fun_ext h.ledger i;
  idem = fun_ext h.idem i;
  refunds = fun_ext h.refunds i;
  refund_idem = fun_ext h.refund_idem i;
  withdrawals = fun_ext h.withdrawals i;
  withdraw_idem = fun_ext h.withdraw_idem i;
  by_order = fun_ext h.by_order.restored i;
  by_agent = fun_ext h.by_agent.restored i;
  refunds_by_order = fun_ext h.refunds_by_order.restored i;
  ledger_by_user = fun_ext h.ledger_by_user.restored i;
  ledger_by_tenant = fun_ext h.ledger_by_tenant.restored i;
  ledger_ids = h.ledger_ids.restored i;
  commission_ids = h.commission_ids.restored i;
  withdrawal_ids = h.withdrawal_ids.restored i;
  account_ids = h.account_ids.restored i;
  pending_due = h.pending_due.restored i;
  next_id = h.next_id i;
}

-- At the start of a transaction the log is empty.
pub new_undo-Linked : (d : Data) → Linked d (new_undo d) d
new_undo-Linked d = record {
  agents = λ k. refl;
  bindings = λ k. refl;
  accounts = λ k. refl;
  commissions = λ k. refl;
  ledger = λ k. refl;
  idem = λ k. refl;
  refunds = λ k. refl;
  refund_idem = λ k. refl;
  withdrawals = λ k. refl;
  withdraw_idem = λ k. refl;
  by_order = record { restored = λ k. refl; room = λ k s p. cc };
  by_agent = record { restored = λ k. refl; room = λ k s p. cc };
  refunds_by_order = record { restored = λ k. refl; room = λ k s p. cc };
  ledger_by_user = record { restored = λ k. refl; room = λ k s p. cc };
  ledger_by_tenant = record { restored = λ k. refl; room = λ k s p. cc };
  ledger_ids = record { restored = take-length d.ledger_ids; room = omega arith };
  commission_ids = record { restored = take-length d.commission_ids; room = omega arith };
  withdrawal_ids = record { restored = take-length d.withdrawal_ids; room = omega arith };
  account_ids = record { restored = refl; room = λ p q. cc; fresh = λ p. refl };
  pending_due = record { restored = refl; room = λ p q. cc; fresh = λ p. refl };
  next_id = refl;
}
