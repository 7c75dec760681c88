-- ===== src/Memory/Undo.antt =====
-- memory.go: the undo log of a transaction, and the rollback. An `undoEntry` is an option: `none`
-- where the key was absent. The save functions of the source are one function here.
pub mod Restore
use distledger.Base.{
  ℕ, Bool, true, false, Option, none, some, List, [], length, take, if◌then◌else◌,
}
use distledger.Base.Int.{ℤ}
use distledger.Base.Maps.{Eq, Map, empty_map, insert}
use distledger.Account.{Account, LedgerEntry}
use distledger.Agent.{Agent, Binding}
use distledger.Commission.{Commission, Refund}
use distledger.Keys.{UserKey, OrderKey}
use distledger.Memory.Data.{Data, IdemRef, DueRef}
use distledger.Withdrawal.{Withdrawal}

abbrev pub UndoMap : Type 0 → Type 0 → Type 0
UndoMap K V = Map K (Option V)

pub record AppendIndex : Type 0 where
  pub length : ℕ
  pub existed : Bool

pub record OrderedUndo (T : Type 0) : Type 0 where
  pub saved : Bool
  pub full : Option (List T)
  pub length : ℕ

module _ {K V : Type 0} ⦃e : Eq K⦄ where
  -- `saveAgent`, `saveBinding`, …: what stood at the key, the first time only.
  abbrev pub save : K → Map K V → UndoMap K V → UndoMap K V
  save k m u = elim (u k) [ some entry ↦ u | none ↦ insert k (m k) u ]

module _ {K V : Type 0} where
  -- `restoreMap`
  abbrev pub restore_map : UndoMap K V → Map K V → Map K V
  restore_map u m k = elim (u k) [ some entry ↦ entry | none ↦ m k ]

module _ {T : Type 0} where
  -- `m[k]` of a map of slices: an absent key reads as the empty slice.
  abbrev pub or_nil : Option (List T) → List T
  or_nil none = []
  or_nil (some xs) = xs

  abbrev pub existed : Option (List T) → Bool
  existed none = false
  existed (some xs) = true

module _ {K T : Type 0} ⦃e : Eq K⦄ where
  -- `noteAppendIndex`
  abbrev pub note_append_index : K → Map K (List T) → Map K AppendIndex → Map K AppendIndex
  note_append_index k m u = elim (u k) [
    | some s ↦ u
    | none ↦ insert k (record { length = length (or_nil (m k)); existed = existed (m k) }) u
  ]

module _ {K T : Type 0} where
  -- `restoreAppendIndex`
  abbrev pub restore_append_index : Map K AppendIndex → Map K (List T) → Map K (List T)
  restore_append_index u m k = elim (u k) [
    | none ↦ m k
    | some s ↦ if s.existed then some (take s.length (or_nil (m k))) else none
  ]

module _ {T : Type 0} where
  abbrev pub new_ordered : OrderedUndo T
  new_ordered = record { saved = false; full = none; length = 0 }

  -- `orderedUndo.noteAppend`
  abbrev pub note_append : OrderedUndo T → List T → OrderedUndo T
  note_append u cur = if u.saved then u else record u { saved = true; length = length cur }

  -- `orderedUndo.noteStructural`
  abbrev pub note_structural : OrderedUndo T → List T → OrderedUndo T
  note_structural u cur = elim u.full [
    | some xs ↦ u
    | none ↦ record u { saved = true; full = some (if u.saved then take u.length cur else cur) }
  ]

  -- `orderedUndo.restore`
  abbrev pub restore : OrderedUndo T → List T → List T
  restore u cur = if u.saved then (elim u.full [ some xs ↦ xs | none ↦ take u.length cur ]) else cur

pub record Undo : Type 0 where
  pub agents : UndoMap UserKey Agent
  pub bindings : UndoMap UserKey Binding
  pub accounts : UndoMap UserKey Account
  pub commissions : UndoMap ℤ Commission
  pub ledger : UndoMap ℤ LedgerEntry
  pub idem : UndoMap IdemRef ℤ
  pub refunds : UndoMap ℤ Refund
  pub refund_idem : UndoMap IdemRef ℤ
  pub withdrawals : UndoMap ℤ Withdrawal
  pub withdraw_idem : UndoMap IdemRef ℤ
  pub by_order : Map OrderKey AppendIndex
  pub by_agent : Map UserKey AppendIndex
  pub refunds_by_order : Map OrderKey AppendIndex
  pub ledger_by_user : Map UserKey AppendIndex
  pub ledger_by_tenant : Map ℤ AppendIndex
  pub ledger_ids_len : ℕ
  pub commission_ids_len : ℕ
  pub withdrawal_ids_len : ℕ
  pub due : OrderedUndo DueRef
  pub account_ids : OrderedUndo UserKey
  pub next_id : ℤ

abbrev pub new_undo : Data → Undo
new_undo d = record {
  agents = empty_map;
  bindings = empty_map;
  accounts = empty_map;
  commissions = empty_map;
  ledger = empty_map;
  idem = empty_map;
  refunds = empty_map;
  refund_idem = empty_map;
  withdrawals = empty_map;
  withdraw_idem = empty_map;
  by_order = empty_map;
  by_agent = empty_map;
  refunds_by_order = empty_map;
  ledger_by_user = empty_map;
  ledger_by_tenant = empty_map;
  ledger_ids_len = length d.ledger_ids;
  commission_ids_len = length d.commission_ids;
  withdrawal_ids_len = length d.withdrawal_ids;
  due = new_ordered;
  account_ids = new_ordered;
  next_id = d.next_id;
}

-- `undo.rollback`
unfoldable pub rollback : Undo → Data → Data
rollback u d = record {
  agents = restore_map u.agents d.agents;
  bindings = restore_map u.bindings d.bindings;
  accounts = restore_map u.accounts d.accounts;
  commissions = restore_map u.commissions d.commissions;
  commission_ids = take u.commission_ids_len d.commission_ids;
  idem = restore_map u.idem d.idem;
  by_order = restore_append_index u.by_order d.by_order;
  by_agent = restore_append_index u.by_agent d.by_agent;
  refunds = restore_map u.refunds d.refunds;
  refund_idem = restore_map u.refund_idem d.refund_idem;
  refunds_by_order = restore_append_index u.refunds_by_order d.refunds_by_order;
  withdrawals = restore_map u.withdrawals d.withdrawals;
  withdrawal_ids = take u.withdrawal_ids_len d.withdrawal_ids;
  withdraw_idem = restore_map u.withdraw_idem d.withdraw_idem;
  ledger = restore_map u.ledger d.ledger;
  ledger_ids = take u.ledger_ids_len d.ledger_ids;
  ledger_by_user = restore_append_index u.ledger_by_user d.ledger_by_user;
  ledger_by_tenant = restore_append_index u.ledger_by_tenant d.ledger_by_tenant;
  account_ids = restore u.account_ids d.account_ids;
  pending_due = restore u.due d.pending_due;
  next_id = u.next_id;
}
