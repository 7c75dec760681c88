-- ===== src/Memory/Data.antt =====
-- memory.go: what the store holds.
use distledger.Base.{◌≡◌, ◌↔◌, Bool, true, not, ◌&&◌, List, [], arith, if◌then◌else◌}
use distledger.Base.Int.{ℤ, pos, ltb_ℤ, ◌==ℤ◌, ==ℤ_iff}
use distledger.Base.Maps.{Eq, Map, empty_map}
use distledger.Base.Text.{Text, text_eqb, text_eqb_iff}
use distledger.Account.{Account, LedgerEntry}
use distledger.Agent.{Agent, Binding}
use distledger.Clock.{Time, before}
use distledger.Commission.{Commission, Refund}
use distledger.Keys.{UserKey, OrderKey}
use distledger.Withdrawal.{Withdrawal}

pub record IdemRef : Type 0 where
  pub tenant_id : ℤ
  pub key : Text

abbrev idem_ref_eqb : IdemRef → IdemRef → Bool
idem_ref_eqb a b = (a.tenant_id ==ℤ b.tenant_id) && text_eqb a.key b.key

pub idem_ref_eqb_iff : (a b : IdemRef) → (idem_ref_eqb a b ≡ true) ↔ (a ≡ b)
idem_ref_eqb_iff a b = ground (arith, ==ℤ_iff a.tenant_id b.tenant_id, text_eqb_iff a.key b.key)

instance abbrev pub idem_ref_eq : Eq IdemRef
idem_ref_eq = record { beq = idem_ref_eqb; beq_iff = idem_ref_eqb_iff }

pub record DueRef : Type 0 where
  pub tenant_id : ℤ
  pub at : Time
  pub id : ℤ

-- `dueRef.less`
abbrev pub due_less : DueRef → DueRef → Bool
due_less r o =
    if not (r.tenant_id ==ℤ o.tenant_id)
    then ltb_ℤ r.tenant_id o.tenant_id
    else if not (r.at ==ℤ o.at)
    then before r.at o.at
    else ltb_ℤ r.id o.id

-- `==` on `dueRef`
abbrev pub same_due : DueRef → DueRef → Bool
same_due a b = (a.tenant_id ==ℤ b.tenant_id) && (a.at ==ℤ b.at) && (a.id ==ℤ b.id)

pub record Data : Type 0 where
  pub agents : Map UserKey Agent
  pub bindings : Map UserKey Binding
  pub accounts : Map UserKey Account
  pub commissions : Map ℤ Commission
  pub commission_ids : List ℤ
  pub idem : Map IdemRef ℤ
  pub by_order : Map OrderKey (List ℤ)
  pub by_agent : Map UserKey (List ℤ)
  pub refunds : Map ℤ Refund
  pub refund_idem : Map IdemRef ℤ
  pub refunds_by_order : Map OrderKey (List ℤ)
  pub withdrawals : Map ℤ Withdrawal
  pub withdrawal_ids : List ℤ
  pub withdraw_idem : Map IdemRef ℤ
  pub ledger : Map ℤ LedgerEntry
  pub ledger_ids : List ℤ
  pub ledger_by_user : Map UserKey (List ℤ)
  pub ledger_by_tenant : Map ℤ (List ℤ)
  pub account_ids : List UserKey
  pub pending_due : List DueRef
  pub next_id : ℤ

abbrev pub new_data : Data
new_data = record {
  agents = empty_map;
  bindings = empty_map;
  accounts = empty_map;
  commissions = empty_map;
  commission_ids = [];
  idem = empty_map;
  by_order = empty_map;
  by_agent = empty_map;
  refunds = empty_map;
  refund_idem = empty_map;
  refunds_by_order = empty_map;
  withdrawals = empty_map;
  withdrawal_ids = [];
  withdraw_idem = empty_map;
  ledger = empty_map;
  ledger_ids = [];
  ledger_by_user = empty_map;
  ledger_by_tenant = empty_map;
  account_ids = [];
  pending_due = [];
  next_id = pos 0;
}
