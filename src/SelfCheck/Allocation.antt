-- ===== src/SelfCheck/Allocation.antt =====
-- selfcheck.go: invariant I2, the links between commissions and the ledger and the cap on what is
-- allocated.
use distledger.Base.{◌+◌, Bool, not, ◌&&◌, none, some, List, [], ◌∷◌, length, if◌then◌else◌}
use distledger.Base.Int.{ℤ, pos, ltb_ℤ, leb_ℤ, ◌==ℤ◌}
use distledger.Base.Maps.{◌==◌}
use distledger.Base.Text.{Text, text, text_eqb}
use distledger.Account.{LedgerEntry, references_commission}
use distledger.Commission.{Commission}
use distledger.Engine.Config.{Ledger}
use distledger.Errors.{Result, ok, err}
use distledger.Keys.{OrderKey, order_key_eq, is_empty}
use distledger.Memory.Listing.{commissions_by_tenant, ledger_by_tenant_page}
use distledger.Memory.Tx.{Tx, pure, lift, gets, ◌>>=◌}
use distledger.Money
use distledger.Money.{Money, Rate, round_down}
use distledger.SelfCheck.Pages.{paged, full_page}
use distledger.SelfCheck.Parse.{parse_int}
use distledger.SelfCheck.Results.{
  InvariantResult, fresh_result, i2, add, add_if, count, accrual_biz_id, no_ledger_entry,
  missing_commission, over_cap,
}
use distledger.SelfCheck.Sorting.{sort_by, text_ltb, is_among, with_id, sorted_ids}

pub record AllocKey : Type 0 where
  pub order_key : OrderKey
  pub order_item_id : Text

pub record AllocAgg : Type 0 where
  pub base : Money
  pub amount : Money

-- What the loops carry: the commissions that the ledger names, those that are there, and the groups.
pub record Linkage : Type 0 where
  pub refs : List ℤ
  pub known : List ℤ
  pub groups : List (AllocKey × AllocAgg)
  pub result : InvariantResult

-- An entry of the tenant's ledger.
unfoldable pub link_entry : LedgerEntry → Linkage → Linkage
link_entry e s = if not (references_commission e.biz_type) then s else elim (parse_int e.biz_id) [
  | none ↦ record s { result = add (accrual_biz_id e.id e.biz_id) s.result }
  | some id ↦ record s { refs = with_id id s.refs }
]

abbrev same_alloc : AllocKey → AllocKey → Bool
same_alloc a b = a.order_key == b.order_key && text_eqb a.order_item_id b.order_item_id

abbrev grown : AllocKey × AllocAgg → Result Money → Result (AllocKey × AllocAgg)
grown (k, g) (err e) = err e
grown (k, g) (ok sum) = ok (k, record g { amount = sum })

abbrev kept_first :
    AllocKey × AllocAgg → Result (List (AllocKey × AllocAgg)) → Result (List (AllocKey × AllocAgg))
kept_first g (err e) = err e
kept_first g (ok gs) = ok (g ∷ gs)

abbrev grown_first :
    Result (AllocKey × AllocAgg) → List (AllocKey × AllocAgg) → Result (List (AllocKey × AllocAgg))
grown_first (err e) gs = err e
grown_first (ok g) gs = ok (g ∷ gs)

-- The group of a commission, which the first one opens, and its amount on top.
unfoldable pub allocate :
    AllocKey → Commission → List (AllocKey × AllocAgg) → Result (List (AllocKey × AllocAgg))
allocate k c [] =
    grown_first
      (grown (k, record { base = c.base_amount; amount = pos 0 }) (Money.add (pos 0) c.amount)) []
allocate k c (g ∷ gs) =
    if same_alloc g.0 k
    then grown_first (grown g (Money.add g.1.amount c.amount)) gs
    else kept_first g (allocate k c gs)

abbrev alloc_key : Commission → AllocKey
alloc_key c = record { order_key = c.key; order_item_id = c.order_item_id }

abbrev with_groups : Linkage → Result (List (AllocKey × AllocAgg)) → Result Linkage
with_groups s (err e) = err e
with_groups s (ok gs) = ok (record s { groups = gs })

-- A commission of the tenant. A reversal takes no part in the cap.
unfoldable pub link_commission : Commission → Linkage → Result Linkage
link_commission c s =
    let s' : Linkage = record s {
      known = with_id c.id s.known;
      result =
          add_if (not (is_among c.id s.refs)) (no_ledger_entry c.id c.key.order_id c.layer c.amount)
            (count s.result);
    } in
    if leb_ℤ c.amount (pos 0) then ok s' else with_groups s' (allocate (alloc_key c) c s'.groups)

-- The loop over the references, in order.
unfoldable pub check_refs : List ℤ → List ℤ → InvariantResult → InvariantResult
check_refs known [] r = r
check_refs known (id ∷ ids) r =
    check_refs known ids (add_if (not (is_among id known)) (missing_commission id) r)

-- The order of the groups in the report.
abbrev alloc_less : AllocKey × AllocAgg → AllocKey × AllocAgg → Bool
alloc_less a b =
    if not (a.0.order_key.tenant_id ==ℤ b.0.order_key.tenant_id)
    then ltb_ℤ a.0.order_key.tenant_id b.0.order_key.tenant_id
    else if not (text_eqb a.0.order_key.order_id b.0.order_key.order_id)
    then text_ltb a.0.order_key.order_id b.0.order_key.order_id
    else text_ltb a.0.order_item_id b.0.order_item_id

abbrev item_name : Text → Text
item_name item = if is_empty item then text "<whole order>" else item

-- The loop over the groups.
unfoldable pub check_caps :
    Rate → List (AllocKey × AllocAgg) → InvariantResult → Result InvariantResult
check_caps bp [] r = ok r
check_caps bp ((k, g) ∷ gs) r = elim (Money.apply g.base bp round_down) [
  | err e ↦ err e
  | ok cap_amount ↦ check_caps bp gs (
      add_if (ltb_ℤ cap_amount g.amount)
        (over_cap k.order_key (item_name k.order_item_id) g.amount cap_amount g.base) r)
]

-- `checkAllocationCap`
unfoldable pub check_allocation_cap : Ledger → ℤ → Tx InvariantResult
check_allocation_cap l tenant_id = do
  entries ← gets (λ d. length d.ledger_ids + 1)
  s ←
      paged entries (λ last. ledger_by_tenant_page tenant_id (full_page last)) (λ e. e.id)
        (λ e s. pure (link_entry e s)) (pos 0)
        (record { refs = []; known = []; groups = []; result = fresh_result i2 })
  commissions ← gets (λ d. length d.commission_ids + 1)
  s ←
      paged commissions (λ last. commissions_by_tenant tenant_id (full_page last)) (λ c. c.id)
        (λ c s. lift (link_commission c s)) (pos 0) s
  lift (
      check_caps l.rules.max_allocatable_bp (sort_by alloc_less s.groups)
        (check_refs s.known (sorted_ids s.refs) s.result))
