-- ===== src/SelfCheck.antt =====
-- selfcheck.go: the reconciliation of a tenant's books, over the in-memory store, which neither checks a
-- schema nor reconciles by itself.
pub mod Results
pub mod Pages
pub mod Parse
pub mod Sorting
pub mod Conservation
pub mod Allocation
pub mod Reversals
pub mod Withdrawals
use distledger.Base.{
  ℕ, ◌+◌, ◌%◌, Bool, true, false, not, ◌&&◌, List, [], ◌∷◌, ltb, eqb, if◌then◌else◌,
}
use distledger.Base.Int.{ℤ, pos, ltb_ℤ, ◌==ℤ◌}
use distledger.Base.Text.{Text, text}
use distledger.Commission.{
  Commission, CommissionState, pending, settled, reversed, frozen, void, same_state,
}
use distledger.Engine.Config.{Ledger}
use distledger.Errors.{Result, err, field_error}
use distledger.Memory.Reader.{records}
use distledger.Memory.Store.{Ctx, Store, view}
use distledger.Memory.Tx.{Tx, pure, gets, check_ctx, ◌>>=◌, ◌>>◌}
use distledger.SelfCheck.Allocation.{check_allocation_cap}
use distledger.SelfCheck.Conservation.{check_ledger_conservation}
use distledger.SelfCheck.Results.{Report, InvariantResult}
use distledger.SelfCheck.Reversals.{check_reversal_reconciliation}
use distledger.SelfCheck.Withdrawals.{check_withdrawal_reconciliation}

-- A map from states to counts, in which a missing state reads as 0.
abbrev pub Counts : Type 0
Counts = CommissionState → ℕ

abbrev one_more : CommissionState → Counts → Counts
one_more s out t = if same_state t s then out t + 1 else out t

-- The loop of `CountCommissionsByState`: the context is asked again after every 1024 of the tenant.
unfoldable pub count_states : ℤ → ℕ → List Commission → Counts → Tx Counts
count_states tenant_id n [] out = pure out
count_states tenant_id n (c ∷ cs) out =
    if not (c.key.tenant_id ==ℤ tenant_id)
    then count_states tenant_id n cs out
    else (if eqb ((n + 1) % 1024) 0 then check_ctx else pure tt)
      >> count_states tenant_id (n + 1) cs (one_more c.state out)

-- `CountCommissionsByState`. Go runs over the map of the commissions, in any order: the counts are the
-- same in each.
unfoldable pub count_commissions_by_state : ℤ → Tx Counts
count_commissions_by_state tenant_id = do
  check_ctx
  all ← gets (λ d. records d.commissions d.commission_ids)
  count_states tenant_id 0 all (λ s. 0)

-- `AllCommissionStates`
abbrev pub all_commission_states : List CommissionState
all_commission_states = pending ∷ settled ∷ reversed ∷ frozen ∷ void ∷ []

abbrev counters_of : Counts → List CommissionState → List (CommissionState × ℕ)
counters_of out [] = []
counters_of out (s ∷ ss) = (s, out s) ∷ counters_of out ss

-- `rep.OK`
abbrev all_ok : List InvariantResult → Bool
all_ok [] = true
all_ok (r ∷ rs) = r.is_ok && all_ok rs

-- The read transaction of `SelfCheck`.
unfoldable pub check_tx : Ledger → ℤ → Tx Report
check_tx l tenant_id = do
  states ← count_commissions_by_state tenant_id
  first ← check_ledger_conservation l tenant_id
  second ← check_allocation_cap l tenant_id
  third ← check_reversal_reconciliation tenant_id
  fourth ← check_withdrawal_reconciliation tenant_id
  let invariants = first ∷ second ∷ third ∷ fourth ∷ []
  pure (record {
    tenant_id = tenant_id;
    is_ok = all_ok invariants;
    store_kind = text "memory";
    schema_issues = [];
    invariants = invariants;
    counters = counters_of states all_commission_states;
    reconciled = false;
  })

-- `SelfCheck`
unfoldable pub self_check : Ledger → ℤ → Ctx → Store → Result Report × Store
self_check l tenant_id ctx s =
    if ltb_ℤ tenant_id (pos 0)
    then (err (field_error "tenant_id"), s)
    else view ctx (check_tx l tenant_id) s
