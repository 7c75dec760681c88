-- ===== src/Engine/Maintain.antt =====
-- settle.go: `Maintain`, the heartbeat, which settles what is due, tenant by tenant, within one budget.
-- It makes several transactions: `ctxs n` is what the n-th of them gets from the context.
pub mod Budget
pub mod Covered
pub mod Kept
use distledger.Base.{
  ℕ, zero, suc, ◌+◌, ◌-◌, Bool, true, false, not, ◌||◌, List, [], ◌∷◌, ◌++◌, ltb, eqb,
  if◌then◌else◌,
}
use distledger.Base.Int.{ℤ, pos, ltb_ℤ, ◌==ℤ◌}
use distledger.Clock.{Time}
use distledger.Commission.{Commission}
use distledger.Engine.Config.{Ledger}
use distledger.Engine.Settle.{Round, maintain_round}
use distledger.Errors.{Err, Result, ok, err}
use distledger.Memory.DueWork.{due_work}
use distledger.Memory.Store.{Ctx, Store, view}
use distledger.Money
use distledger.Money.{Money}

abbrev pub maintain_batch : ℕ
maintain_batch = 200

abbrev pub maintain_work_batch : ℤ
maintain_work_batch = pos 2000

abbrev pub max_maintain_rounds : ℕ
max_maintain_rounds = 100

abbrev pub max_settle_per_maintain : ℕ
max_settle_per_maintain = 20_000

-- The methods of `workBudget`, whose allowance never falls below 0.
abbrev pub exhausted : ℕ → Bool
exhausted left = eqb left 0

abbrev pub spend : ℕ → ℕ → ℕ
spend left n = left - n

abbrev pub permits : ℕ → ℕ → ℕ
permits left want = if ltb left want then left else want

-- `MaintainResult`
pub record MaintainResult : Type 0 where
  pub settled_count : ℕ
  pub settled_amount : Money
  pub quarantined : List ℤ

-- What a heartbeat has done so far: `errors` holds what `errors.Join` gets, or the one error of an
-- early return, and `tick` counts the transactions.
pub record Beat : Type 0 where
  pub total : MaintainResult
  pub errors : List Err
  pub left : ℕ
  pub tick : ℕ
  pub store : Store

abbrev pub no_result : MaintainResult
no_result = record { settled_count = 0; settled_amount = pos 0; quarantined = [] }

abbrev stopped_with : Err → Beat → Beat
stopped_with e p = record p { errors = e ∷ [] }

-- A result with its amount and its quarantined commissions, if the sum of the amounts did not overflow.
abbrev pub with_round : Beat → Round → Result Money → Beat
with_round p r (err e) = stopped_with e p
with_round p r (ok amount) = record p {
  total = record (p.total) {
    settled_amount = amount;
    quarantined = p.total.quarantined ++ r.quarantined;
  };
}

-- What `maintainTenant` does with the outcome of a round.
abbrev pub after_round : Beat → Result Round × Store → Beat
after_round p (err e, s) = stopped_with e (record p { tick = p.tick + 1; store = s })
after_round p (ok r, s) =
    with_round
      (record p {
        total = record (p.total) { settled_count = p.total.settled_count + r.count };
        left = spend p.left r.count;
        tick = p.tick + 1;
        store = s;
      })
      r (Money.add p.total.settled_amount r.amount)

is_failed : List Err → Bool
is_failed [] = false
is_failed (e ∷ es) = true

-- The loop of `maintainTenant`, of which `n` rounds are left; a round without progress is the last.
unfoldable pub maintain_tenant : ℕ → ℤ → Time → (ℕ → Ctx) → Beat → Beat
unfolding is_failed
maintain_tenant zero tenant_id now ctxs p = p
maintain_tenant (suc n) tenant_id now ctxs p =
    let limit = pos (permits p.left maintain_batch) in
    let p' = after_round p (maintain_round tenant_id now limit (ctxs p.tick) p.store) in
    let rest = maintain_tenant n tenant_id now ctxs p' in
    if exhausted p.left
    then p
    else if is_failed p'.errors || eqb p'.total.settled_count p.total.settled_count
    then p'
    else rest

-- `tenantBatch`
pub record TenantBatch : Type 0 where
  pub tenant_id : ℤ
  pub commissions : List Commission

abbrev add_to_tenant : Commission → List TenantBatch → List TenantBatch
add_to_tenant c [] = record { tenant_id = c.key.tenant_id; commissions = c ∷ [] } ∷ []
add_to_tenant c (g ∷ gs) =
    let rest = add_to_tenant c gs in
    if c.key.tenant_id ==ℤ g.tenant_id
    then record g { commissions = c ∷ g.commissions } ∷ gs
    else if ltb_ℤ c.key.tenant_id g.tenant_id
    then record { tenant_id = c.key.tenant_id; commissions = c ∷ [] } ∷ g ∷ gs
    else g ∷ rest

-- `groupByTenant`: by tenant, in the order of the batch within one.
unfoldable pub group_by_tenant : List Commission → List TenantBatch
group_by_tenant [] = []
group_by_tenant (c ∷ cs) = add_to_tenant c (group_by_tenant cs)

abbrev is_in : ℤ → List ℤ → Bool
is_in id [] = false
is_in id (x ∷ xs) = (id ==ℤ x) || is_in id xs

-- The quarantined commissions that the call has not reported before.
abbrev add_unseen : List ℤ → List ℤ → List ℤ
add_unseen seen [] = seen
add_unseen seen (id ∷ ids) = add_unseen (if is_in id seen then seen else seen ++ (id ∷ [])) ids

-- `total`, after a tenant; `false` is the early return of an overflow.
abbrev pub with_part : Beat → Beat → Result Money → Bool × Beat
with_part p part (err e) = (
  false,
  record part {
    total = record (p.total) {
      settled_count = p.total.settled_count + part.total.settled_count;
      quarantined = add_unseen p.total.quarantined part.total.quarantined;
    };
    errors = e ∷ [];
  },
)
with_part p part (ok amount) = (
  true,
  record part {
    total = record {
      settled_count = p.total.settled_count + part.total.settled_count;
      settled_amount = amount;
      quarantined = add_unseen p.total.quarantined part.total.quarantined;
    };
    errors = p.errors ++ part.errors;
  },
)

-- One tenant of the inner loop of `Maintain`.
unfoldable pub maintain_group : ℤ → Time → (ℕ → Ctx) → Beat → Bool × Beat
maintain_group tenant_id now ctxs p =
    let part =
      maintain_tenant max_maintain_rounds tenant_id now ctxs
        (record p { total = no_result; errors = [] }) in
    with_part p part (Money.add p.total.settled_amount part.total.settled_amount)

-- The inner loop of `Maintain`.
unfoldable pub maintain_groups : List TenantBatch → Time → (ℕ → Ctx) → Beat → Bool × Beat
maintain_groups [] now ctxs p = (true, p)
maintain_groups (g ∷ gs) now ctxs p =
    let (going, p') = maintain_group g.tenant_id now ctxs p in
    let rest = maintain_groups gs now ctxs p' in
    if exhausted p.left then (true, p) else if going then rest else (false, p')

is_empty_list : List TenantBatch → Bool
is_empty_list [] = true
is_empty_list (g ∷ gs) = false

-- The batch of a round, and the store behind the read.
abbrev pub due_groups : Time → (ℕ → Ctx) → Beat → Result (List Commission) × Store
due_groups now ctxs p = view (ctxs p.tick) (due_work now maintain_work_batch) p.store

-- The rest of a round of `Maintain`, behind the read, with the rounds after it.
unfoldable pub after_read :
    (Beat → Beat) → Time → (ℕ → Ctx) → Beat → Result (List Commission) → Beat
unfolding is_empty_list
after_read later now ctxs p (err e) = stopped_with e p
after_read later now ctxs p (ok batch) =
    let groups = group_by_tenant batch in
    let (going, p') = maintain_groups groups now ctxs (record p { tick = p.tick + 1 }) in
    let rest = later p' in
    if is_empty_list groups
    then p
    else if not going || eqb p'.total.settled_count p.total.settled_count
    then p'
    else rest

-- The loop of `Maintain`, of which `n` rounds are left.
unfoldable pub maintain_rounds : ℕ → Time → (ℕ → Ctx) → Beat → Beat
maintain_rounds zero now ctxs p = p
maintain_rounds (suc n) now ctxs p =
    let rest =
      after_read (λ p'. maintain_rounds n now ctxs p') now ctxs p (due_groups now ctxs p).0 in
    if exhausted p.left then p else rest

-- `Maintain`
unfoldable pub maintain : Ledger → (ℕ → Ctx) → Store → Beat
maintain l ctxs s =
    maintain_rounds max_maintain_rounds l.now ctxs (record {
      total = no_result;
      errors = [];
      left = max_settle_per_maintain;
      tick = 0;
      store = s;
    })
