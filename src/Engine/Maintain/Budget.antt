-- ===== src/Engine/Maintain/Budget.antt =====
-- How much a heartbeat settles.
use distledger.Base.{
  ℕ, zero, suc, ◌+◌, ◌≤◌, ◌<◌, ◌≡◌, refl, arith, Bool, true, false, not, ◌||◌, eqb, Bool-cases, inl,
  inr, ◌∙◌, none, some, List, [], ◌∷◌, length, if◌then◌else◌,
}
use distledger.Base.Int.{ℤ, pos, pos_part, leb_ℤ}
use distledger.Clock.{Time}
use distledger.Commission.{Commission, outstanding_amount}
use distledger.Engine.Config.{Ledger}
use distledger.Engine.Maintain.{
  Beat, with_round, permits, exhausted, maintain_batch, after_round, maintain_tenant,
  maintain_group, maintain_groups, maintain_rounds, maintain, TenantBatch, max_settle_per_maintain,
  max_maintain_rounds, no_result, with_part, group_by_tenant, due_groups, after_read, is_empty_list,
}
use distledger.Engine.Settle.{Round, counted, settle_due, settle_batch, maintain_tx, maintain_round}
use distledger.Errors.{Result, ok, err}
use distledger.Memory.Data.{Data, DueRef}
use distledger.Memory.Reader.{
  collect_due, due_commission, due_commissions, due_range, default_page_limit,
}
use distledger.Memory.Store.{Ctx, Store}
use distledger.Memory.Store.Values.{update-OfValue}
use distledger.Memory.Tx.Values.{
  OfValue, Returns, Returns-pure, Returns-if, Returns-bind, Returns-then, Returns-lift,
  Returns-gets, Returns-weaken,
}
use distledger.Money.{Money, add}

length-collect_due : (n : ℕ) (d : Data) (refs : List DueRef) → length (collect_due n d refs) ≤ n
unfolding collect_due
length-collect_due zero d refs = omega arith
length-collect_due (suc n) d [] = omega arith
length-collect_due (suc n) d (ref ∷ refs) =
    let skipped = length-collect_due (suc n) d refs in
    let taken = length-collect_due n d refs in
    elim (due_commission d ref)
      as (λ o.
        length (elim o as (λ _. List Commission) [
          | none ↦ collect_due (suc n) d refs
          | some c ↦ c ∷ collect_due n d refs
        ])
        ≤ suc n) [ none ↦ skipped | some c ↦ omega (arith, taken) ]

-- What `DueCommissions` makes of its limit.
abbrev page_limit : ℕ → ℕ
page_limit n = if leb_ℤ (pos n) (pos 0) then default_page_limit else pos_part (pos n)

page_limit-positive : (n : ℕ) → page_limit (suc n) ≡ suc n
page_limit-positive n = ground arith

due_commissions-length :
    (tenant_id : ℤ) (at : Time) (n : ℕ)
    → 0 < n
    → Returns (λ cs. length cs ≤ n) (due_commissions tenant_id at (pos n))
unfolding due_commissions
due_commissions-length tenant_id at zero h = elim h [ ]
due_commissions-length tenant_id at (suc n) h = Returns-bind _ _ (λ u. Returns-gets _ (λ d. omega (
  arith,
  length-collect_due (page_limit (suc n)) d (due_range tenant_id at d.pending_due),
  page_limit-positive n,
)))

counted-OfValue :
    (r : Round) (outstanding : Money) (done : Bool)
    → OfValue (λ r'. r'.count ≤ r.count + 1) (counted r outstanding done)
counted-OfValue r outstanding false = omega arith
counted-OfValue r outstanding true =
    elim (add r.amount outstanding)
      as (λ o.
        OfValue (λ r'. r'.count ≤ r.count + 1)
          (elim o as (λ _. Result Round) [
            | err e ↦ err e
            | ok total ↦ ok (record r { count = r.count + 1; amount = total })
          ])) [ err e ↦ tt | ok total ↦ omega arith ]

settle_due-count :
    (now : Time) (c : Commission) (r : Round)
    → Returns (λ r'. r'.count ≤ r.count + 1) (settle_due now c r)
unfolding settle_due
settle_due-count now c r =
    Returns-if (leb_ℤ c.amount (pos 0) || leb_ℤ (outstanding_amount c) (pos 0)) _ _
      (λ e. Returns-pure _ (omega arith))
      (λ e.
        Returns-bind _ _ (λ done. Returns-lift _ (counted-OfValue r (outstanding_amount c) done)))

settle_batch-count :
    (now : Time) (cs : List Commission) (r : Round)
    → Returns (λ r'. r'.count ≤ r.count + length cs) (settle_batch now cs r)
unfolding settle_batch
settle_batch-count now [] r = Returns-pure r (omega arith)
settle_batch-count now (c ∷ cs) r =
    Returns-then _ _ (settle_due-count now c r)
      (λ r' h. Returns-weaken _ (settle_batch-count now cs r') (λ r'' h'. omega (arith, h, h')))

-- A round settles at most as many commissions as it asks for.
maintain_tx-count :
    (tenant_id : ℤ) (now : Time) (n : ℕ)
    → 0 < n
    → Returns (λ r. r.count ≤ n) (maintain_tx tenant_id now (pos n))
unfolding maintain_tx
maintain_tx-count tenant_id now n h =
    Returns-then _ _ (due_commissions-length tenant_id now n h) (λ due short.
      Returns-weaken _ (settle_batch-count now due _) (λ r k. omega (arith, short, k)))

-- What is settled and what is left.
abbrev budget_of : Beat → ℕ
budget_of p = p.total.settled_count + p.left

with_round-budget :
    (p : Beat) (r : Round) (m : Result Money) → budget_of (with_round p r m) ≡ budget_of p
with_round-budget p r (err e) = refl
with_round-budget p r (ok amount) = refl

after_round-budget :
    (p : Beat) (o : Result Round × Store)
    → OfValue (λ r. r.count ≤ p.left) o.0
    → budget_of (after_round p o) ≡ budget_of p
after_round-budget p (err e, s) h = refl
after_round-budget p (ok r, s) h = omega (arith, with_round-budget _ r _, h)

permits-bounds :
    (left : ℕ) → exhausted left ≡ false → (0 < permits left 200) × (permits left 200 ≤ left)
permits-bounds left h = ground arith

if-budget :
    (n : ℕ) (b : Bool) (p p' : Beat)
    → budget_of p ≡ n
    → budget_of p' ≡ n
    → budget_of (if b then p else p') ≡ n
if-budget n true p p' h h' = h
if-budget n false p p' h h' = h'

round-fits :
    (tenant_id : ℤ) (now : Time) (limit left : ℕ) (ctx : Ctx) (s : Store)
    → 0 < limit
    → limit ≤ left
    → OfValue (λ r. r.count ≤ left) (maintain_round tenant_id now (pos limit) ctx s).0
unfolding maintain_round
round-fits tenant_id now limit left ctx s positive within =
    update-OfValue _ ctx (maintain_tx tenant_id now (pos limit)) s (
      Returns-weaken _ (maintain_tx-count tenant_id now limit positive)
        (λ r short. omega (arith, short, within)))

maintain_tenant-budget :
    (n : ℕ) (tenant_id : ℤ) (now : Time) (ctxs : ℕ → Ctx) (p : Beat)
    → budget_of (maintain_tenant n tenant_id now ctxs p) ≡ budget_of p
unfolding maintain_tenant
maintain_tenant-budget zero tenant_id now ctxs p = refl
maintain_tenant-budget (suc n) tenant_id now ctxs p = elim (Bool-cases (exhausted p.left)) [
  | inl over ↦ rw over refl
  | inr more ↦
      let limit = permits p.left maintain_batch in
      let outcome = maintain_round tenant_id now (pos limit) (ctxs p.tick) p.store in
      let (positive, within) = permits-bounds p.left more in
      let fits = round-fits tenant_id now limit p.left (ctxs p.tick) p.store positive within in
      let spent = after_round-budget p outcome fits in
      let rest = maintain_tenant-budget n tenant_id now ctxs (after_round p outcome) in
      rw more (if-budget (budget_of p) _ _ _ spent (rest ∙ spent))
]

with_part-budget :
    (p part : Beat) (m : Result Money)
    → budget_of part ≡ p.left
    → budget_of (with_part p part m).1 ≡ budget_of p
with_part-budget p part (err e) h = omega (arith, h)
with_part-budget p part (ok amount) h = omega (arith, h)

maintain_group-budget :
    (tenant_id : ℤ) (now : Time) (ctxs : ℕ → Ctx) (p : Beat)
    → budget_of (maintain_group tenant_id now ctxs p).1 ≡ budget_of p
unfolding maintain_group
maintain_group-budget tenant_id now ctxs p =
    let fresh : Beat = record p { total = no_result; errors = [] } in
    with_part-budget p (maintain_tenant max_maintain_rounds tenant_id now ctxs fresh) _
      (omega (arith, maintain_tenant-budget max_maintain_rounds tenant_id now ctxs fresh))

pair-budget :
    (n : ℕ) (b : Bool) (o o' : Bool × Beat)
    → budget_of o.1 ≡ n
    → budget_of o'.1 ≡ n
    → budget_of (if b then o else o').1 ≡ n
pair-budget n true o o' h h' = h
pair-budget n false o o' h h' = h'

maintain_groups-budget :
    (gs : List TenantBatch) (now : Time) (ctxs : ℕ → Ctx) (p : Beat)
    → budget_of (maintain_groups gs now ctxs p).1 ≡ budget_of p
unfolding maintain_groups
maintain_groups-budget [] now ctxs p = refl
maintain_groups-budget (g ∷ gs) now ctxs p =
    let spent = maintain_group-budget g.tenant_id now ctxs p in
    let rest = maintain_groups-budget gs now ctxs (maintain_group g.tenant_id now ctxs p).1 in
    pair-budget _ (exhausted p.left) _ _ refl
      (pair-budget _ (maintain_group g.tenant_id now ctxs p).0 _ _ (rest ∙ spent) spent)

after_read-budget :
    (later : Beat → Beat) (now : Time) (ctxs : ℕ → Ctx) (p : Beat) (r : Result (List Commission))
    → ((p' : Beat) → budget_of (later p') ≡ budget_of p')
    → budget_of (after_read later now ctxs p r) ≡ budget_of p
unfolding after_read
after_read-budget later now ctxs p (err e) rest = refl
after_read-budget later now ctxs p (ok batch) rest =
    let groups = group_by_tenant batch in
    let after = maintain_groups groups now ctxs (record p { tick = p.tick + 1 }) in
    let spent = maintain_groups-budget groups now ctxs (record p { tick = p.tick + 1 }) in
    let idle = not after.0 || eqb after.1.total.settled_count p.total.settled_count in
    if-budget (budget_of p) (is_empty_list groups) p (if idle then after.1 else later after.1) refl
      (if-budget (budget_of p) idle after.1 (later after.1) spent (rest after.1 ∙ spent))

maintain_rounds-budget :
    (n : ℕ) (now : Time) (ctxs : ℕ → Ctx) (p : Beat)
    → budget_of (maintain_rounds n now ctxs p) ≡ budget_of p
unfolding maintain_rounds
maintain_rounds-budget zero now ctxs p = refl
maintain_rounds-budget (suc n) now ctxs p =
    if-budget _ (exhausted p.left) _ _ refl
      (after_read-budget _ now ctxs p (due_groups now ctxs p).0 (maintain_rounds-budget n now ctxs))

-- A heartbeat, over whatever store, contexts and tenants: what it has settled and what is left of the
-- budget add up to 20,000, so that it never settles more than that.
pub maintain-budget :
    (l : Ledger) (ctxs : ℕ → Ctx) (s : Store)
    → (maintain l ctxs s).total.settled_count + (maintain l ctxs s).left ≡ max_settle_per_maintain
unfolding maintain
maintain-budget l ctxs s = maintain_rounds-budget max_maintain_rounds l.now ctxs _
