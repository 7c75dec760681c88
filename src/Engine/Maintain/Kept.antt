-- ===== src/Engine/Maintain/Kept.antt =====
-- What every round of settlement keeps, under a heartbeat.
use distledger.Base.{
  ℕ, zero, suc, ◌+◌, ◌≡◌, refl, Bool, true, false, not, ◌||◌, eqb, List, [], ◌∷◌, if◌then◌else◌,
}
use distledger.Base.Int.{ℤ, pos}
use distledger.Commission.{Commission}
use distledger.Engine.Config.{Ledger}
use distledger.Engine.Maintain.{
  Beat, with_round, with_part, permits, exhausted, maintain_batch, after_round, after_read,
  maintain_tenant, maintain_group, maintain_groups, maintain_rounds, maintain, TenantBatch,
  max_maintain_rounds, no_result, group_by_tenant, due_groups, is_empty_list, is_failed,
}
use distledger.Engine.Settle.{Round, maintain_round}
use distledger.Errors.{Result, ok, err}
use distledger.Memory.Store.{Ctx, Store}
use distledger.Money
use distledger.Money.{Money}

with_round-store : (p : Beat) (r : Round) (m : Result Money) → (with_round p r m).store ≡ p.store
with_round-store p r (err e) = refl
with_round-store p r (ok amount) = refl

after_round-store : (p : Beat) (o : Result Round × Store) → (after_round p o).store ≡ o.1
after_round-store p (err e, s) = refl
after_round-store p (ok r, s) = with_round-store _ r _

with_part-store : (p part : Beat) (m : Result Money) → (with_part p part m).1.store ≡ part.store
with_part-store p part (err e) = refl
with_part-store p part (ok amount) = refl

module _ (IsGood : Store → Type 0) where
  if-IsGood :
      (b : Bool) (p p' : Beat)
      → IsGood p.store
      → IsGood p'.store
      → IsGood (if b then p else p').store
  if-IsGood true p p' h h' = h
  if-IsGood false p p' h h' = h'

  pair-IsGood :
      (b : Bool) (o o' : Bool × Beat)
      → IsGood o.1.store
      → IsGood o'.1.store
      → IsGood (if b then o else o').1.store
  pair-IsGood true o o' h h' = h
  pair-IsGood false o o' h h' = h'

-- Every round of settlement keeps it.
abbrev pub KeptByRounds : (Store → Type 0) → Ledger → Type 0
KeptByRounds IsGood l =
    (tenant_id limit : ℤ) (ctx : Ctx) (s : Store)
    → IsGood s
    → IsGood (maintain_round tenant_id l.now limit ctx s).1

module _ (IsGood : Store → Type 0) (l : Ledger) (kept : KeptByRounds IsGood l)
    (ctxs : ℕ → Ctx) where
  round-IsGood :
      (tenant_id : ℤ) (limit : ℤ) (p : Beat)
      → IsGood p.store
      → IsGood (after_round p (maintain_round tenant_id l.now limit (ctxs p.tick) p.store)).store
  round-IsGood tenant_id limit p h =
      rw (after_round-store p (maintain_round tenant_id l.now limit (ctxs p.tick) p.store))
        (kept tenant_id limit (ctxs p.tick) p.store h)

  maintain_tenant-IsGood :
      (n : ℕ) (tenant_id : ℤ) (p : Beat)
      → IsGood p.store
      → IsGood (maintain_tenant n tenant_id l.now ctxs p).store
  unfolding maintain_tenant
  maintain_tenant-IsGood zero tenant_id p h = h
  maintain_tenant-IsGood (suc n) tenant_id p h =
      let limit = pos (permits p.left maintain_batch) in
      let p' = after_round p (maintain_round tenant_id l.now limit (ctxs p.tick) p.store) in
      let spent = round-IsGood tenant_id limit p h in
      if-IsGood IsGood (exhausted p.left) p _ h (
        if-IsGood IsGood (is_failed p'.errors || eqb p'.total.settled_count p.total.settled_count)
          p' _ spent (maintain_tenant-IsGood n tenant_id p' spent))

  maintain_group-IsGood :
      (tenant_id : ℤ) (p : Beat)
      → IsGood p.store
      → IsGood (maintain_group tenant_id l.now ctxs p).1.store
  unfolding maintain_group
  maintain_group-IsGood tenant_id p h =
      let fresh : Beat = record p { total = no_result; errors = [] } in
      let part = maintain_tenant max_maintain_rounds tenant_id l.now ctxs fresh in
      rw (with_part-store p part (Money.add p.total.settled_amount part.total.settled_amount))
        (maintain_tenant-IsGood max_maintain_rounds tenant_id fresh h)

  maintain_groups-IsGood :
      (gs : List TenantBatch) (p : Beat)
      → IsGood p.store
      → IsGood (maintain_groups gs l.now ctxs p).1.store
  unfolding maintain_groups
  maintain_groups-IsGood [] p h = h
  maintain_groups-IsGood (g ∷ gs) p h =
      let o = maintain_group g.tenant_id l.now ctxs p in
      let spent = maintain_group-IsGood g.tenant_id p h in
      pair-IsGood IsGood (exhausted p.left) _ _ h
        (pair-IsGood IsGood o.0 _ _ (maintain_groups-IsGood gs o.1 spent) spent)

  after_read-IsGood :
      (later : Beat → Beat) (p : Beat) (r : Result (List Commission))
      → ((p' : Beat) → IsGood p'.store → IsGood (later p').store)
      → IsGood p.store
      → IsGood (after_read later l.now ctxs p r).store
  unfolding after_read
  after_read-IsGood later p (err e) rest h = h
  after_read-IsGood later p (ok batch) rest h =
      let groups = group_by_tenant batch in
      let after = maintain_groups groups l.now ctxs (record p { tick = p.tick + 1 }) in
      let spent = maintain_groups-IsGood groups (record p { tick = p.tick + 1 }) h in
      let idle = not after.0 || eqb after.1.total.settled_count p.total.settled_count in
      if-IsGood IsGood (is_empty_list groups) p (if idle then after.1 else later after.1) h
        (if-IsGood IsGood idle after.1 (later after.1) spent (rest after.1 spent))

  maintain_rounds-IsGood :
      (n : ℕ) (p : Beat) → IsGood p.store → IsGood (maintain_rounds n l.now ctxs p).store
  unfolding maintain_rounds
  maintain_rounds-IsGood zero p h = h
  maintain_rounds-IsGood (suc n) p h =
      if-IsGood IsGood (exhausted p.left) p _ h
        (after_read-IsGood _ p (due_groups l.now ctxs p).0 (maintain_rounds-IsGood n) h)

-- A heartbeat keeps what every round keeps.
pub maintain-kept :
    (IsGood : Store → Type 0) (l : Ledger) (ctxs : ℕ → Ctx) (s : Store)
    → KeptByRounds IsGood l
    → IsGood s
    → IsGood (maintain l ctxs s).store
unfolding maintain
maintain-kept IsGood l ctxs s kept h =
    maintain_rounds-IsGood IsGood l kept ctxs max_maintain_rounds _ h
