-- ===== src/Engine/Maintain/Covered.antt =====
-- The accounts under a heartbeat.
use distledger.Base.{ℕ, ◌≡◌, false}
use distledger.Engine.Calls.Covered.{Step-AreCovered}
use distledger.Engine.Calls.Steps.{maintain_round-Step}
use distledger.Engine.Config.{Ledger}
use distledger.Engine.Covered.{AreCovered}
use distledger.Engine.Maintain.{maintain}
use distledger.Engine.Maintain.Kept.{maintain-kept}
use distledger.Memory.Store.{Ctx, Store}

-- Under rules that do not let an account carry a debt: where no stored account has a negative bucket
-- and all amounts are int64 values, the same holds after a heartbeat, however many of its transactions
-- commit, fail or are cut off.
pub maintain-AreCovered :
    (l : Ledger) (ctxs : ℕ → Ctx) (s : Store)
    → l.rules.allow_negative ≡ false
    → AreCovered s.data_of.accounts
    → AreCovered (maintain l ctxs s).store.data_of.accounts
maintain-AreCovered l ctxs s no_debt h =
    maintain-kept (λ s. AreCovered s.data_of.accounts) l ctxs s
      (λ tenant_id limit ctx t c.
        Step-AreCovered (maintain_round-Step l ctx t tenant_id limit) no_debt c)
      h
