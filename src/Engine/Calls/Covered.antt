-- ===== src/Engine/Calls/Covered.antt =====
-- Accounts without a negative bucket under the calls of the ledger.
use distledger.Base.{Bool, true, false, Option, ◌≡◌, refl, false}
use distledger.Engine.Atomic.{Tracks-Writes}
use distledger.Engine.Calls.{Call, Answer, as_answer, perform}
use distledger.Engine.Calls.Steps.{Step, same, updated, bound, answered, perform-Step}
use distledger.Agent.{Binding}
use distledger.Engine.Binding.{unless_locked}
use distledger.Engine.Config.{Ledger}
use distledger.Engine.Covered.{AreCovered, AreCovered-Writes}
use distledger.Engine.Payout.{PayoutChannel}
use distledger.Errors.{Result, ok, err}
use distledger.Memory.Elsewhere.{OfAccounts}
use distledger.Memory.Rollback.{Tracks}
use distledger.Memory.Store.{Ctx, Store}
use distledger.Memory.Tx.Rules.{any_error}
use distledger.Memory.Store.Kept.{update_kept}

pub as_answer_store : {A : Type 0} (f : A → Answer) (o : Result A × Store) → (as_answer f o).1 ≡ o.1
as_answer_store f (ok a, s) = refl
as_answer_store f (err e, s) = refl

pub unless_locked_store : (o : Result (Binding × Bool) × Store) → (unless_locked o).1 ≡ o.1
unless_locked_store (ok (b, true), s) = refl
unless_locked_store (ok (b, false), s) = refl
unless_locked_store (err e, s) = refl

pub Step-AreCovered :
    {l : Ledger} {ctx : Ctx} {s : Store} {A : Type 0} {o : Result A × Store}
    → Step l ctx s A o
    → l.rules.allow_negative ≡ false
    → AreCovered s.data_of.accounts
    → AreCovered o.1.data_of.accounts
Step-AreCovered (same r) no_debt h = h
Step-AreCovered {l} {ctx} {s} (updated body k) no_debt h =
    update_kept (λ d. AreCovered d.accounts) (OfAccounts AreCovered) any_error ctx body s
      (λ u d p. p.on) (k (OfAccounts AreCovered) any_error (AreCovered-Writes l no_debt))
      (k (Tracks s.data_of) any_error (Tracks-Writes l s.data_of)) (record { on = h })
Step-AreCovered (bound {o} h u) no_debt c = rw (unless_locked_store o) (Step-AreCovered h no_debt c)
Step-AreCovered (answered f {o} h) no_debt c =
    rw (as_answer_store f o) (Step-AreCovered h no_debt c)

-- Under rules that do not let an account carry a debt: where no stored account has a negative bucket
-- and all of their amounts are int64 values, the same holds after a call, an order's accrual without
-- a guard included, whether the call succeeds or fails.
pub perform-AreCovered :
    (l : Ledger) (channel : Option PayoutChannel) (c : Call) (ctx : Ctx) (s : Store)
    → l.rules.allow_negative ≡ false
    → AreCovered s.data_of.accounts
    → AreCovered (perform l channel c ctx s).1.data_of.accounts
perform-AreCovered l channel c ctx s no_debt h =
    Step-AreCovered (perform-Step l ctx s channel c) no_debt h
