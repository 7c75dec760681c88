-- ===== src/Engine/Calls/Balanced.antt =====
-- The books under the calls of the ledger, and under any history of calls from an empty store.
use distledger.Base.{Option}
use distledger.Engine.Atomic.{Tracks-Writes}
use distledger.Engine.Balanced.{AreBalanced-Writes}
use distledger.Engine.Calls.{Call, perform}
use distledger.Engine.Calls.Covered.{as_answer_store, unless_locked_store}
use distledger.Engine.Calls.Steps.{Step, same, updated, bound, answered, perform-Step}
use distledger.Engine.Config.{Ledger}
use distledger.Engine.Payout.{PayoutChannel}
use distledger.Errors.{Result, is_handled}
use distledger.Memory.Books.{AreBalanced, IsBalanced}
use distledger.Memory.Elsewhere.{OfBooks}
use distledger.Memory.Rollback.{Tracks}
use distledger.Memory.Store.{Ctx, Store}
use distledger.Memory.Store.Kept.{update_kept}
use distledger.Memory.Tx.Rules.{any_error}

pub Step-IsBalanced :
    {l : Ledger} {ctx : Ctx} {s : Store} {A : Type 0} {o : Result A × Store}
    → Step l ctx s A o
    → IsBalanced s.data_of
    → IsBalanced o.1.data_of
Step-IsBalanced (same r) h = h
Step-IsBalanced {l} {ctx} {s} (updated body k) h =
    update_kept IsBalanced (OfBooks AreBalanced) is_handled ctx body s (λ u d p. p.on)
      (k (OfBooks AreBalanced) is_handled (AreBalanced-Writes l))
      (k (Tracks s.data_of) any_error (Tracks-Writes l s.data_of)) (record { on = h })
Step-IsBalanced (bound {o} step u) h = rw (unless_locked_store o) (Step-IsBalanced step h)
Step-IsBalanced (answered f {o} step) h = rw (as_answer_store f o) (Step-IsBalanced step h)

-- Where the books of a store balance, they balance after each call, whether it succeeds or fails and
-- whenever its context ends: each account holds, in every bucket, the exact sum of what the entries of
-- its user record, its last entry says the same, and it has no money without an entry. The sums are
-- exact where the entries are int64 values.
pub perform-IsBalanced :
    (l : Ledger) (channel : Option PayoutChannel) (c : Call) (ctx : Ctx) (s : Store)
    → IsBalanced s.data_of
    → IsBalanced (perform l channel c ctx s).1.data_of
perform-IsBalanced l channel c ctx s h = Step-IsBalanced (perform-Step l ctx s channel c) h
