-- ===== src/Engine/Calls/Unchanged.antt =====
-- Calls that return an error, and the store after them.
use distledger.Base.{Option, Bool, true, false, ◌≡◌, refl}
use distledger.Engine.Atomic.{Tracks-Writes}
use distledger.Agent.{Binding}
use distledger.Engine.Binding.{unless_locked}
use distledger.Engine.Binding.Untouched.{Untouched}
use distledger.Engine.Config.{Ledger}
use distledger.Engine.Payout.{PayoutChannel}
use distledger.Errors.{Err, Result, ok, err}
use distledger.Memory.Rollback.{Tracks}
use distledger.Memory.Store.{Ctx, Store, update, update_failed}
use distledger.Memory.Tx.Rules.{any_error}
use distledger.Engine.Calls.Steps.{Step, same, updated, bound, answered, perform-Step}
use distledger.Engine.Calls.{Call, Answer, as_answer, perform}

-- An outcome that is an error comes with the store as it was.
abbrev Safe : {A : Type 0} → Store → Result A × Store → Type 0
Safe s (ok a, s') = Unit
Safe s (err e, s') = s' ≡ s

module _ {A : Type 0} where
  Safe-failed : (s : Store) (o : Result A × Store) (e : Err) → Safe s o → o.0 ≡ err e → o.1 ≡ s
  Safe-failed s (ok a, s') e h p = cc
  Safe-failed s (err x, s') e h p = h

  Safe-of_failed :
      (s : Store) (o : Result A × Store) → ((e : Err) → o.0 ≡ err e → o.1 ≡ s) → Safe s o
  Safe-of_failed s (ok a, s') h = tt
  Safe-of_failed s (err x, s') h = h x refl

  same-Safe : (s : Store) (r : Result A) → Safe s (r, s)
  same-Safe s (ok a) = tt
  same-Safe s (err e) = refl

  as_answer-Safe :
      (f : A → Answer) (s : Store) (o : Result A × Store) → Safe s o → Safe s (as_answer f o)
  as_answer-Safe f s (ok a, s') h = tt
  as_answer-Safe f s (err x, s') h = h

-- A binding that is locked is an error behind the commit, of a transaction that wrote nothing.
unless_locked-Safe :
    (s : Store) (o : Result (Binding × Bool) × Store)
    → Safe s o
    → Untouched s o
    → Safe s (unless_locked o)
unless_locked-Safe s (ok (b, true), s') h u = u b refl
unless_locked-Safe s (ok (b, false), s') h u = tt
unless_locked-Safe s (err e, s') h u = h

Step-Safe :
    {l : Ledger} {ctx : Ctx} {s : Store} {A : Type 0} {o : Result A × Store}
    → Step l ctx s _ o
    → Safe s o
Step-Safe {s = s} (same r) = same-Safe s r
Step-Safe {l} {ctx} {s} (updated body k) =
    Safe-of_failed s (update ctx body s)
      (λ e. update_failed ctx body s e (k (Tracks s.data_of) any_error (Tracks-Writes l s.data_of)))
Step-Safe {s = s} (bound {o} h u) = unless_locked-Safe s o (Step-Safe h) u
Step-Safe {s = s} (answered f {o} h) = as_answer-Safe f s o (Step-Safe h)

-- Of an order paid, received or refunded, of a new agent or binding, of requesting, approving,
-- rejecting, paying and marking a withdrawal, of freezing, unfreezing and voiding a commission, and
-- of a round of settlement: whenever the call returns an error, `ErrBindingLocked` included, the store
-- is exactly what it was before the call, whatever the payout channel answered and whenever a context
-- ended.
pub perform_failed :
    (l : Ledger) (channel : Option PayoutChannel) (c : Call) (ctx : Ctx) (s : Store) (e : Err)
    → (perform l channel c ctx s).0 ≡ err e
    → (perform l channel c ctx s).1 ≡ s
perform_failed l channel c ctx s e p =
    Safe-failed s (perform l channel c ctx s) e (Step-Safe (perform-Step l ctx s channel c)) p
