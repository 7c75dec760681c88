-- ===== src/Engine/Binding/Untouched.antt =====
-- A binding that is locked to another agent: the transaction has written nothing.
use distledger.Base.{◌≡◌, refl, Bool, true, false, Option, none, some, if◌then◌else◌}
use distledger.Agent.{Binding}
use distledger.Clock.{Time}
use distledger.Engine.Binding.{rebind, bind_new, bind_buyer_tx, bind_or_find, bound_time}
use distledger.Engine.Checks.{check_buyer}
use distledger.Engine.Config.{Ledger}
use distledger.Errors.{Err, Stop, stopped, Result, ok, err}
use distledger.Events.{BindBuyerRequest}
use distledger.Memory.Atomic.{read_rules}
use distledger.Memory.Data.{Data}
use distledger.Memory.Store.{Ctx, Store, begin, commit, update}
use distledger.Memory.Store.Kept.{IsSame}
use distledger.Memory.Tx.{Tx, TxState, pure, if_some, ◌>>=◌}
use distledger.Memory.Tx.Leads.{
  Led, Leads, Leads-bind, Leads-pure, Leads-Keeps, Leads-if, Leads-bind-raise_if,
}
use distledger.Memory.Tx.Rules.{Kept, any_error, Keeps-recover_any}
use distledger.Memory.Writer.{put_binding}

abbrev Any : Kept
Any u d = Unit

-- Where the answer is that the binding is locked, the data are what they were.
abbrev SameIfLocked : Data → Binding × Bool → Kept
SameIfLocked d0 a u d = a.1 ≡ true → d ≡ d0

Led-Any : {A : Type 0} (r : Result A) (t : TxState) → Led any_error Any (λ a. Any) r t
Led-Any (ok a) t = tt
Led-Any (err e) t = λ c. tt

Leads-Any : {A : Type 0} {P : Kept} (m : Tx A) → Leads P any_error Any (λ a. Any) m
Leads-Any m = record { at = λ s p. Led-Any (m s).0 (m s).1 }

module _ (l : Ledger) (req : BindBuyerRequest) (at : Time) (d0 : Data) where
  -- A binding that has just been written is not locked.
  put-SameIfLocked :
      (b : Binding)
      → Leads (IsSame d0) any_error Any (SameIfLocked d0) (put_binding b >>= λ b. pure (b, false))
  put-SameIfLocked b =
      Leads-bind (λ b. Any) (put_binding b) _ (Leads-Any (put_binding b))
        (λ b. Leads-pure (b, false) (λ u d p. λ locked. cc))

  rebind-SameIfLocked :
      (b : Binding) → Leads (IsSame d0) any_error Any (SameIfLocked d0) (rebind l req at b)
  unfolding rebind
  rebind-SameIfLocked b =
      Leads-if _ _ _ (Leads-pure _ (λ u d p. λ locked. p.same)) (put-SameIfLocked _)

  after-SameIfLocked :
      (o : Option Binding)
      → Leads
          (IsSame d0)
          any_error
          Any
          (SameIfLocked d0)
          (if_some o (rebind l req at) (bind_new l req at))
  unfolding if_some bind_new
  after-SameIfLocked none = put-SameIfLocked _
  after-SameIfLocked (some b) = rebind-SameIfLocked b

  bind_buyer_tx-SameIfLocked :
      Leads (IsSame d0) any_error Any (SameIfLocked d0) (bind_buyer_tx l req at)
  unfolding bind_buyer_tx
  bind_buyer_tx-SameIfLocked =
      Leads-bind (λ a. IsSame d0) _ _
        (Leads-Keeps _ (search (read_rules, Keeps-recover_any) depth 20) (λ u d p. tt))
        (λ a.
          Leads-bind-raise_if _ _ _ (λ u d p. tt)
            (Leads-bind-raise_if _ _ _ (λ u d p. tt)
              (Leads-bind (λ o. IsSame d0) _ _
                (Leads-Keeps _ (search (read_rules, Keeps-recover_any) depth 20) (λ u d p. tt))
                after-SameIfLocked)))

-- Where the outcome is that the binding is locked, the store is what it was.
abbrev pub Untouched : Store → Result (Binding × Bool) × Store → Type 0
Untouched s o = (b : Binding) → o.0 ≡ ok (b, true) → o.1 ≡ s

error-Untouched : (s : Store) (e : Err) → Untouched s (err e, s)
error-Untouched s e b p = cc

if-Untouched :
    (s : Store) (c : Bool) (o o' : Result (Binding × Bool) × Store)
    → Untouched s o
    → Untouched s o'
    → Untouched s (if c then o else o')
if-Untouched s true o o' h h' = h
if-Untouched s false o o' h h' = h'

started-Untouched :
    (s : Store) (c : Option Stop) (o : Result (Binding × Bool) × Store)
    → Untouched s o
    → Untouched s (elim c as (λ _. Result (Binding × Bool) × Store) [
      | some e ↦ (err (stopped e), s)
      | none ↦ o
    ])
started-Untouched s none o h = h
started-Untouched s (some e) o h = error-Untouched s (stopped e)

commit-Untouched :
    (s : Store) (r : Result (Binding × Bool)) (t : TxState)
    → Led any_error Any (SameIfLocked s.data_of) r t
    → Untouched s (commit s r t)
commit-Untouched s (ok (b, true)) t h x p = rw (h refl) refl
commit-Untouched s (ok (b, false)) t h x p = cc
commit-Untouched s (err e) t h x p = cc

update-Untouched :
    (ctx : Ctx) (body : Tx (Binding × Bool)) (s : Store)
    → Leads (IsSame s.data_of) any_error Any (SameIfLocked s.data_of) body
    → Untouched s (update ctx body s)
unfolding update
update-Untouched ctx body s k =
    let start = begin ctx s.data_of in
    started-Untouched s ctx.at_start _ (
      if-Untouched s ctx.in_tx _ _ (error-Untouched s _) (
        if-Untouched s s.is_closed _ _ (error-Untouched s _)
          (commit-Untouched s (body start).0 (body start).1 (k.at start (record { same = refl })))))

checked-Untouched :
    (s : Store) (v : Result (Unit {0})) (o : Result (Binding × Bool) × Store)
    → Untouched s o
    → Untouched s
        (elim v as (λ _. Result (Binding × Bool) × Store) [ err e ↦ (err e, s) | ok u ↦ o ])
checked-Untouched s (ok u) o h = h
checked-Untouched s (err e) o h = error-Untouched s e

pub bind_or_find-Untouched :
    (l : Ledger) (req : BindBuyerRequest) (ctx : Ctx) (s : Store)
    → Untouched s (bind_or_find l req ctx s)
unfolding bind_or_find
bind_or_find-Untouched l req ctx s =
    checked-Untouched s (check_buyer req) _
      (update-Untouched ctx _ s (bind_buyer_tx-SameIfLocked l req (bound_time l req) s.data_of))
