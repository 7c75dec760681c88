-- ===== src/Memory/Store.antt =====
-- memory.go: `Store.Update` and `Store.View`.
pub mod Kept
pub mod Values
pub mod Clear
use distledger.Base.{ℕ, ◌≡◌, refl, Bool, false, Option, none, some, arith, if◌then◌else◌}
use distledger.Errors.{Err, Stop, stopped, Result, ok, err, closed, nested_tx}
use distledger.Memory.Data.{Data, new_data}
use distledger.Memory.Rollback.{Tracks, rollback-eq, new_undo-Linked}
use distledger.Memory.Tx.{Tx, TxState}
use distledger.Memory.Tx.Rules.{Keeps, Post, any_error}
use distledger.Memory.Undo.{rollback, new_undo}

-- What a call gets from its context: the error reported at the start, those reported later, and
-- whether the call stands inside a transaction.
pub record Ctx : Type 0 where
  pub at_start : Option Stop
  pub later : ℕ → Option Stop
  pub in_tx : Bool

pub record Store : Type 0 where
  pub data_of : Data
  pub is_closed : Bool

-- `New`
abbrev pub new_store : Store
new_store = record { data_of = new_data; is_closed = false }

abbrev pub begin : Ctx → Data → TxState
begin ctx d = record { store = d; undo = new_undo d; ctx = ctx.later; checks = 0 }

module _ {A : Type 0} where
  abbrev pub commit : Store → Result A → TxState → Result A × Store
  commit s (ok a) t = (ok a, record s { data_of = t.store })
  commit s (err e) t = (err e, record s { data_of = rollback t.undo t.store })

  -- `Store.Update`
  unfoldable pub update : Ctx → Tx A → Store → Result A × Store
  update ctx body s = elim ctx.at_start [
    | some e ↦ (err (stopped e), s)
    | none ↦
        if ctx.in_tx
        then (err nested_tx, s)
        else if s.is_closed
        then (err closed, s)
        else (let (r, t) = body (begin ctx s.data_of) in commit s r t)
  ]

  abbrev pub viewed : Store → Result A × TxState → Result A × Store
  viewed s (r, t) = (r, s)

  -- `Store.View`: a reader has no writes.
  unfoldable pub view : Ctx → Tx A → Store → Result A × Store
  view ctx body s = elim ctx.at_start [
    | some e ↦ (err (stopped e), s)
    | none ↦
        if ctx.in_tx
        then (err nested_tx, s)
        else if s.is_closed
        then (err closed, s)
        else viewed s (body (begin ctx s.data_of))
  ]

  commit_failed :
      (s : Store) (r : Result A) (t : TxState) (e : Err)
      → Post (Tracks s.data_of) any_error r t
      → (commit s r t).0 ≡ err e
      → (commit s r t).1 ≡ s
  commit_failed s (ok a) t e h p = cc
  commit_failed s (err x) t e h p = rw (rollback-eq s.data_of t.undo t.store (h refl))

  -- A transaction whose steps keep the undo log in step with the data is atomic: an `Update` that
  -- returns an error leaves the store exactly as it was.
  pub update_failed :
      (ctx : Ctx) (body : Tx A) (s : Store) (e : Err)
      → Keeps (Tracks s.data_of) any_error body
      → (update ctx body s).0 ≡ err e
      → (update ctx body s).1 ≡ s
  unfolding update
  update_failed ctx body s e k p =
      let start = begin ctx s.data_of in
      ground (
        arith,
        commit_failed s (body start).0 (body start).1 e (k.at start (new_undo-Linked s.data_of)),
      )
