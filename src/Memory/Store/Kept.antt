-- ===== src/Memory/Store/Kept.antt =====
-- The commit and the rollback of `Store.Update` under a property of the data.
use distledger.Base.{◌≡◌, refl, Bool, true, false, Option, none, some, if◌then◌else◌}
use distledger.Errors.{Err, Stop, stopped, Result, ok, err}
use distledger.Memory.Data.{Data}
use distledger.Memory.Rollback.{Tracks, rollback-eq, new_undo-Linked}
use distledger.Memory.Store.{Ctx, Store, begin, commit, update}
use distledger.Memory.Tx.{Tx, TxState}
use distledger.Memory.Tx.Rules.{Kept, Keeps, Post, any_error}
use distledger.Memory.Undo.{Undo, new_undo}

module _ {A : Type 0} (D : Data → Type 0) where
  commit_kept :
      (P : Kept) (C : Err → Bool) (s : Store) (r : Result A) (t : TxState)
      → ((u : Undo) (d : Data) → P u d → D d)
      → D s.data_of
      → Post P C r t
      → Post (Tracks s.data_of) any_error r t
      → D (commit s r t).1.data_of
  commit_kept P C s (ok a) t out d h back = out t.undo t.store h
  commit_kept P C s (err e) t out d h back = rw (rollback-eq s.data_of t.undo t.store (back refl)) d

  if_kept :
      (b : Bool) (o o' : Result A × Store)
      → D o.1.data_of
      → D o'.1.data_of
      → D (if b then o else o').1.data_of
  if_kept true o o' h h' = h
  if_kept false o o' h h' = h'

  started_kept :
      (c : Option Stop) (s : Store) (o : Result A × Store)
      → D s.data_of
      → D o.1.data_of
      → D (elim c as (λ _. Result A × Store) [ some e ↦ (err (stopped e), s) | none ↦ o ]).1.data_of
  started_kept none s o h h' = h'
  started_kept (some e) s o h h' = h

  -- A property of the data that every step of the transaction keeps on success holds after `Update`,
  -- whether it commits or rolls back.
  pub update_kept :
      (P : Kept) (C : Err → Bool) (ctx : Ctx) (body : Tx A) (s : Store)
      → ((u : Undo) (d : Data) → P u d → D d)
      → Keeps P C body
      → Keeps (Tracks s.data_of) any_error body
      → P (new_undo s.data_of) s.data_of
      → D (update ctx body s).1.data_of
  unfolding update
  update_kept P C ctx body s out k back h =
      let start = begin ctx s.data_of in
      let d = out _ _ h in
      started_kept ctx.at_start s _ d (
        if_kept ctx.in_tx _ _ d (
          if_kept s.is_closed _ _ d (
            commit_kept P C s (body start).0 (body start).1 out d (k.at start h)
              (back.at start (new_undo-Linked s.data_of)))))

-- The data is what it was.
pub record IsSame (d0 : Data) (u : Undo) (d : Data) : Type 0 where
  pub same : d ≡ d0

-- A transaction that does not change the data leaves the store's as they were.
pub update_same :
    {A : Type 0} (ctx : Ctx) (body : Tx A) (s : Store)
    → Keeps (IsSame s.data_of) any_error body
    → Keeps (Tracks s.data_of) any_error body
    → (update ctx body s).1.data_of ≡ s.data_of
update_same ctx body s k back =
    update_kept (λ d. d ≡ s.data_of) (IsSame s.data_of) any_error ctx body s (λ u d h. h.same) k
      back (record { same = refl })

-- The checks of a call ahead of its transaction.
pub checked_same :
    {A : Type 0} (v : Result (Unit {0})) (s : Store) (o : Result A × Store)
    → o.1.data_of ≡ s.data_of
    → (elim v as (λ _. Result A × Store) [ err e ↦ (err e, s) | ok u ↦ o ]).1.data_of ≡ s.data_of
checked_same (ok u) s o h = h
checked_same (err e) s o h = refl
