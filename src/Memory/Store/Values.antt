-- ===== src/Memory/Store/Values.antt =====
-- What a transaction returns, through `Store.Update`.
use distledger.Base.{Bool, true, false, Option, none, some, if◌then◌else◌}
use distledger.Errors.{Stop, stopped, Result, ok, err}
use distledger.Memory.Store.{Ctx, Store, begin, commit, update}
use distledger.Memory.Tx.{Tx, TxState}
use distledger.Memory.Tx.Values.{OfValue, Returns}

module _ {A : Type 0} (V : A → Type 0) where
  commit-OfValue :
      (s : Store) (r : Result A) (t : TxState) → OfValue V r → OfValue V (commit s r t).0
  commit-OfValue s (ok a) t v = v
  commit-OfValue s (err e) t v = tt

  if-OfValue :
      (b : Bool) (o o' : Result A × Store)
      → OfValue V o.0
      → OfValue V o'.0
      → OfValue V (if b then o else o').0
  if-OfValue true o o' h h' = h
  if-OfValue false o o' h h' = h'

  started-OfValue :
      (c : Option Stop) (s : Store) (o : Result A × Store)
      → OfValue V o.0
      → OfValue V (elim c as (λ _. Result A × Store) [ some e ↦ (err (stopped e), s) | none ↦ o ]).0
  started-OfValue none s o h = h
  started-OfValue (some e) s o h = tt

  pub update-OfValue :
      (ctx : Ctx) (body : Tx A) (s : Store) → Returns V body → OfValue V (update ctx body s).0
  unfolding update
  update-OfValue ctx body s h =
      let start = begin ctx s.data_of in
      started-OfValue ctx.at_start s _ (
        if-OfValue ctx.in_tx _ _ tt (
          if-OfValue s.is_closed _ _ tt
            (commit-OfValue s (body start).0 (body start).1 (h.at start))))
