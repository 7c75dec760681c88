-- ===== src/Memory/Store/Clear.antt =====
-- Calls that nothing stands in the way of: the store is open and the context reports no error.
use distledger.Base.{ℕ, ◌≡◌, refl, Bool, false, none, ◌∙◌, if◌then◌else◌}
use distledger.Errors.{Result, ok}
use distledger.Memory.Store.{Ctx, Store, begin, view, viewed}
use distledger.Memory.Tx.{Tx, TxState}
use distledger.Memory.Tx.Gives.{Gives}

-- A context that lets a call through to its end.
pub record IsClear (ctx : Ctx) (s : Store) : Type 0 where
  pub at_start : ctx.at_start ≡ none
  pub later : (n : ℕ) → ctx.later n ≡ none
  pub in_tx : ctx.in_tx ≡ false
  pub is_open : s.is_closed ≡ false

pub unless_closed : {A : Type 0} (b : Bool) (x y : A) → b ≡ false → (if b then x else y) ≡ y
unless_closed b x y h = rw h refl

viewed-same :
    {A : Type 0} (s : Store) (a : A) (r : Result A) (t : TxState)
    → r ≡ ok a
    → viewed s (r, t) ≡ (ok a, s)
viewed-same s a r t e = rw e refl

pub view-Gives :
    {A : Type 0} (ctx : Ctx) (body : Tx A) (s : Store) (a : A)
    → IsClear ctx s
    → Gives s.data_of body a
    → view ctx body s ≡ (ok a, s)
unfolding view
view-Gives ctx body s a clear g =
    let start = begin ctx s.data_of in
    let (e, h) = g.at start (record { store_is = refl; alive = clear.later }) in
    rw (clear.at_start, view)
      (rw clear.in_tx (
        unless_closed s.is_closed _ _ clear.is_open
        ∙ viewed-same s a (body start).0 (body start).1 e))
