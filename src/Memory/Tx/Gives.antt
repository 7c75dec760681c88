-- ===== src/Memory/Tx/Gives.antt =====
-- A total program logic for a transaction that only reads: in a context that is never cancelled it
-- returns the value, and leaves the data as they are.
use distledger.Base.{ℕ, Bool, false, Option, some, ◌≡◌, refl, ap, none}
use distledger.Errors.{Err, Result, ok}
use distledger.Memory.Data.{Data}
use distledger.Memory.Tx.{
  or_raise, raise_if, recover, recovered, Tx, TxState, pure, lift, gets, check_ctx, continue, ◌>>=◌,
}

pub record IsReading (d : Data) (s : TxState) : Type 0 where
  pub store_is : s.store ≡ d
  pub alive : (n : ℕ) → s.ctx n ≡ none

pub record Gives (d : Data) {A : Type 0} (m : Tx A) (a : A) : Type 0 where
  pub at : (s : TxState) → IsReading d s → ((m s).0 ≡ ok a) × IsReading d (m s).1

module _ {d : Data} where
  pub Gives-pure : {A : Type 0} (a : A) → Gives d (pure a) a
  unfolding pure
  Gives-pure a = record { at = λ s h. (refl, h) }

  pub Gives-lift : {A : Type 0} (r : Result A) (a : A) → r ≡ ok a → Gives d (lift r) a
  unfolding lift
  Gives-lift r a e = record { at = λ s h. (e, h) }

  pub Gives-gets : {A : Type 0} (f : Data → A) → Gives d (gets f) (f d)
  unfolding gets
  Gives-gets f = record { at = λ s h. (ap (λ x. ok (f x)) h.store_is, h) }

  pub Gives-check_ctx : Gives d check_ctx tt
  unfolding check_ctx
  Gives-check_ctx = record {
    at = λ s h. (rw (h.alive s.checks) refl, record { store_is = h.store_is; alive = h.alive });
  }

  continue-Gives :
      {A B : Type 0} (r : Result A) (a : A) (f : A → Tx B) (b : B) (s : TxState)
      → r ≡ ok a
      → IsReading d s
      → Gives d (f a) b
      → ((continue r f s).0 ≡ ok b) × IsReading d (continue r f s).1
  continue-Gives r a f b s e h g = rw e (g.at s h)

  pub Gives-bind :
      {A B : Type 0} (m : Tx A) (a : A) (f : A → Tx B) (b : B)
      → Gives d m a
      → Gives d (f a) b
      → Gives d (m >>= f) b
  unfolding ◌>>=◌
  Gives-bind m a f b gm gf = record {
    at = λ s h. (let (e, h') = gm.at s h in continue-Gives (m s).0 a f b (m s).1 e h' gf);
  }

  pub Gives-or_raise :
      {A : Type 0} (o : Option A) (a : A) (e : Err) → o ≡ some a → Gives d (or_raise o e) a
  unfolding or_raise
  Gives-or_raise o a e h = rw h (record { at = λ s r. (refl, r) })

  pub Gives-raise_if : (b : Bool) (e : Err) → b ≡ false → Gives d (raise_if b e) tt
  unfolding raise_if
  Gives-raise_if b e h = rw h (record { at = λ s r. (refl, r) })

  recovered-Gives :
      {A : Type 0} (caught : Err → Bool) (handler : Err → Tx A) (r : Result A) (a : A) (s : TxState)
      → r ≡ ok a
      → IsReading d s
      → ((recovered caught handler r s).0 ≡ ok a) × IsReading d (recovered caught handler r s).1
  recovered-Gives caught handler r a s e h = rw e (refl, h)

  pub Gives-recover :
      {A : Type 0} (caught : Err → Bool) (m : Tx A) (handler : Err → Tx A) (a : A)
      → Gives d m a
      → Gives d (recover caught m handler) a
  unfolding recover
  Gives-recover caught m handler a g = record {
    at = λ s h. (let (e, h') = g.at s h in recovered-Gives caught handler (m s).0 a (m s).1 e h');
  }
