-- ===== src/Memory/Tx/Values.antt =====
-- A program logic for what a transaction returns.
use distledger.Base.{◌≡◌, refl, Bool, true, false, Option, none, some, if◌then◌else◌}
use distledger.Errors.{Err, Result, ok, err}
use distledger.Memory.Tx.{
  Tx, TxState, pure, raise, lift, gets, recover, recovered, if_some, continue, ◌>>=◌,
}
use distledger.Memory.Data.{Data}
use distledger.Memory.Tx.Rules.{Kept, Keeps, Post}

-- `V` holds of the value, if there is one.
abbrev pub OfValue : {A : Type 0} → (A → Type 0) → Result A → Type 0
OfValue V (ok a) = V a
OfValue V (err e) = Unit

pub record Returns {A : Type 0} (V : A → Type 0) (m : Tx A) : Type 0 where
  pub at : (s : TxState) → OfValue V (m s).0

module _ {A : Type 0} {V : A → Type 0} where
  pub Returns-pure : (a : A) → V a → Returns V (pure a)
  unfolding pure
  Returns-pure a v = record { at = λ s. v }

  pub Returns-raise : (e : Err) → Returns V (raise e)
  unfolding raise
  Returns-raise e = record { at = λ s. tt }

  pub Returns-lift : (r : Result A) → OfValue V r → Returns V (lift r)
  unfolding lift
  Returns-lift r v = record { at = λ s. v }

  pub Returns-gets : (f : Data → A) → ((d : Data) → V (f d)) → Returns V (gets f)
  unfolding gets
  Returns-gets f v = record { at = λ s. v s.store }

  pub Returns-if :
      (b : Bool) (m n : Tx A)
      → (b ≡ true → Returns V m)
      → (b ≡ false → Returns V n)
      → Returns V (if b then m else n)
  Returns-if true m n h h' = h refl
  Returns-if false m n h h' = h' refl

  OfValue-recovered :
      (caught : Err → Bool) (handler : Err → Tx A) (r : Result A) (s : TxState)
      → OfValue V r
      → ((e : Err) → Returns V (handler e))
      → OfValue V (recovered caught handler r s).0
  OfValue-recovered caught handler (ok a) s v h = v
  OfValue-recovered caught handler (err e) s v h =
      elim (caught e) as (λ b. OfValue V (if b then handler e s else (err e, s)).0) [
        | true ↦ (h e).at s
        | false ↦ tt
      ]

  pub Returns-recover :
      (caught : Err → Bool) (m : Tx A) (handler : Err → Tx A)
      → Returns V m
      → ((e : Err) → Returns V (handler e))
      → Returns V (recover caught m handler)
  unfolding recover
  Returns-recover caught m handler hm h = record {
    at = λ s. OfValue-recovered caught handler (m s).0 (m s).1 (hm.at s) h;
  }

OfValue-any : {A : Type 0} (r : Result A) → OfValue (λ a. Unit) r
OfValue-any (ok a) = tt
OfValue-any (err e) = tt

module _ {A B : Type 0} {V : B → Type 0} where
  OfValue-continue :
      {U : A → Type 0} (r : Result A) (s : TxState) (f : A → Tx B)
      → OfValue U r
      → ((a : A) → U a → Returns V (f a))
      → OfValue V (continue r f s).0
  OfValue-continue (ok a) s f u h = (h a u).at s
  OfValue-continue (err e) s f u h = tt

  pub Returns-then :
      {U : A → Type 0} (m : Tx A) (f : A → Tx B)
      → Returns U m
      → ((a : A) → U a → Returns V (f a))
      → Returns V (m >>= f)
  unfolding ◌>>=◌
  Returns-then m f hm h = record { at = λ s. OfValue-continue (m s).0 (m s).1 f (hm.at s) h }

  pub Returns-bind : (m : Tx A) (f : A → Tx B) → ((a : A) → Returns V (f a)) → Returns V (m >>= f)
  Returns-bind m f h = Returns-then m f (record { at = λ s. OfValue-any (m s).0 }) (λ a u. h a)

module _ {A : Type 0} {V U : A → Type 0} where
  OfValue-weaken : (r : Result A) → OfValue U r → ((a : A) → U a → V a) → OfValue V r
  OfValue-weaken (ok a) h sub = sub a h
  OfValue-weaken (err e) h sub = tt

  pub Returns-weaken : (m : Tx A) → Returns U m → ((a : A) → U a → V a) → Returns V m
  Returns-weaken m h sub = record { at = λ s. OfValue-weaken (m s).0 (h.at s) sub }

module _ {A B : Type 0} {V : B → Type 0} where
  OfValue-checked :
      (r : Result A) (s : TxState) (f : A → Tx B)
      → ((a : A) → r ≡ ok a → Returns V (f a))
      → OfValue V (continue r f s).0
  OfValue-checked (ok a) s f h = (h a refl).at s
  OfValue-checked (err e) s f h = tt

  -- The rest may use what a checked value is.
  pub Returns-bind-lift :
      (r : Result A) (f : A → Tx B)
      → ((a : A) → r ≡ ok a → Returns V (f a))
      → Returns V (lift r >>= f)
  unfolding ◌>>=◌ lift
  Returns-bind-lift r f h = record { at = λ s. OfValue-checked r s f h }

pub Returns-if_some :
    {A B : Type 0} {V : B → Type 0} (o : Option A) (f : A → Tx B) (m : Tx B)
    → ((a : A) → Returns V (f a))
    → Returns V m
    → Returns V (if_some o f m)
unfolding if_some
Returns-if_some none f m h h' = h'
Returns-if_some (some a) f m h h' = h a

pub ruleset value_rules = (Returns-pure, Returns-if, Returns-bind, refl)

module _ {A B : Type 0} {P : Kept} {C : Err → Bool} where
  Post-continue_of :
      (V : A → Type 0) (r : Result A) (s : TxState) (f : A → Tx B)
      → Post P C r s
      → OfValue V r
      → ((a : A) → V a → Keeps P C (f a))
      → Post P C (continue r f s).0 (continue r f s).1
  Post-continue_of V (ok a) s f h v k = (k a v).at s h
  Post-continue_of V (err e) s f h v k = h

  -- The rest may use what the step returns.
  pub Keeps-then :
      (V : A → Type 0) (m : Tx A) (f : A → Tx B)
      → Keeps P C m
      → Returns V m
      → ((a : A) → V a → Keeps P C (f a))
      → Keeps P C (m >>= f)
  unfolding ◌>>=◌
  Keeps-then V m f km vm k = record {
    at = λ s h. Post-continue_of V (m s).0 (m s).1 f (km.at s h) (vm.at s) k;
  }

-- What a step returns from a state of which `P` holds.
pub record Yields {A : Type 0} (P : Kept) (V : A → Type 0) (m : Tx A) : Type 0 where
  pub at : (s : TxState) → P s.undo s.store → OfValue V (m s).0

-- The rest may use what the step returns there.
pub Keeps-yields :
    {A B : Type 0} {P : Kept} {C : Err → Bool} (V : A → Type 0) (m : Tx A) (f : A → Tx B)
    → Keeps P C m
    → Yields P V m
    → ((a : A) → V a → Keeps P C (f a))
    → Keeps P C (m >>= f)
unfolding ◌>>=◌
Keeps-yields V m f km vm k = record {
  at = λ s h. Post-continue_of V (m s).0 (m s).1 f (km.at s h) (vm.at s h) k;
}
