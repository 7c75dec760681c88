-- ===== src/Memory/Tx/Leads.antt =====
-- A program logic for steps that lead from one property of the data to another.
use distledger.Base.{
  ◌+◌, Option, none, some, ◌≡◌, refl, Bool, true, false, inl, inr, Bool-cases, if◌then◌else◌,
}
use distledger.Errors.{Err, Stop, stopped, Result, ok, err}
use distledger.Memory.Data.{Data}
use distledger.Memory.Tx.{
  TxState, Tx, Done, pure, raise, lift, gets, recover, recovered, raise_if, check_ctx, continue,
  alive_result, ◌>>=◌,
}
use distledger.Memory.Tx.Rules.{Kept, Keeps, Post}
use distledger.Memory.Undo.{Undo}

-- `R` holds of a value and the state that it comes with, and `E` after an error of the class `C`.
abbrev pub Led : {A : Type 0} → (Err → Bool) → Kept → (A → Kept) → Result A → TxState → Type 0
Led C E R (ok a) s = R a s.undo s.store
Led C E R (err e) s = C e ≡ true → E s.undo s.store

pub record Leads {A : Type 0} (P : Kept) (C : Err → Bool) (E : Kept) (R : A → Kept) (m : Tx A)
    : Type 0 where
  pub at : (s : TxState) → P s.undo s.store → Led C E R (m s).0 (m s).1

-- What holds before an error is good enough after it.
abbrev pub Falls : Kept → Kept → Type 0
Falls P E = (u : Undo) (d : Data) → P u d → E u d

module _ {A B : Type 0} (E : Kept) (C : Err → Bool) (S : B → Kept) where
  Led-continue :
      (R : A → Kept) (r : Result A) (s : TxState) (f : A → Tx B)
      → Led C E R r s
      → ((a : A) → Leads (R a) C E S (f a))
      → Led C E S (continue r f s).0 (continue r f s).1
  Led-continue R (ok a) s f h k = (k a).at s h
  Led-continue R (err e) s f h k = h

  Led-checked :
      (r : Result A) (s : TxState) (f : A → Tx B)
      → ((e : Err) → r ≡ err e → C e ≡ true → E s.undo s.store)
      → ((a : A) → r ≡ ok a → Led C E S (f a s).0 (f a s).1)
      → Led C E S (continue r f s).0 (continue r f s).1
  Led-checked (ok a) s f h k = k a refl
  Led-checked (err e) s f h k = h e refl

module _ {A B : Type 0} {P E : Kept} {C : Err → Bool} {S : B → Kept} where
  pub Leads-bind :
      (R : A → Kept) (m : Tx A) (f : A → Tx B)
      → Leads P C E R m
      → ((a : A) → Leads (R a) C E S (f a))
      → Leads P C E S (m >>= f)
  unfolding ◌>>=◌
  Leads-bind R m f h k = record { at = λ s p. Led-continue E C S R (m s).0 (m s).1 f (h.at s p) k }

  -- A checked value: the rest may use what it is.
  pub Leads-bind-lift :
      (r : Result A) (f : A → Tx B)
      → Falls P E
      → ((a : A) → r ≡ ok a → Leads P C E S (f a))
      → Leads P C E S (lift r >>= f)
  unfolding ◌>>=◌ lift
  Leads-bind-lift r f falls k = record {
    at = λ s p. Led-checked E C S r s f (λ e h c. falls _ _ p) (λ a h. (k a h).at s p);
  }

  -- A check whose errors nobody catches.
  pub Leads-bind-quiet :
      (r : Result A) (f : A → Tx B)
      → ((e : Err) → r ≡ err e → C e ≡ false)
      → ((a : A) → Leads P C E S (f a))
      → Leads P C E S (lift r >>= f)
  unfolding ◌>>=◌ lift
  Leads-bind-quiet r f quiet k = record {
    at = λ s p. Led-checked E C S r s f (λ e h c. cc (quiet e h)) (λ a h. (k a).at s p);
  }

  pub Leads-bind-gets :
      (g : Data → A) (f : A → Tx B)
      → ((a : A) → Leads (λ u d. P u d × (g d ≡ a)) C E S (f a))
      → Leads P C E S (gets g >>= f)
  unfolding ◌>>=◌ gets
  Leads-bind-gets g f k = record { at = λ s p. (k (g s.store)).at s (p, refl) }

module _ {B : Type 0} {P E : Kept} {C : Err → Bool} {S : B → Kept} where
  pub Leads-bind-raise_if :
      (b : Bool) (e : Err) (f : Done → Tx B)
      → Falls P E
      → Leads P C E S (f tt)
      → Leads P C E S (raise_if b e >>= f)
  unfolding ◌>>=◌ raise_if
  Leads-bind-raise_if true e f falls k = record { at = λ s p c. falls _ _ p }
  Leads-bind-raise_if false e f falls k = record { at = λ s p. k.at s p }

  pub Leads-bind-quiet_if :
      (b : Bool) (e : Err) (f : Done → Tx B)
      → C e ≡ false
      → Leads P C E S (f tt)
      → Leads P C E S (raise_if b e >>= f)
  unfolding ◌>>=◌ raise_if
  Leads-bind-quiet_if true e f quiet k = record { at = λ s p c. cc }
  Leads-bind-quiet_if false e f quiet k = record { at = λ s p. k.at s p }

alive-quiet :
    (C : Err → Bool) (o : Option Stop) (e : Err)
    → ((x : Stop) → C (stopped x) ≡ false)
    → alive_result o ≡ err e
    → C e ≡ false
alive-quiet C none e quiet h = cc
alive-quiet C (some x) e quiet h = let same : stopped x ≡ e = cc in rw (← same) (quiet x)

module _ {B : Type 0} {P E : Kept} {C : Err → Bool} {S : B → Kept} where
  -- A context that has ended is no error that somebody catches.
  pub Leads-bind-check_ctx :
      (f : Done → Tx B)
      → ((e : Stop) → C (stopped e) ≡ false)
      → Leads P C E S (f tt)
      → Leads P C E S (check_ctx >>= f)
  unfolding ◌>>=◌ check_ctx
  Leads-bind-check_ctx f quiet k = record {
    at = λ s p.
        let s' : TxState = record s { checks = s.checks + 1 } in
        Led-checked E C S (alive_result (s.ctx s.checks)) s' f
          (λ e h c. cc (alive-quiet C (s.ctx s.checks) e quiet h)) (λ a h. k.at s' p);
  }

Led-kept :
    {A : Type 0} (P E : Kept) (C : Err → Bool) (r : Result A) (s : TxState)
    → Post P C r s
    → Falls P E
    → Led C E (λ a. P) r s
Led-kept P E C (ok a) s h falls = h
Led-kept P E C (err e) s h falls = λ c. falls _ _ (h c)

module _ {A : Type 0} {P E : Kept} {C : Err → Bool} where
  pub Leads-pure : {R : A → Kept} (a : A) → Falls P (R a) → Leads P C E R (pure a)
  unfolding pure
  Leads-pure a h = record { at = λ s p. h _ _ p }

  pub Leads-raise : {R : A → Kept} (e : Err) → Falls P E → Leads P C E R (raise e)
  unfolding raise
  Leads-raise e falls = record { at = λ s p c. falls _ _ p }

  pub Leads-Keeps : (m : Tx A) → Keeps P C m → Falls P E → Leads P C E (λ a. P) m
  Leads-Keeps m k falls = record { at = λ s p. Led-kept P E C (m s).0 (m s).1 (k.at s p) falls }

Led-recovered :
    {A : Type 0} (P : Kept) (C : Err → Bool) (R : A → Kept) (caught : Err → Bool)
    (handler : Err → Tx A) (r : Result A) (s : TxState)
    → Led C P R r s
    → ((e : Err) → caught e ≡ true → C e ≡ true)
    → ((e : Err) → Leads P C P R (handler e))
    → Led C P R (recovered caught handler r s).0 (recovered caught handler r s).1
Led-recovered P C R caught handler (ok a) s h sub k = h
Led-recovered P C R caught handler (err e) s h sub k = elim (Bool-cases (caught e)) [
  | inl yes_caught ↦ rw yes_caught ((k e).at s (h (sub e yes_caught)))
  | inr passed ↦ rw passed h
]

module _ {A : Type 0} {P : Kept} {C : Err → Bool} {R : A → Kept} where
  pub Leads-if :
      {E : Kept} (b : Bool) (m n : Tx A)
      → Leads P C E R m
      → Leads P C E R n
      → Leads P C E R (if b then m else n)
  Leads-if true m n h h' = h
  Leads-if false m n h h' = h'

  pub Leads-recover :
      (caught : Err → Bool) (m : Tx A) (handler : Err → Tx A)
      → ((e : Err) → caught e ≡ true → C e ≡ true)
      → Leads P C P R m
      → ((e : Err) → Leads P C P R (handler e))
      → Leads P C P R (recover caught m handler)
  unfolding recover
  Leads-recover caught m handler sub h k = record {
    at = λ s p. Led-recovered P C R caught handler (m s).0 (m s).1 (h.at s p) sub k;
  }

pub Leads-weaken :
    {A : Type 0} {P P' E : Kept} {C : Err → Bool} {R : A → Kept} (m : Tx A)
    → Falls P' P
    → Leads P C E R m
    → Leads P' C E R m
Leads-weaken m falls h = record { at = λ s p. h.at s (falls _ _ p) }

Post-Led :
    {A : Type 0} (P : Kept) (C : Err → Bool) (r : Result A) (s : TxState)
    → Led C P (λ a. P) r s
    → Post P C r s
Post-Led P C (ok a) s h = h
Post-Led P C (err e) s h = h

pub Keeps-Leads :
    {A : Type 0} {P : Kept} {C : Err → Bool} (m : Tx A) → Leads P C P (λ a. P) m → Keeps P C m
Keeps-Leads {A} {P} {C} m h = record { at = λ s p. Post-Led P C (m s).0 (m s).1 (h.at s p) }
