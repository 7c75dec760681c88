-- ===== src/Memory/Tx/Rules.antt =====
-- A program logic for transactions: what a step keeps, on success and on the errors that a caller
-- may catch.
use distledger.Base.{
  ◌≡◌, refl, Bool, true, false, Option, none, some, inl, inr, Bool-cases, if◌then◌else◌,
}
use distledger.Errors.{Err, Result, ok, err}
use distledger.Memory.Data.{Data}
use distledger.Memory.Undo.{Undo}
use distledger.Memory.Tx.{
  TxState, Tx, pure, raise, lift, gets, recover, recovered, if_some, raise_if, Done, check_ctx,
  or_raise, continue, ◌>>=◌,
}

-- A predicate on the undo log and the data.
abbrev pub Kept : Type 1
Kept = Undo → Data → Type 0

-- `P` holds of the new state after a success, and after an error of the class `C`.
abbrev pub Post : {A : Type 0} → Kept → (Err → Bool) → Result A → TxState → Type 0
Post P C (ok a) s = P s.undo s.store
Post P C (err e) s = C e ≡ true → P s.undo s.store

pub record Keeps {A : Type 0} (P : Kept) (C : Err → Bool) (m : Tx A) : Type 0 where
  pub at : (s : TxState) → P s.undo s.store → Post P C (m s).0 (m s).1

-- Classes of errors.
abbrev pub any_error : Err → Bool
any_error e = true

abbrev pub no_error : Err → Bool
no_error e = false

module _ {A : Type 0} (P : Kept) (C : Err → Bool) where
  Post-same : (r : Result A) (s : TxState) → P s.undo s.store → Post P C r s
  Post-same (ok a) s h = h
  Post-same (err e) s h = λ c. h

module _ {A : Type 0} {P : Kept} {C : Err → Bool} where
  pub Keeps-pure : (a : A) → Keeps P C (pure a)
  unfolding pure
  Keeps-pure a = record { at = λ s h. h }

  pub Keeps-raise : (e : Err) → Keeps P C (raise {A = A} e)
  unfolding raise
  Keeps-raise e = record { at = λ s h c. h }

  pub Keeps-lift : (r : Result A) → Keeps P C (lift r)
  unfolding lift
  Keeps-lift r = record { at = λ s h. Post-same P C r s h }

  pub Keeps-gets : (f : Data → A) → Keeps P C (gets f)
  unfolding gets
  Keeps-gets f = record { at = λ s h. h }

  pub Keeps-or_raise : (o : Option A) (e : Err) → Keeps P C (or_raise o e)
  unfolding or_raise
  Keeps-or_raise none e = record { at = λ s h c. h }
  Keeps-or_raise (some a) e = record { at = λ s h. h }

  pub Keeps-if :
      (b : Bool) (m n : Tx A)
      → (b ≡ true → Keeps P C m)
      → (b ≡ false → Keeps P C n)
      → Keeps P C (if b then m else n)
  Keeps-if true m n km kn = km refl
  Keeps-if false m n km kn = kn refl

module _ {P : Kept} {C : Err → Bool} where
  pub Keeps-raise_if : (b : Bool) (e : Err) → Keeps P C (raise_if b e)
  unfolding raise_if
  Keeps-raise_if true e = record { at = λ s h c. h }
  Keeps-raise_if false e = record { at = λ s h. h }

  pub Keeps-check_ctx : Keeps P C check_ctx
  unfolding check_ctx
  Keeps-check_ctx = record { at = λ s h. Post-same P C (check_ctx s).0 (check_ctx s).1 h }

module _ {A B : Type 0} {P : Kept} {C : Err → Bool} where
  Post-continue :
      (r : Result A) (s : TxState) (f : A → Tx B)
      → Post P C r s
      → ((a : A) → r ≡ ok a → Keeps P C (f a))
      → Post P C (continue r f s).0 (continue r f s).1
  Post-continue (ok a) s f h k = (k a refl).at s h
  Post-continue (err e) s f h k = h

  pub Keeps-bind :
      (m : Tx A) (f : A → Tx B) → Keeps P C m → ((a : A) → Keeps P C (f a)) → Keeps P C (m >>= f)
  unfolding ◌>>=◌
  Keeps-bind m f km kf = record {
    at = λ s h. Post-continue (m s).0 (m s).1 f (km.at s h) (λ a _. kf a);
  }

  -- The rest may use what a checked value is.
  pub Keeps-bind-lift :
      (r : Result A) (f : A → Tx B)
      → ((a : A) → r ≡ ok a → Keeps P C (f a))
      → Keeps P C (lift r >>= f)
  unfolding ◌>>=◌
  Keeps-bind-lift r f kf = record { at = λ s h. Post-continue r s f (Post-same P C r s h) kf }

module _ {A B : Type 0} {P : Kept} {C : Err → Bool} where
  -- What follows a read may use what holds of the data that was read.
  pub Keeps-bind-gets :
      (g : Data → A) (f : A → Tx B)
      → ((u : Undo) (d : Data) → P u d → Keeps P C (f (g d)))
      → Keeps P C (gets g >>= f)
  unfolding ◌>>=◌ gets
  Keeps-bind-gets g f k = record { at = λ s h. (k s.undo s.store h).at s h }

module _ {A : Type 0} {P : Kept} {C : Err → Bool} where
  -- What follows a guard may use that it let the step pass.
  pub Keeps-bind-raise_if :
      (b : Bool) (e : Err) (f : Done → Tx A)
      → (b ≡ false → Keeps P C (f tt))
      → Keeps P C (raise_if b e >>= f)
  unfolding ◌>>=◌ raise_if
  Keeps-bind-raise_if true e f k = record { at = λ s h c. h }
  Keeps-bind-raise_if false e f k = record { at = λ s h. (k refl).at s h }

module _ {A : Type 0} {P : Kept} {C D : Err → Bool} where
  Post-recovered :
      (r : Result A) (s : TxState) (caught : Err → Bool) (handler : Err → Tx A)
      → Post P D r s
      → ((e : Err) → caught e ≡ true → D e ≡ true)
      → ((e : Err) → C e ≡ true → D e ≡ true)
      → ((e : Err) → Keeps P C (handler e))
      → Post P C (recovered caught handler r s).0 (recovered caught handler r s).1
  Post-recovered (ok a) s caught handler h sub all k = h
  Post-recovered (err e) s caught handler h sub all k = elim (Bool-cases (caught e)) [
    | inl yes_caught ↦ rw yes_caught ((k e).at s (h (sub e yes_caught)))
    | inr passed ↦ rw passed (λ c. h (all e c))
  ]

  -- A handler for some errors: the step must keep `P` on those, and on what is passed on.
  pub Keeps-recover :
      (caught : Err → Bool) (m : Tx A) (handler : Err → Tx A)
      → Keeps P D m
      → ((e : Err) → caught e ≡ true → D e ≡ true)
      → ((e : Err) → C e ≡ true → D e ≡ true)
      → ((e : Err) → Keeps P C (handler e))
      → Keeps P C (recover caught m handler)
  unfolding recover
  Keeps-recover caught m handler km sub all kh = record {
    at = λ s h. Post-recovered (m s).0 (m s).1 caught handler (km.at s h) sub all kh;
  }

-- What holds after every error may be caught in any way.
pub Keeps-recover_any :
    {A : Type 0} {P : Kept} {C : Err → Bool} (caught : Err → Bool) (m : Tx A) (handler : Err → Tx A)
    → Keeps P any_error m
    → ((e : Err) → Keeps P C (handler e))
    → Keeps P C (recover caught m handler)
Keeps-recover_any caught m handler km kh =
    Keeps-recover caught m handler km (λ e h. refl) (λ e h. refl) kh

pub Keeps-if_some :
    {A B : Type 0} {P : Kept} {C : Err → Bool} (o : Option A) (f : A → Tx B) (m : Tx B)
    → ((a : A) → o ≡ some a → Keeps P C (f a))
    → Keeps P C m
    → Keeps P C (if_some o f m)
unfolding if_some
Keeps-if_some none f m kf km = km
Keeps-if_some (some a) f m kf km = kf a refl

pub ruleset keeps_rules = (
  Keeps-pure, Keeps-raise, Keeps-lift, Keeps-gets, Keeps-or_raise, Keeps-if, Keeps-raise_if,
  Keeps-check_ctx, Keeps-bind, Keeps-if_some,
)
