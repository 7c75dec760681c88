-- ===== src/Memory/Writer/Refused.antt =====
-- Which transitions the store refuses.
use distledger.Base.{◌≡◌, refl, Bool, true, false, not, arith}
use distledger.Base.Int.{ℤ}
use distledger.Commission.{
  CommissionState, can_transition_commission, validate_commission_transition,
}
use distledger.Errors.{Err, Result, ok, err}
use distledger.Memory.Tx.{Tx, TxState, continue, ◌>>=◌, raise_if, lift}
use distledger.Memory.Writer.{transition_commission}
use distledger.Memory.Writer.Withdrawals.{WithdrawalTransition, transition_withdrawal}
use distledger.Withdrawal.{WithdrawalState, can_transition_withdrawal}

-- An error, whichever.
abbrev pub is_refused : {A : Type 0} → Result A → Bool
is_refused (ok a) = false
is_refused (err e) = true

record Refuses {A : Type 0} (m : Tx A) : Type 0 where
  at : (s : TxState) → is_refused (m s).0 ≡ true

module _ {A B : Type 0} where
  continue-refused :
      (r : Result A) (s : TxState) (f : A → Tx B)
      → ((a : A) → is_refused (f a s).0 ≡ true)
      → is_refused (continue r f s).0 ≡ true
  continue-refused (ok a) s f h = h a
  continue-refused (err e) s f h = refl

  continue-stopped :
      (r : Result A) (s : TxState) (f : A → Tx B)
      → is_refused r ≡ true
      → is_refused (continue r f s).0 ≡ true
  continue-stopped (ok a) s f h = cc
  continue-stopped (err e) s f h = refl

  Refuses-later : (m : Tx A) (f : A → Tx B) → ((a : A) → Refuses (f a)) → Refuses (m >>= f)
  unfolding ◌>>=◌
  Refuses-later m f h = record {
    at = λ s. continue-refused (m s).0 (m s).1 f (λ a. (h a).at (m s).1);
  }

  Refuses-now : (m : Tx A) (f : A → Tx B) → Refuses m → Refuses (m >>= f)
  unfolding ◌>>=◌
  Refuses-now m f h = record { at = λ s. continue-stopped (m s).0 (m s).1 f (h.at s) }

Refuses-raise_if : (b : Bool) (e : Err) → b ≡ false → Refuses (raise_if (not b) e)
unfolding raise_if
Refuses-raise_if b e h = record { at = λ s. rw h refl }

Refuses-lift_transition :
    (from to : CommissionState)
    → can_transition_commission from to ≡ false
    → Refuses (lift (validate_commission_transition from to))
unfolding lift validate_commission_transition
Refuses-lift_transition from to h = record { at = λ s. ground arith }

ruleset refusal_rules = (Refuses-later, Refuses-now, Refuses-raise_if, Refuses-lift_transition)

-- `TransitionWithdrawal` refuses, in every store, each move that the table of withdraw.go does not
-- list, whatever the state of the row and the version.
pub transition_withdrawal-refused :
    (id : ℤ) (from to : WithdrawalState) (version : ℤ) (change : WithdrawalTransition) (s : TxState)
    → can_transition_withdrawal from to ≡ false
    → is_refused (transition_withdrawal id from to version change s).0 ≡ true
unfolding transition_withdrawal
transition_withdrawal-refused id from to version change s h =
    let all : Refuses (transition_withdrawal id from to version change) =
      search refusal_rules depth 12 in
    all.at s

-- `TransitionCommission` refuses, in every store, each move that the table of state.go does not list,
-- whatever the state of the row and the version.
pub transition_commission-refused :
    (id : ℤ) (from to : CommissionState) (version : ℤ) (s : TxState)
    → can_transition_commission from to ≡ false
    → is_refused (transition_commission id from to version s).0 ≡ true
unfolding transition_commission
transition_commission-refused id from to version s h =
    let all : Refuses (transition_commission id from to version) = search refusal_rules depth 12 in
    all.at s
