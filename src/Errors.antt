-- ===== src/Errors.antt =====
-- errors.go: the sentinel errors and the typed errors, as values, and results that may fail.
-- A field error keeps its field and not the text of its reason, which nothing reads.
use distledger.Base.{◌≡◌, refl, Bool, true, false, if◌then◌else◌}
use Prim.Native.String.{String}

-- What `ctx.Err()` reports.
pub data Stop : Type 0 where
  canceled deadline_exceeded : Stop

pub data Err : Type 0 where
  stopped : Stop → Err
  not_found duplicate no_payout_channel cycle depth_exceeded parent_already_set invalid_config : Err
  insufficient_balance overflow closed binding_locked nested_tx : Err
  field_error : String → Err
  transition_error : String → Err
  conflict_error : String → Err
  other_error : String → Err

-- `errors.Is(err, ErrNotFound)`, and so on.
abbrev pub is_not_found : Err → Bool
is_not_found not_found = true
is_not_found _ = false

abbrev pub is_duplicate : Err → Bool
is_duplicate duplicate = true
is_duplicate _ = false

abbrev pub is_conflict : Err → Bool
is_conflict (conflict_error k) = true
is_conflict _ = false

abbrev pub is_insufficient_balance : Err → Bool
is_insufficient_balance insufficient_balance = true
is_insufficient_balance _ = false

-- The errors that some caller inside a transaction handles.
abbrev pub is_handled : Err → Bool
is_handled not_found = true
is_handled duplicate = true
is_handled insufficient_balance = true
is_handled (conflict_error k) = true
is_handled _ = false

pub data Result {ℓ} (A : Type ℓ) : Type ℓ where
  ok : A → Result A
  err : Err → Result A

-- `if b { return err }`
abbrev pub fail_if : Bool → Err → Result (Unit {0})
fail_if b e = if b then err e else ok tt

module _ {B : Type 0} where
  infixl 5 ◌>>=◌ ◌>>◌
  abbrev pub ◌>>=◌ : {A : Type 0} → Result A → (A → Result B) → Result B
  ok a >>= f = f a
  err e >>= f = err e

  abbrev pub ◌>>◌ : Result (Unit {0}) → Result B → Result B
  checked >> rest = checked >>= λ done. rest

pub >>=-eq-ok :
    {A B : Type 0} (m : Result A) (f : A → Result B) (b : B)
    → (m >>= f) ≡ ok b
    → (a : A) × (m ≡ ok a) × (f a ≡ ok b)
>>=-eq-ok (ok a) f b e = (a, refl, e)
>>=-eq-ok (err x) f b e = cc

pub fail_if-passed : (b : Bool) (e : Err) → fail_if b e ≡ ok tt → b ≡ false
fail_if-passed true e h = cc
fail_if-passed false e h = refl
