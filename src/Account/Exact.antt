-- ===== src/Account/Exact.antt =====
-- `AccountDelta.Apply` against the exact integers.
use distledger.Base.{◌≡◌, refl, sym, true, ◌∙◌, arith}
use distledger.Base.Int.{ℤ, pos, ◌+ℤ◌, ◌≤ℤ◌, ltb_ℤ, +ℤ_zero}
use distledger.Account.{
  Account, AccountDelta, Bucket, bucket_frozen, bucket_available, bucket_withdrawing,
  bucket_withdrawn, unknown, value, apply_delta,
}
use distledger.Account.Delta.{delta_value}
use distledger.Errors.{ok, >>=-eq-ok}
use distledger.Money
use distledger.SafeMath
use distledger.SafeMath.Exact.{add_exact}
use distledger.Word.{IsInt64, wrap64-IsInt64}

-- Every amount of the account, or of the delta, is an int64.
pub record AreInt64 (frozen available withdrawing withdrawn earned reversed : ℤ) : Type 0 where
  pub frozen_fits : IsInt64 frozen
  pub available_fits : IsInt64 available
  pub withdrawing_fits : IsInt64 withdrawing
  pub withdrawn_fits : IsInt64 withdrawn
  pub earned_fits : IsInt64 earned
  pub reversed_fits : IsInt64 reversed

abbrev pub HasInt64 : Account → Type 0
HasInt64 a = AreInt64 a.frozen a.available a.withdrawing a.withdrawn a.total_earned a.total_reversed

abbrev pub ChangesByInt64 : AccountDelta → Type 0
ChangesByInt64 d =
    AreInt64 d.frozen d.available d.withdrawing d.withdrawn d.total_earned d.total_reversed

pub sum_exact : (x y z : ℤ) → IsInt64 x → IsInt64 y → Money.add x y ≡ ok z → z ≡ x +ℤ y
unfolding Money.add
sum_exact x y z hx hy e = ground (arith, add_exact x y hx hy)

-- The account that `Apply` builds of six sums.
abbrev with_sums : Account → ℤ → ℤ → ℤ → ℤ → ℤ → ℤ → Account
with_sums a frozen available withdrawing withdrawn earned reversed = record a {
  frozen = frozen;
  available = available;
  withdrawing = withdrawing;
  withdrawn = withdrawn;
  total_earned = earned;
  total_reversed = reversed;
}

-- The amounts of an updated account, each the checked sum of the old amount and of the delta's.
pub record AreSums (d : AccountDelta) (a a' : Account) : Type 0 where
  pub frozen_sum : Money.add a.frozen d.frozen ≡ ok a'.frozen
  pub available_sum : Money.add a.available d.available ≡ ok a'.available
  pub withdrawing_sum : Money.add a.withdrawing d.withdrawing ≡ ok a'.withdrawing
  pub withdrawn_sum : Money.add a.withdrawn d.withdrawn ≡ ok a'.withdrawn
  pub earned_sum : Money.add a.total_earned d.total_earned ≡ ok a'.total_earned
  pub reversed_sum : Money.add a.total_reversed d.total_reversed ≡ ok a'.total_reversed
  pub same_key : a'.key ≡ a.key
  pub same_version : a'.version ≡ a.version

with_sums-AreSums :
    (d : AccountDelta) (a a' : Account) (f v w p e r : ℤ)
    → Money.add a.frozen d.frozen ≡ ok f
    → Money.add a.available d.available ≡ ok v
    → Money.add a.withdrawing d.withdrawing ≡ ok w
    → Money.add a.withdrawn d.withdrawn ≡ ok p
    → Money.add a.total_earned d.total_earned ≡ ok e
    → Money.add a.total_reversed d.total_reversed ≡ ok r
    → ok (with_sums a f v w p e r) ≡ ok a'
    → AreSums d a a'
with_sums-AreSums d a a' f v w p e r hf hv hw hp he hr same =
    let sums : with_sums a f v w p e r ≡ a' = cc in
    rw (sym sums) (record {
      frozen_sum = hf;
      available_sum = hv;
      withdrawing_sum = hw;
      withdrawn_sum = hp;
      earned_sum = he;
      reversed_sum = hr;
      same_key = refl;
      same_version = refl;
    })

pub apply_delta-AreSums :
    (d : AccountDelta) (a a' : Account) → apply_delta d a ≡ ok a' → AreSums d a a'
unfolding apply_delta
apply_delta-AreSums d a a' e =
    let (frozen, e1, k1) = >>=-eq-ok (Money.add a.frozen d.frozen) _ a' e in
    let (available, e2, k2) = >>=-eq-ok (Money.add a.available d.available) _ a' k1 in
    let (withdrawing, e3, k3) = >>=-eq-ok (Money.add a.withdrawing d.withdrawing) _ a' k2 in
    let (withdrawn, e4, k4) = >>=-eq-ok (Money.add a.withdrawn d.withdrawn) _ a' k3 in
    let (earned, e5, k5) = >>=-eq-ok (Money.add a.total_earned d.total_earned) _ a' k4 in
    let (reversed, e6, k6) = >>=-eq-ok (Money.add a.total_reversed d.total_reversed) _ a' k5 in
    with_sums-AreSums d a a' _ _ _ _ _ _ e1 e2 e3 e4 e5 e6 k6

pub value-IsInt64 : (a : Account) (b : Bucket) → HasInt64 a → IsInt64 (value b a)
value-IsInt64 a bucket_frozen h = h.frozen_fits
value-IsInt64 a bucket_available h = h.available_fits
value-IsInt64 a bucket_withdrawing h = h.withdrawing_fits
value-IsInt64 a bucket_withdrawn h = h.withdrawn_fits
value-IsInt64 a (unknown n) h = (omega arith, omega arith)

delta_value-IsInt64 : (d : AccountDelta) (b : Bucket) → ChangesByInt64 d → IsInt64 (delta_value b d)
delta_value-IsInt64 d bucket_frozen h = h.frozen_fits
delta_value-IsInt64 d bucket_available h = h.available_fits
delta_value-IsInt64 d bucket_withdrawing h = h.withdrawing_fits
delta_value-IsInt64 d bucket_withdrawn h = h.withdrawn_fits
delta_value-IsInt64 d (unknown n) h = (omega arith, omega arith)

-- One bucket of the new account, where its amount and its change are int64 values.
pub AreSums-value :
    (d : AccountDelta) (a a' : Account) (b : Bucket)
    → IsInt64 (value b a)
    → IsInt64 (delta_value b d)
    → AreSums d a a'
    → value b a' ≡ value b a +ℤ delta_value b d
unfolding ◌+ℤ◌
AreSums-value d a a' bucket_frozen ha hd h = sum_exact _ _ _ ha hd h.frozen_sum
AreSums-value d a a' bucket_available ha hd h = sum_exact _ _ _ ha hd h.available_sum
AreSums-value d a a' bucket_withdrawing ha hd h = sum_exact _ _ _ ha hd h.withdrawing_sum
AreSums-value d a a' bucket_withdrawn ha hd h = sum_exact _ _ _ ha hd h.withdrawn_sum
AreSums-value d a a' (unknown n) ha hd h = refl

-- For an account and a delta of int64 amounts: where `Apply` does not report an overflow, each bucket
-- and both gross totals have grown by exactly what the delta says, and the owner and the version stay.
pub apply_delta-exact :
    (d : AccountDelta) (a a' : Account)
    → HasInt64 a
    → ChangesByInt64 d
    → apply_delta d a ≡ ok a'
    → ((b : Bucket) → value b a' ≡ value b a +ℤ delta_value b d)
      × (a'.total_earned ≡ a.total_earned +ℤ d.total_earned)
      × (a'.total_reversed ≡ a.total_reversed +ℤ d.total_reversed)
      × (a'.key ≡ a.key)
      × (a'.version ≡ a.version)
apply_delta-exact d a a' ha hd e =
    let h = apply_delta-AreSums d a a' e in
    (
      λ b. AreSums-value d a a' b (value-IsInt64 a b ha) (delta_value-IsInt64 d b hd) h,
      sum_exact _ _ _ ha.earned_fits hd.earned_fits h.earned_sum,
      sum_exact _ _ _ ha.reversed_fits hd.reversed_fits h.reversed_sum,
      h.same_key,
      h.same_version,
    )

pub add-IsInt64 : (x y z : ℤ) → Money.add x y ≡ ok z → IsInt64 z
unfolding Money.add SafeMath.add
add-IsInt64 x y z e = ground (arith, wrap64-IsInt64 (x +ℤ y))

-- Whatever the account and the delta were, an updated account holds int64 amounts.
pub AreSums-HasInt64 : (d : AccountDelta) (a a' : Account) → AreSums d a a' → HasInt64 a'
AreSums-HasInt64 d a a' h = record {
  frozen_fits = add-IsInt64 _ _ _ h.frozen_sum;
  available_fits = add-IsInt64 _ _ _ h.available_sum;
  withdrawing_fits = add-IsInt64 _ _ _ h.withdrawing_sum;
  withdrawn_fits = add-IsInt64 _ _ _ h.withdrawn_sum;
  earned_fits = add-IsInt64 _ _ _ h.earned_sum;
  reversed_fits = add-IsInt64 _ _ _ h.reversed_sum;
}

-- A checked sum is not below the first amount, when the second is positive.
pub add-positive :
    (x y z : ℤ) → ltb_ℤ (pos 0) y ≡ true → Money.add x y ≡ ok z → pos 0 ≤ℤ x → pos 0 ≤ℤ z
unfolding Money.add SafeMath.add
add-positive x y z hy e hx = ground (arith, e)

pub add-zero : (x z : ℤ) → IsInt64 x → Money.add x (pos 0) ≡ ok z → z ≡ x
add-zero x z hx e = sum_exact x (pos 0) z hx (omega arith, omega arith) e ∙ +ℤ_zero x
