-- ===== src/Rules/Validated.antt =====
-- What rules that pass `Validate` satisfy.
pub mod Complete
use distledger.Base.{
  ℕ, ◌+◌, ◌*◌, ◌^◌, ◌≤◌, ◌<◌, ◌∙◌, ◌≡◌, refl, ap, true, arith, List, [], ◌∷◌, length, Bool-cases,
  inl, inr,
}
use distledger.Base.Int.{ℤ, pos, negsuc, ◌+ℤ◌, ◌≤ℤ◌, pos_part, neg_part, int_laws, ==ℤ_iff}
use distledger.Errors.{Result, ok, err, ◌>>◌}
use distledger.Money.{Rate, rounding_valid, rate_valid}
use distledger.Rules.{Rules, validate, sum_rates, validate_shape, check_sum}
use distledger.Rules.Limits.{max_freeze_days, max_bind_expire_days}
use distledger.Word.{wrap64}

-- The exact sum of the rates.
abbrev pub total_rate : List Rate → ℤ
total_rate [] = pos 0
total_rate (r ∷ rs) = r +ℤ total_rate rs

abbrev pub AreRates : List Rate → Type 0
AreRates [] = Unit
AreRates (r ∷ rs) = (pos 0 ≤ℤ r) × (r ≤ℤ pos 10000) × AreRates rs

-- What `Validate` looks at: a chain of at most three levels, each rate of 0 to 100 %, together no more
-- than the cap, which is itself at most 100 %, a known rounding mode, and the limits of the freeze and
-- of a binding. The fee rate and the least withdrawal are not looked at.
pub record IsConsistent (r : Rules) : Type 0 where
  pub levels_low : pos 1 ≤ℤ r.levels
  pub levels_high : r.levels ≤ℤ pos 3
  pub one_each : pos (length r.rate_bp) ≡ r.levels
  pub rates : AreRates r.rate_bp
  pub known_rounding : rounding_valid r.rounding ≡ true
  pub within_cap : total_rate r.rate_bp ≤ℤ r.max_allocatable_bp
  pub freeze_low : pos 0 ≤ℤ r.freeze_days
  pub freeze_high : r.freeze_days ≤ℤ max_freeze_days
  pub expiry_low : pos 0 ≤ℤ r.bind_expire_days
  pub expiry_high : r.bind_expire_days ≤ℤ max_bind_expire_days
  pub cap_low : pos 1 ≤ℤ r.max_allocatable_bp
  pub cap_high : r.max_allocatable_bp ≤ℤ pos 10000

pub add_small : (a k : ℕ) → a + k < 2 ^ 63 → wrap64 (pos a +ℤ pos k) ≡ pos (a + k)
unfolding wrap64 ◌+ℤ◌
add_small a k h = ground arith

pub regroup : (a k : ℕ) (t : ℤ) → pos (a + k) +ℤ t ≡ pos a +ℤ (pos k +ℤ t)
unfolding ◌+ℤ◌
regroup a k t = ground arith

sum_rates_exact :
    (acc : ℕ) (rs : List Rate) {s : ℤ}
    → acc + 10000 * length rs ≤ 1_000_000
    → sum_rates (pos acc) rs ≡ ok s
    → AreRates rs × (s ≡ pos acc +ℤ total_rate rs)
unfolding sum_rates
sum_rates_exact acc [] {s} h e = (tt, let same : s ≡ pos acc = cc in rw same (omega int_laws))
sum_rates_exact acc (negsuc k ∷ rs) h e = ground arith
sum_rates_exact acc (pos k ∷ rs) h e = elim (Bool-cases (rate_valid (pos k))) [
  | inl valid ↦
      let small : k ≤ 10000 = ground arith in
      let (rates, sum) =
        sum_rates_exact (acc + k) rs (omega arith)
          (rw (valid, add_small acc k (omega arith)) at e) in
      ((omega arith, omega arith, rates), sum ∙ regroup acc k (total_rate rs))
  | inr bad ↦ absurd (cc (rw bad at e))
]

record Shape (r : Rules) : Type 0 where
  levels_low : pos 1 ≤ℤ r.levels
  levels_high : r.levels ≤ℤ pos 3
  one_each : pos (length r.rate_bp) ≡ r.levels
  known_rounding : rounding_valid r.rounding ≡ true
  freeze_low : pos 0 ≤ℤ r.freeze_days
  freeze_high : r.freeze_days ≤ℤ max_freeze_days
  expiry_low : pos 0 ≤ℤ r.bind_expire_days
  expiry_high : r.bind_expire_days ≤ℤ max_bind_expire_days
  cap_low : pos 1 ≤ℤ r.max_allocatable_bp
  cap_high : r.max_allocatable_bp ≤ℤ pos 10000

validate_shape-Shape : (r : Rules) → validate_shape r ≡ ok tt → Shape r
validate_shape-Shape r e = ground (arith, ==ℤ_iff (pos (length r.rate_bp)) r.levels)

>>-eq-ok : (m k : Result (Unit {0})) → (m >> k) ≡ ok tt → (m ≡ ok tt) × (k ≡ ok tt)
>>-eq-ok (ok u) k e = (refl, e)
>>-eq-ok (err x) k e = cc

sum_within :
    (r : Rules) (sum : Result ℤ)
    → check_sum r sum ≡ ok tt
    → (v : ℤ) × (sum ≡ ok v) × (v ≤ℤ r.max_allocatable_bp)
sum_within r (err x) e = cc
sum_within r (ok v) e = (v, refl, ground arith)

parts :
    (r : Rules) (sum : Result ℤ)
    → (validate_shape r >> check_sum r sum) ≡ ok tt
    → (validate_shape r ≡ ok tt) × ((v : ℤ) × (sum ≡ ok v) × (v ≤ℤ r.max_allocatable_bp))
parts r sum e =
    let (shape, rest) = >>-eq-ok (validate_shape r) (check_sum r sum) e in
    (shape, sum_within r sum rest)

-- Rules that pass `Validate` have one to three levels, a rate of 0 to 100 % for each, a known rounding
-- mode, rates whose exact sum is at most the cap, which is itself above 0 and at most 100 %, and days
-- of freezing and of a binding within their limits.
pub validate-IsConsistent : (r : Rules) → validate r ≡ ok tt → IsConsistent r
unfolding validate
validate-IsConsistent r e =
    let (shape_ok, (v, sum_ok, below)) = parts r (sum_rates (pos 0) r.rate_bp) e in
    let shape = validate_shape-Shape r shape_ok in
    let (rates, exact) =
      sum_rates_exact 0 r.rate_bp
        (omega (arith, ap pos_part shape.one_each, ap neg_part shape.one_each, shape.levels_high))
        sum_ok in
    record {
      levels_low = shape.levels_low;
      levels_high = shape.levels_high;
      one_each = shape.one_each;
      rates = rates;
      known_rounding = shape.known_rounding;
      freeze_low = shape.freeze_low;
      freeze_high = shape.freeze_high;
      expiry_low = shape.expiry_low;
      expiry_high = shape.expiry_high;
      within_cap = omega (int_laws, ap pos_part exact, ap neg_part exact, below);
      cap_low = shape.cap_low;
      cap_high = shape.cap_high;
    }
