-- ===== src/Rules/Validated/Complete.antt =====
-- Rules within the limits pass `Validate`.
use distledger.Base.{ℕ, ◌+◌, ◌*◌, ◌≤◌, ◌∙◌, ◌≡◌, ap, true, arith, List, [], ◌∷◌, length}
use distledger.Base.Int.{ℤ, pos, negsuc, ◌+ℤ◌, ◌≤ℤ◌, pos_part, neg_part, int_laws, ==ℤ_iff}
use distledger.Errors.{ok}
use distledger.Money.{Rate, rate_valid}
use distledger.Rules.{Rules, validate, sum_rates, validate_shape, check_sum}
use distledger.Rules.Validated.{IsConsistent, AreRates, total_rate, add_small, regroup}

sum_rates_complete :
    (acc : ℕ) (rs : List Rate)
    → acc + 10000 * length rs ≤ 1_000_000
    → AreRates rs
    → sum_rates (pos acc) rs ≡ ok (pos acc +ℤ total_rate rs)
unfolding sum_rates
sum_rates_complete acc [] h r = ap ok (omega int_laws)
sum_rates_complete acc (negsuc k ∷ rs) h (low, high, r) = ground arith
sum_rates_complete acc (pos k ∷ rs) h (low, high, r) =
    let valid : rate_valid (pos k) ≡ true = ground arith in
    rw (valid, add_small acc k (omega arith))
      (sum_rates_complete (acc + k) rs (omega arith) r ∙ ap ok (regroup acc k (total_rate rs)))

shape_complete : (r : Rules) → IsConsistent r → validate_shape r ≡ ok tt
shape_complete r h = ground (
  arith,
  ==ℤ_iff (pos (length r.rate_bp)) r.levels,
  h.levels_low,
  h.levels_high,
  h.one_each,
  h.known_rounding,
  h.freeze_low,
  h.freeze_high,
  h.expiry_low,
  h.expiry_high,
  h.cap_low,
  h.cap_high,
)

sum_complete : (r : Rules) (s : ℤ) → s ≤ℤ r.max_allocatable_bp → check_sum r (ok s) ≡ ok tt
sum_complete r s h = ground arith

pub IsConsistent-validate : (r : Rules) → IsConsistent r → validate r ≡ ok tt
unfolding validate
IsConsistent-validate r h =
    let summed =
      sum_rates_complete 0 r.rate_bp
        (omega (arith, ap pos_part h.one_each, ap neg_part h.one_each, h.levels_high)) h.rates in
    rw (shape_complete r h, summed)
      (sum_complete r (pos 0 +ℤ total_rate r.rate_bp) (let within = h.within_cap in omega int_laws))
