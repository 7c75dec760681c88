-- ===== src/Rules.antt =====
-- rule.go: the configurable numbers, their defaults and their validation.
pub mod Snapshot
pub mod Limits
pub mod Validated
use distledger.Base.{
  ℕ, zero, suc, Bool, true, false, not, ◌||◌, Option, none, some, List, [], ◌∷◌, length, eqb,
  if◌then◌else◌,
}
use distledger.Base.Int.{ℤ, pos, pos_part, ltb_ℤ, leb_ℤ, ◌==ℤ◌}
use distledger.Word.{add64}
use distledger.Errors.{field_error, Result, ok, err, ◌>>◌, fail_if}
use distledger.Money.{Money, Rate, Rounding, round_down, rate_valid, rounding_valid, max_rate_bp}
use distledger.Rules.Limits.{max_levels, max_freeze_days, max_bind_expire_days}

pub record Rules : Type 0 where
  pub levels : ℤ
  pub rate_bp : List Rate
  pub rounding : Rounding
  pub freeze_days : ℤ
  pub max_allocatable_bp : Rate
  pub bind_expire_days : ℤ
  pub min_withdraw : Money
  pub fee_rate_bp : Rate
  pub allow_negative : Bool

-- `DefaultRules`
abbrev pub default_rules : Rules
default_rules = record {
  levels = pos 2;
  rate_bp = pos 0 ∷ pos 0 ∷ [];
  rounding = round_down;
  freeze_days = pos 7;
  max_allocatable_bp = max_rate_bp;
  bind_expire_days = pos 0;
  min_withdraw = pos 10000;
  fee_rate_bp = pos 0;
  allow_negative = false;
}

abbrev zero_rates : ℕ → List Rate
zero_rates zero = []
zero_rates (suc n) = pos 0 ∷ zero_rates n

-- `make([]Rate, n)`, which panics on a negative length.
abbrev make_rates : ℤ → Option (List Rate)
make_rates n = if ltb_ℤ n (pos 0) then none else some (zero_rates (pos_part n))

abbrev is_missing : List Rate → Bool
is_missing [] = true
is_missing (r ∷ rs) = false

-- `Rules.Normalize`; `none` is a panic.
unfoldable pub normalize : Rules → Option Rules
normalize r =
    let capped =
      if r.max_allocatable_bp ==ℤ pos 0 then record r { max_allocatable_bp = max_rate_bp } else r in
    let levelled = if capped.levels ==ℤ pos 0 then record capped { levels = pos 2 } else capped in
    if is_missing levelled.rate_bp
    then elim (make_rates levelled.levels) [
      | none ↦ none
      | some rates ↦ some (record levelled { rate_bp = rates })
    ]
    else some levelled

-- The loop of `Validate` over the rates: the int64 sum, or the error of the first bad rate.
sum_rates : ℤ → List Rate → Result ℤ
sum_rates acc [] = ok acc
sum_rates acc (r ∷ rs) =
    let rest = sum_rates (add64 acc r) rs in
    if not (rate_valid r) then err (field_error "rules.rate_bp") else rest

-- The checks of `Validate` ahead of the rates.
abbrev validate_shape : Rules → Result (Unit {0})
validate_shape r =
    fail_if (ltb_ℤ r.levels (pos 1) || ltb_ℤ max_levels r.levels) (field_error "rules.levels")
    >> fail_if (not (pos (length r.rate_bp) ==ℤ r.levels)) (field_error "rules.rate_bp")
    >> fail_if (not (rounding_valid r.rounding)) (field_error "rules.rounding")
    >> fail_if (ltb_ℤ r.freeze_days (pos 0) || ltb_ℤ max_freeze_days r.freeze_days)
        (field_error "rules.freeze_days")
    >> fail_if (ltb_ℤ r.bind_expire_days (pos 0) || ltb_ℤ max_bind_expire_days r.bind_expire_days)
        (field_error "rules.bind_expire_days")
    >> fail_if (not (rate_valid r.max_allocatable_bp)) (field_error "rules.max_allocatable_bp")
    >> fail_if (r.max_allocatable_bp ==ℤ pos 0) (field_error "rules.max_allocatable_bp")

abbrev check_sum : Rules → Result ℤ → Result (Unit {0})
check_sum r (err e) = err e
check_sum r (ok sum) = fail_if (ltb_ℤ r.max_allocatable_bp sum) (field_error "rules.rate_bp")

-- `Rules.Validate`
unfoldable pub validate : Rules → Result (Unit {0})
unfolding sum_rates
validate r = validate_shape r >> check_sum r (sum_rates (pos 0) r.rate_bp)
