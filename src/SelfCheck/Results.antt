-- ===== src/SelfCheck/Results.antt =====
-- selfcheck.go: what a check reports. A violation or a note keeps the values of its message.
use distledger.Base.{
  ℕ, ◌+◌, Bool, true, false, Option, none, some, List, [], ◌∷◌, ◌++◌, length, ltb, if◌then◌else◌,
}
use distledger.Base.Int.{ℤ, pos}
use distledger.Base.Text.{Text}
use distledger.Account.{Bucket}
use distledger.Commission.{CommissionState}
use distledger.Keys.{UserKey, OrderKey}
use distledger.Money.{Money}
use distledger.Withdrawal.{WithdrawalState}

pub data Violation : Type 0 where
  negative_bucket : UserKey → Bucket → Money → Violation
  money_without_entries : UserKey → Bucket → Money → Violation
  sum_mismatch : UserKey → Bucket → Money → Money → Violation
  tail_mismatch : UserKey → Bucket → ℤ → Money → Money → Violation
  withdraw_biz_id : ℤ → Text → Violation
  paid_without_time : ℤ → Violation
  time_without_payment : ℤ → WithdrawalState → Violation
  no_hold_entry : ℤ → Violation
  no_paid_entry : ℤ → Violation
  no_refund_entry : ℤ → Violation
  reserved_mismatch : UserKey → Money → Money → Violation
  accrual_biz_id : ℤ → Text → Violation
  no_ledger_entry : ℤ → Text → ℤ → Money → Violation
  missing_commission : ℤ → Violation
  over_cap : OrderKey → Text → Money → Money → Money → Violation
  reversed_out_of_range : ℤ → Money → Money → Violation
  reversed_state : ℤ → Money → Money → CommissionState → Violation
  no_reverse_of : ℤ → Money → Violation
  reverses_missing : ℤ → ℤ → Violation
  reverses_reversal : ℤ → ℤ → Violation
  reversed_sum_mismatch : ℤ → Money → Money → Violation
  reversed_above_amount : ℤ → Money → Money → Violation
  total_earned_mismatch : UserKey → Money → Money → Violation
  total_reversed_mismatch : UserKey → Money → Money → Violation

pub data Note : Type 0 where
  carries_debt : UserKey → Money → Bucket → Note

-- `maxViolationsPerCheck`
abbrev pub max_violations_per_check : ℕ
max_violations_per_check = 20

-- The names of the invariants.
pub data InvariantName : Type 0 where
  i1 i2 i3 i4 : InvariantName

pub record InvariantResult : Type 0 where
  pub name : InvariantName
  pub is_ok : Bool
  pub checked : ℕ
  pub violations : List Violation
  pub total_violations : ℕ
  pub notes : List Note

abbrev pub fresh_result : InvariantName → InvariantResult
fresh_result name = record {
  name = name;
  is_ok = true;
  checked = 0;
  violations = [];
  total_violations = 0;
  notes = [];
}

abbrev pub sampled : {A : Type 0} → A → List A → List A
sampled x xs = if ltb (length xs) max_violations_per_check then xs ++ (x ∷ []) else xs

-- `InvariantResult.add`
abbrev pub add : Violation → InvariantResult → InvariantResult
add v r = record r {
  total_violations = r.total_violations + 1;
  violations = sampled v r.violations;
  is_ok = false;
}

-- `InvariantResult.note`
abbrev pub note : Note → InvariantResult → InvariantResult
note n r = record r { notes = sampled n r.notes }

abbrev pub add_if : Bool → Violation → InvariantResult → InvariantResult
add_if b v r = if b then add v r else r

-- `res.Checked++`
abbrev pub count : InvariantResult → InvariantResult
count r = record r { checked = r.checked + 1 }

pub record Report : Type 0 where
  pub tenant_id : ℤ
  pub is_ok : Bool
  pub store_kind : Text
  pub schema_issues : List Text
  pub invariants : List InvariantResult
  pub counters : List (CommissionState × ℕ)
  pub reconciled : Bool

-- A missing key of a map of amounts reads as 0.
abbrev pub or_zero : Option Money → Money
or_zero none = pos 0
or_zero (some m) = m
