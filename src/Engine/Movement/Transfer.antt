-- ===== src/Engine/Movement/Transfer.antt =====
-- The deltas of the movements between two buckets, against what their entries record.
use distledger.Base.{◌≡◌, [], arith}
use distledger.Account.{
  AccountDelta, Bucket, bucket_frozen, bucket_available, bucket_withdrawing, bucket_withdrawn,
  add_delta, delta, new_ledger_entry, accrue, zero_account,
}
use distledger.Account.Delta.{delta_value}
use distledger.Base.Int.{pos}
use distledger.Clock.{Time, zero_time}
use distledger.Engine.Settle.{settle_delta}
use distledger.Engine.Withdraw.{guarded_delta}
use distledger.Keys.{UserKey}
use distledger.Money.{Money}
use distledger.Word.{neg64}

abbrev pub no_key : UserKey
no_key = record { tenant_id = pos 0; user_id = pos 0 }

-- What an entry of two changes records of a bucket.
abbrev pub recorded : Bucket → Money → Bucket → Money → Bucket → Money
recorded from debit to credit b = delta b (
    add_delta to credit
      (new_ledger_entry no_key accrue [] [] zero_time (zero_account no_key) from debit))

-- The delta changes each bucket by what the entry records of it.
pub record IsTransfer (d : AccountDelta) (from : Bucket) (debit : Money) (to : Bucket)
    (credit : Money) : Type 0 where
  pub each : (b : Bucket) → delta_value b d ≡ recorded from debit to credit b

module _ (key : UserKey) (amount : Money) (at : Time) where
  pub hold-IsTransfer :
      IsTransfer
        (guarded_delta key (neg64 amount) amount (pos 0) at)
        bucket_available
        (neg64 amount)
        bucket_withdrawing
        amount
  hold-IsTransfer = record { each = λ b. ground arith }

  pub release-IsTransfer :
      IsTransfer
        (guarded_delta key amount (neg64 amount) (pos 0) at)
        bucket_withdrawing
        (neg64 amount)
        bucket_available
        amount
  release-IsTransfer = record { each = λ b. ground arith }

  pub payout-IsTransfer :
      IsTransfer
        (guarded_delta key (pos 0) (neg64 amount) amount at)
        bucket_withdrawing
        (neg64 amount)
        bucket_withdrawn
        amount
  payout-IsTransfer = record { each = λ b. ground arith }

  pub settle-IsTransfer :
      IsTransfer (settle_delta key amount at) bucket_frozen (neg64 amount) bucket_available amount
  settle-IsTransfer = record { each = λ b. ground arith }

pub ruleset transfer_rules =
    (hold-IsTransfer, release-IsTransfer, payout-IsTransfer, settle-IsTransfer)
