-- ===== src/Account/Delta.antt =====
-- What a delta adds to a bucket, and the tests for negative buckets.
use distledger.Base.{◌≡◌, ◌↔◌, true, [], arith}
use distledger.Base.Int.{ℤ, pos, ◌≤ℤ◌}
use distledger.Account.{
  Account, AccountDelta, Bucket, bucket_frozen, bucket_available, bucket_withdrawing,
  bucket_withdrawn, unknown, settleable, negative_buckets,
}

-- What a delta adds to a bucket.
abbrev pub delta_value : Bucket → AccountDelta → ℤ
delta_value bucket_frozen d = d.frozen
delta_value bucket_available d = d.available
delta_value bucket_withdrawing d = d.withdrawing
delta_value bucket_withdrawn d = d.withdrawn
delta_value (unknown n) d = pos 0

-- No bucket is negative.
abbrev pub IsCovered : Account → Type 0
IsCovered a =
    (pos 0 ≤ℤ a.frozen) × (pos 0 ≤ℤ a.available) × (pos 0 ≤ℤ a.withdrawing) × (pos 0 ≤ℤ a.withdrawn)

-- `Settleable` says exactly that no bucket of the account is negative.
pub settleable_iff : (a : Account) → (settleable a ≡ true) ↔ IsCovered a
settleable_iff a = ground arith

-- `NegativeBuckets` finds nothing exactly when no bucket of the account is negative.
pub negative_buckets_iff : (a : Account) → (negative_buckets a ≡ []) ↔ IsCovered a
negative_buckets_iff a = ground arith
