-- ===== src/Account/Entry.antt =====
-- model.go: the entry that `newLedgerEntry` writes of one movement, and its net change.
use distledger.Base.{◌≡◌, refl, ◌∙◌, ap, Bool, true, false, arith}
use distledger.Base.Int.{ℤ, pos, ◌+ℤ◌, +ℤ_zero}
use distledger.Base.Text.{Text}
use distledger.Word.{add64, wrap64, wrap64_of_IsInt64, wrap64-IsInt64, IsInt64}
use distledger.Clock.{Time}
use distledger.Errors.{ok}
use distledger.Account.Delta.{delta_value}
use distledger.Account.Exact.{HasInt64, ChangesByInt64, apply_delta-exact}
use distledger.Keys.{UserKey}
use distledger.Money.{Money}
use distledger.Account.{
  Account, AccountDelta, Bucket, bucket_frozen, bucket_available, bucket_withdrawing,
  bucket_withdrawn, unknown, LedgerBizType, LedgerEntry, value, delta, after, new_ledger_entry,
  add_to_delta, apply_delta,
}

-- `LedgerEntry.NetDelta`
abbrev pub net_delta : LedgerEntry → Money
net_delta e =
    add64 (add64 (add64 e.delta_frozen e.delta_available) e.delta_withdrawing) e.delta_withdrawn

-- `Bucket.Valid`
abbrev pub bucket_valid : Bucket → Bool
bucket_valid (unknown n) = false
bucket_valid _ = true

wrap_of_amount : (amount : ℤ) → IsInt64 amount → add64 (pos 0) amount ≡ amount
unfolding ◌+ℤ◌
wrap_of_amount amount fits =
    ground (arith, wrap64_of_IsInt64 (pos 0 +ℤ amount), wrap64_of_IsInt64 amount fits)

pub after-new_ledger_entry :
    (key : UserKey) (biz_type : LedgerBizType) (biz_id remark : Text) (at : Time) (a : Account)
    (moved : Bucket) (amount : Money) (b : Bucket)
    → after b (new_ledger_entry key biz_type biz_id remark at a moved amount) ≡ value b a
after-new_ledger_entry key biz_type biz_id remark at a moved amount b = ground arith

-- The delta moves nothing between the buckets.
abbrev pub IsStill : AccountDelta → Type 0
IsStill d =
    (d.frozen ≡ pos 0) × (d.available ≡ pos 0) × (d.withdrawing ≡ pos 0) × (d.withdrawn ≡ pos 0)

add_to_still : (z amount : ℤ) → z ≡ pos 0 → IsInt64 amount → add64 z amount ≡ amount
add_to_still z amount e fits = rw e (wrap_of_amount amount fits)

pub delta-new_ledger_entry :
    (key : UserKey) (biz_type : LedgerBizType) (biz_id remark : Text) (at : Time) (a : Account)
    (moved : Bucket) (amount : Money) (d : AccountDelta) (b : Bucket)
    → IsInt64 amount
    → IsStill d
    → delta_value b (add_to_delta moved amount d)
      ≡ delta b (new_ledger_entry key biz_type biz_id remark at a moved amount)
delta-new_ledger_entry key biz_type biz_id remark at a moved amount d b fits (z1, z2, z3, z4) =
    let h1 = add_to_still d.frozen amount z1 fits in
    let h2 = add_to_still d.available amount z2 fits in
    let h3 = add_to_still d.withdrawing amount z3 fits in
    let h4 = add_to_still d.withdrawn amount z4 fits in ground arith

add_to_delta-ChangesByInt64 :
    (moved : Bucket) (amount : Money) (d : AccountDelta)
    → ChangesByInt64 d
    → ChangesByInt64 (add_to_delta moved amount d)
add_to_delta-ChangesByInt64 bucket_frozen amount d h = record {
  frozen_fits = wrap64-IsInt64 _;
  available_fits = h.available_fits;
  withdrawing_fits = h.withdrawing_fits;
  withdrawn_fits = h.withdrawn_fits;
  earned_fits = h.earned_fits;
  reversed_fits = h.reversed_fits;
}
add_to_delta-ChangesByInt64 bucket_available amount d h = record {
  frozen_fits = h.frozen_fits;
  available_fits = wrap64-IsInt64 _;
  withdrawing_fits = h.withdrawing_fits;
  withdrawn_fits = h.withdrawn_fits;
  earned_fits = h.earned_fits;
  reversed_fits = h.reversed_fits;
}
add_to_delta-ChangesByInt64 bucket_withdrawing amount d h = record {
  frozen_fits = h.frozen_fits;
  available_fits = h.available_fits;
  withdrawing_fits = wrap64-IsInt64 _;
  withdrawn_fits = h.withdrawn_fits;
  earned_fits = h.earned_fits;
  reversed_fits = h.reversed_fits;
}
add_to_delta-ChangesByInt64 bucket_withdrawn amount d h = record {
  frozen_fits = h.frozen_fits;
  available_fits = h.available_fits;
  withdrawing_fits = h.withdrawing_fits;
  withdrawn_fits = wrap64-IsInt64 _;
  earned_fits = h.earned_fits;
  reversed_fits = h.reversed_fits;
}
add_to_delta-ChangesByInt64 (unknown n) amount d h = h

-- The entry accounts for the step from one account to the other: it holds each bucket's new balance,
-- and its change of a bucket is the exact difference.
abbrev pub AccountsFor : LedgerEntry → Account → Account → Type 0
AccountsFor e a a' = (b : Bucket) → (after b e ≡ value b a') × (value b a' ≡ value b a +ℤ delta b e)

-- A delta that moves nothing yet is given an amount for one bucket with `AddToDelta` and applied to an
-- account, every amount an int64. Where `Apply` does not report an overflow, the entry that
-- `newLedgerEntry` writes for the new account, that bucket and that amount holds the new balance of
-- every bucket, and each balance is exactly the old balance plus the change the entry records.
pub new_ledger_entry-AccountsFor :
    (key : UserKey) (biz_type : LedgerBizType) (biz_id remark : Text) (at : Time) (a a' : Account)
    (moved : Bucket) (amount : Money) (d : AccountDelta)
    → HasInt64 a
    → ChangesByInt64 d
    → IsInt64 amount
    → IsStill d
    → apply_delta (add_to_delta moved amount d) a ≡ ok a'
    → AccountsFor (new_ledger_entry key biz_type biz_id remark at a' moved amount) a a'
new_ledger_entry-AccountsFor key biz_type biz_id remark at a a' moved amount d ha hd fits still e
      b =
    let (moves, _, _, _, _) =
      apply_delta-exact (add_to_delta moved amount d) a a' ha
        (add_to_delta-ChangesByInt64 moved amount d hd) e in
    (
      after-new_ledger_entry key biz_type biz_id remark at a' moved amount b,
      moves b
          ∙ ap (λ z. value b a +ℤ z)
              (delta-new_ledger_entry key biz_type biz_id remark at a' moved amount d b fits still),
    )

wrap_sum : (z amount : ℤ) → IsInt64 amount → z ≡ amount → add64 z (pos 0) ≡ amount
wrap_sum z amount fits e = rw (e, +ℤ_zero amount) (wrap64_of_IsInt64 amount fits)

-- For one of the four buckets and an int64 amount, the net change of the entry that `newLedgerEntry`
-- writes is the amount: an entry of one movement never hides a second one.
pub net_delta-new_ledger_entry :
    (key : UserKey) (biz_type : LedgerBizType) (biz_id remark : Text) (at : Time) (a : Account)
    (moved : Bucket) (amount : Money)
    → bucket_valid moved ≡ true
    → IsInt64 amount
    → net_delta (new_ledger_entry key biz_type biz_id remark at a moved amount) ≡ amount
unfolding wrap64 ◌+ℤ◌
net_delta-new_ledger_entry key biz_type biz_id remark at a bucket_frozen amount valid fits =
    wrap_sum _ _ fits (wrap_sum _ _ fits (wrap_sum _ _ fits refl))
net_delta-new_ledger_entry key biz_type biz_id remark at a bucket_available amount valid fits =
    wrap_sum _ _ fits (wrap_sum _ _ fits (wrap_of_amount amount fits))
net_delta-new_ledger_entry key biz_type biz_id remark at a bucket_withdrawing amount valid fits =
    wrap_sum _ _ fits (wrap_of_amount amount fits)
net_delta-new_ledger_entry key biz_type biz_id remark at a bucket_withdrawn amount valid fits =
    wrap_of_amount amount fits
net_delta-new_ledger_entry key biz_type biz_id remark at a (unknown n) amount valid fits =
    ground arith
