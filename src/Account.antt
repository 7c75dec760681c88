-- ===== src/Account.antt =====
-- model.go: accounts with their four buckets, atomic changes of them, and entries of the money
-- ledger.
pub mod Delta
pub mod Entry
pub mod Exact
use Prim.Native.String.{String}
use distledger.Base.{
  ℕ, ◌≡◌, Bool, true, false, not, ◌&&◌, List, [], ◌∷◌, Option, none, some, if◌then◌else◌,
}
use distledger.Base.Int.{ℤ, pos, ltb_ℤ, ◌==ℤ◌}
use distledger.Base.Text.{Text}
use distledger.Word.{add64}
use distledger.Clock.{Time, zero_time}
use distledger.Errors.{Result, ok, err, ◌>>=◌}
use distledger.Keys.{UserKey}
use distledger.Money
use distledger.Money.{Money}

pub record Account : Type 0 where
  pub key : UserKey
  pub frozen : Money
  pub available : Money
  pub withdrawing : Money
  pub withdrawn : Money
  pub total_earned : Money
  pub total_reversed : Money
  pub version : ℤ
  pub updated_at : Time

-- A `uint8`: `unknown` is any other value.
pub data Bucket : Type 0 where
  bucket_frozen bucket_available bucket_withdrawing bucket_withdrawn : Bucket
  unknown : ℕ → Bucket

-- `AllBuckets`
abbrev pub all_buckets : List Bucket
all_buckets = bucket_frozen ∷ bucket_available ∷ bucket_withdrawing ∷ bucket_withdrawn ∷ []

pub record AccountDelta : Type 0 where
  pub key : UserKey
  pub frozen : Money
  pub available : Money
  pub withdrawing : Money
  pub withdrawn : Money
  pub total_earned : Money
  pub total_reversed : Money
  pub at : Time
  pub require_non_negative : Bool

-- `LedgerBizType`, a `uint8`.
pub data LedgerBizType : Type 0 where
  accrue settle reverse void : LedgerBizType
  withdraw_hold withdraw_paid withdraw_refund manual_adjust : LedgerBizType
  unknown : ℕ → LedgerBizType

-- `LedgerBizType.Valid`
abbrev pub ledger_biz_type_valid : LedgerBizType → Bool
ledger_biz_type_valid (unknown n) = false
ledger_biz_type_valid _ = true

-- `LedgerBizType.referencesCommission`
abbrev pub references_commission : LedgerBizType → Bool
references_commission accrue = true
references_commission reverse = true
references_commission void = true
references_commission _ = false

-- `LedgerBizType.referencesWithdrawal`
abbrev pub references_withdrawal : LedgerBizType → Bool
references_withdrawal withdraw_hold = true
references_withdrawal withdraw_paid = true
references_withdrawal withdraw_refund = true
references_withdrawal _ = false

pub record LedgerEntry : Type 0 where
  pub id : ℤ
  pub key : UserKey
  pub biz_type : LedgerBizType
  pub biz_id : Text
  pub delta_frozen : Money
  pub delta_available : Money
  pub delta_withdrawing : Money
  pub delta_withdrawn : Money
  pub after_frozen : Money
  pub after_available : Money
  pub after_withdrawing : Money
  pub after_withdrawn : Money
  pub remark : Text
  pub created_at : Time

-- `Bucket.Value`
abbrev pub value : Bucket → Account → Money
value bucket_frozen a = a.frozen
value bucket_available a = a.available
value bucket_withdrawing a = a.withdrawing
value bucket_withdrawn a = a.withdrawn
value (unknown n) a = pos 0

-- `Bucket.Set`
abbrev pub set : Bucket → Account → Money → Account
set bucket_frozen a v = record a { frozen = v }
set bucket_available a v = record a { available = v }
set bucket_withdrawing a v = record a { withdrawing = v }
set bucket_withdrawn a v = record a { withdrawn = v }
set (unknown n) a v = a

-- `Bucket.Delta`
abbrev pub delta : Bucket → LedgerEntry → Money
delta bucket_frozen e = e.delta_frozen
delta bucket_available e = e.delta_available
delta bucket_withdrawing e = e.delta_withdrawing
delta bucket_withdrawn e = e.delta_withdrawn
delta (unknown n) e = pos 0

-- `Bucket.After`
abbrev pub after : Bucket → LedgerEntry → Money
after bucket_frozen e = e.after_frozen
after bucket_available e = e.after_available
after bucket_withdrawing e = e.after_withdrawing
after bucket_withdrawn e = e.after_withdrawn
after (unknown n) e = pos 0

-- `Bucket.AddToDelta`
abbrev pub add_to_delta : Bucket → Money → AccountDelta → AccountDelta
add_to_delta bucket_frozen v d = record d { frozen = add64 d.frozen v }
add_to_delta bucket_available v d = record d { available = add64 d.available v }
add_to_delta bucket_withdrawing v d = record d { withdrawing = add64 d.withdrawing v }
add_to_delta bucket_withdrawn v d = record d { withdrawn = add64 d.withdrawn v }
add_to_delta (unknown n) v d = d

-- `Bucket.SetAfter`
abbrev pub set_after : Bucket → Money → LedgerEntry → LedgerEntry
set_after bucket_frozen v e = record e { after_frozen = v }
set_after bucket_available v e = record e { after_available = v }
set_after bucket_withdrawing v e = record e { after_withdrawing = v }
set_after bucket_withdrawn v e = record e { after_withdrawn = v }
set_after (unknown n) v e = e

-- `Bucket.AddDelta`
abbrev pub add_delta : Bucket → Money → LedgerEntry → LedgerEntry
add_delta bucket_frozen v e = record e { delta_frozen = v }
add_delta bucket_available v e = record e { delta_available = v }
add_delta bucket_withdrawing v e = record e { delta_withdrawing = v }
add_delta bucket_withdrawn v e = record e { delta_withdrawn = v }
add_delta (unknown n) v e = e

-- `AccountDelta.Apply`
unfoldable pub apply_delta : AccountDelta → Account → Result Account
apply_delta d a = do
  frozen ← Money.add a.frozen d.frozen
  available ← Money.add a.available d.available
  withdrawing ← Money.add a.withdrawing d.withdrawing
  withdrawn ← Money.add a.withdrawn d.withdrawn
  total_earned ← Money.add a.total_earned d.total_earned
  total_reversed ← Money.add a.total_reversed d.total_reversed
  ok (record a {
    frozen = frozen;
    available = available;
    withdrawing = withdrawing;
    withdrawn = withdrawn;
    total_earned = total_earned;
    total_reversed = total_reversed;
  })

-- The loop of `Account.NegativeBuckets`.
abbrev negative_among : List Bucket → Account → List Bucket
negative_among [] a = []
negative_among (b ∷ bs) a =
    if ltb_ℤ (value b a) (pos 0) then b ∷ negative_among bs a else negative_among bs a

abbrev pub negative_buckets : Account → List Bucket
negative_buckets a = negative_among all_buckets a

-- The loop of `Account.Settleable`.
abbrev all_non_negative : List Bucket → Account → Bool
all_non_negative [] a = true
all_non_negative (b ∷ bs) a = if ltb_ℤ (value b a) (pos 0) then false else all_non_negative bs a

abbrev pub settleable : Account → Bool
settleable a = all_non_negative all_buckets a

-- The loop of `newLedgerEntry` over the buckets.
abbrev record_after : List Bucket → Account → LedgerEntry → LedgerEntry
record_after [] a e = e
record_after (b ∷ bs) a e = record_after bs a (set_after b (value b a) e)

abbrev pub blank_entry : UserKey → LedgerBizType → Text → Text → Time → LedgerEntry
blank_entry key biz_type biz_id remark at = record {
  id = pos 0;
  key = key;
  biz_type = biz_type;
  biz_id = biz_id;
  delta_frozen = pos 0;
  delta_available = pos 0;
  delta_withdrawing = pos 0;
  delta_withdrawn = pos 0;
  after_frozen = pos 0;
  after_available = pos 0;
  after_withdrawing = pos 0;
  after_withdrawn = pos 0;
  remark = remark;
  created_at = at;
}

-- `newLedgerEntry`
abbrev pub new_ledger_entry :
    UserKey → LedgerBizType → Text → Text → Time → Account → Bucket → Money → LedgerEntry
new_ledger_entry key biz_type biz_id remark at after moved amount =
    add_delta moved amount
      (record_after all_buckets after (blank_entry key biz_type biz_id remark at))

-- The zero value of an account in Go.
abbrev pub zero_account : UserKey → Account
zero_account key = record {
  key = key;
  frozen = pos 0;
  available = pos 0;
  withdrawing = pos 0;
  withdrawn = pos 0;
  total_earned = pos 0;
  total_reversed = pos 0;
  version = pos 0;
  updated_at = zero_time;
}
