-- ===== src/SelfCheck/Conservation.antt =====
-- selfcheck.go: invariant I1, that each account holds the sum of its entries.
pub mod Tallied
pub mod Judged
pub mod Accounts
pub mod Reached
use distledger.Base.{
  ℕ, zero, suc, ◌+◌, Bool, true, false, not, ◌&&◌, none, List, [], ◌∷◌, length, if◌then◌else◌,
}
use distledger.Base.Int.{ℤ, pos, ltb_ℤ, ◌==ℤ◌}
use distledger.Account.{
  Account, Bucket, bucket_available, LedgerEntry, accrue, value, set, delta, after, all_buckets,
  settleable, zero_account, blank_entry,
}
use distledger.Clock.{zero_time}
use distledger.Engine.Config.{Ledger}
use distledger.Errors.{Result, ok, err}
use distledger.Keys.{UserKey}
use distledger.Memory.Listing.{accounts_by_tenant, ledger_entries, max_page_limit}
use distledger.Memory.Tx.{Tx, pure, lift, gets, ◌>>=◌}
use distledger.Money
use distledger.SelfCheck.Pages.{paged, full_page}
use distledger.SelfCheck.Results.{
  InvariantResult, fresh_result, i1, add, add_if, note, count, negative_bucket,
  money_without_entries, sum_mismatch, tail_mismatch, carries_debt,
}

-- `b == BucketAvailable`
abbrev pub is_available : Bucket → Bool
is_available bucket_available = true
is_available _ = false

-- A bucket below zero, which is a debt where the rules permit one.
abbrev check_negative : Bool → Account → Bucket → InvariantResult → InvariantResult
check_negative allow_negative a b r =
    if not (ltb_ℤ (value b a) (pos 0))
    then r
    else if allow_negative && is_available b
    then note (carries_debt a.key (value b a) b) r
    else add (negative_bucket a.key b (value b a)) r

abbrev check_empty : Account → Bucket → InvariantResult → InvariantResult
check_empty a b r = add_if (not (value b a ==ℤ pos 0)) (money_without_entries a.key b (value b a)) r

abbrev check_sum : Account → Account → LedgerEntry → Bucket → InvariantResult → InvariantResult
check_sum a sums tail b r =
    add_if (not (after b tail ==ℤ value b a))
      (tail_mismatch a.key b tail.id (after b tail) (value b a))
      (add_if (not (value b sums ==ℤ value b a)) (sum_mismatch a.key b (value b sums) (value b a))
        r)

-- A loop over buckets.
abbrev each_bucket :
    (Bucket → InvariantResult → InvariantResult) → List Bucket → InvariantResult → InvariantResult
each_bucket f [] r = r
each_bucket f (b ∷ bs) r = each_bucket f bs (f b r)

abbrev check_negatives : Bool → Account → InvariantResult → InvariantResult
check_negatives allow_negative a r =
    if not (settleable a) then each_bucket (check_negative allow_negative a) all_buckets r else r

-- `accountConservationViolations`, given how many entries there are.
unfoldable pub conservation_violations :
    Bool → Account → Account → LedgerEntry → ℕ → InvariantResult → InvariantResult
conservation_violations allow_negative a sums tail zero r =
    each_bucket (check_empty a) all_buckets (check_negatives allow_negative a r)
conservation_violations allow_negative a sums tail (suc n) r =
    each_bucket (check_sum a sums tail) all_buckets (check_negatives allow_negative a r)

-- What the loop over the entries of an account carries.
pub record Tally : Type 0 where
  pub sums : Account
  pub tail : LedgerEntry
  pub entries : ℕ

abbrev no_key : UserKey
no_key = record { tenant_id = pos 0; user_id = pos 0 }

abbrev pub no_tally : Tally
no_tally = record {
  sums = zero_account no_key;
  tail = blank_entry no_key accrue [] [] zero_time;
  entries = 0;
}

-- The loop that adds an entry to the sums.
unfoldable pub add_deltas : LedgerEntry → List Bucket → Account → Result Account
add_deltas e [] sums = ok sums
add_deltas e (b ∷ bs) sums = elim (Money.add (value b sums) (delta b e)) [
  | err x ↦ err x
  | ok sum ↦ add_deltas e bs (set b sums sum)
]

unfoldable pub tally_entry : LedgerEntry → Tally → Result Tally
unfolding add_deltas
tally_entry e t = elim (add_deltas e all_buckets t.sums) [
  | err x ↦ err x
  | ok sums ↦ ok (record { sums = sums; tail = e; entries = t.entries + 1 })
]

-- The entries of an account, page by page, and the judgement.
unfoldable pub check_account : Ledger → ℕ → Account → InvariantResult → Tx InvariantResult
check_account l fuel a r = do
  t ←
      paged fuel (λ last. ledger_entries a.key (record { page = full_page last; biz_type = none }))
        (λ e. e.id) (λ e t. lift (tally_entry e t)) (pos 0) no_tally
  pure (conservation_violations l.rules.allow_negative a t.sums t.tail t.entries (count r))

-- `checkLedgerConservation`
unfoldable pub check_ledger_conservation : Ledger → ℤ → Tx InvariantResult
check_ledger_conservation l tenant_id = do
  accounts ← gets (λ d. length d.account_ids + 1)
  entries ← gets (λ d. length d.ledger_ids + 1)
  paged accounts
      (λ last.
        accounts_by_tenant tenant_id (record { after_user_id = last; limit = pos max_page_limit }))
      (λ a. a.key.user_id) (check_account l entries) (pos 0) (fresh_result i1)
