-- ===== src/Engine/Writes/Single.antt =====
-- A property that every increment, of those that the handlers make, and every entry keeps on its own
-- is kept by the movements of Engine/Writes.
use distledger.Base.{◌≡◌, refl, true, arith}
use distledger.Base.Int.{ℤ}
use distledger.Base.Text.{Text}
use distledger.Account.{AccountDelta, Bucket, LedgerBizType, LedgerEntry}
use distledger.Clock.{Time}
use distledger.Commission.{Commission}
use distledger.Engine.Clawback.{take_debt, debit_bucket, clawback_delta}
use distledger.Engine.Config.{Ledger}
use distledger.Engine.Movement.{move}
use distledger.Keys.{UserKey}
use distledger.Memory.Tx.Rules.{Kept, Keeps, any_error, keeps_rules, Keeps-recover_any}
use distledger.Memory.Writer.{increment_account, append_ledger}
use distledger.Money.{Money}

clawback_delta-guarded :
    (key : UserKey) (bucket : Bucket) (delta : Money) (at : Time)
    → (clawback_delta key bucket delta at true).require_non_negative ≡ true
clawback_delta-guarded key bucket delta at = ground arith

pub record Singles (l : Ledger) (P : Kept) : Type 0 where
  pub recorded : (e : LedgerEntry) → Keeps P any_error (append_ledger e)
  -- Every increment is guarded but the one that takes a debt.
  pub incremented :
      (delta : AccountDelta)
      → delta.require_non_negative ≡ true
      → Keeps P any_error (increment_account delta)
  pub indebted :
      (key : UserKey) (bucket : Bucket) (delta : Money) (at : Time)
      → Keeps P any_error (take_debt l key bucket delta at)

module _ {l : Ledger} {P : Kept} (w : Singles l P) where
  Keeps-append_ledger : (e : LedgerEntry) → Keeps P any_error (append_ledger e)
  Keeps-append_ledger = w.recorded

  Keeps-increment_account :
      (delta : AccountDelta)
      → delta.require_non_negative ≡ true
      → Keeps P any_error (increment_account delta)
  Keeps-increment_account = w.incremented

  Keeps-take_debt :
      (key : UserKey) (bucket : Bucket) (delta : Money) (at : Time)
      → Keeps P any_error (take_debt l key bucket delta at)
  Keeps-take_debt = w.indebted

ruleset single_rules = (
  keeps_rules, refl, clawback_delta-guarded, Keeps-recover_any, Keeps-append_ledger,
  Keeps-increment_account, Keeps-take_debt,
)

module _ {l : Ledger} {P : Kept} (w : Singles l P) where
  pub move-Keeps :
      (delta : AccountDelta) (biz_type : LedgerBizType) (biz_id remark : Text) (from : Bucket)
      (debit : Money) (to : Bucket) (credit : Money)
      → delta.require_non_negative ≡ true
      → Keeps P any_error (move delta biz_type biz_id remark from debit to credit)
  unfolding move
  move-Keeps delta biz_type biz_id remark from debit to credit h = search single_rules depth 40

  pub debit_bucket-Keeps :
      (original : Commission) (bucket : Bucket) (delta : Money) (reason : Text) (reversal_id : ℤ)
      (target original_amount : Money) (at : Time)
      → Keeps P any_error
          (debit_bucket l original bucket delta reason reversal_id target original_amount at)
  unfolding debit_bucket
  debit_bucket-Keeps original bucket delta reason reversal_id target original_amount at =
      search single_rules depth 40
