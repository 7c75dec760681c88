-- ===== src/Engine/Movement.antt =====
-- An account movement with its ledger entry, the pair of calls that every handler which moves money
-- makes: `IncrementAccount`, then `AppendLedger` of what `newLedgerEntry` records about the account.
pub mod Transfer
use distledger.Base.Text.{Text}
use distledger.Account.{AccountDelta, LedgerBizType, Bucket, add_delta, new_ledger_entry}
use distledger.Memory.Tx.{Tx, Done, pure, ◌>>=◌, ◌>>◌}
use distledger.Memory.Writer.{increment_account, append_ledger}
use distledger.Money.{Money}

-- Money moves from one bucket to another.
unfoldable pub move :
    AccountDelta → LedgerBizType → Text → Text → Bucket → Money → Bucket → Money → Tx Done
move delta biz_type biz_id remark from debit to credit = do
  saved ← increment_account delta
  append_ledger (
      add_delta to credit
        (new_ledger_entry delta.key biz_type biz_id remark delta.at saved from debit))
  pure tt
