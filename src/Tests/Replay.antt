-- ===== src/Tests/Replay.antt =====
-- A withdrawal that is requested twice, and one that another tenant asks for.
use distledger.Base.{◌≡◌, refl, true, false, some, none, [], arith}
use distledger.Base.Int.{pos}
use distledger.Base.Text.{text}
use distledger.Clock.{zero_time}
use distledger.Engine.Checks.{check_request, check_scope}
use distledger.Engine.Withdraw.{request_withdraw}
use distledger.Engine.Withdraw.Queries.{load_withdrawal}
use distledger.Engine.Withdraw.Scoped.{load_withdrawal-scoped, shown_to}
use distledger.Engine.Withdraw.Replay.{request_withdraw-replayed}
use distledger.Errors.{ok}
use distledger.Idem.{withdraw_idem_key}
use distledger.Keys.{is_empty}
use distledger.Memory.Data.{new_data}
use distledger.Memory.Store.{Store}
use distledger.Tests.{test_ledger, test_request, test_ctx}
use distledger.Withdrawal.{Withdrawal, applied}

abbrev pub known_withdrawal : Withdrawal
known_withdrawal = record {
  id = pos 1;
  key = record { tenant_id = pos 1; user_id = pos 7 };
  idem_key = withdraw_idem_key test_ledger.digest (pos 1) (text "w-1");
  amount = pos 20000;
  fee = pos 0;
  real_amount = pos 20000;
  channel = text "manual";
  account_info = text "iban";
  state = applied;
  fail_reason = [];
  tax_amount = pos 0;
  invoice_no = [];
  operator = [];
  applied_at = pos 1000;
  audited_at = zero_time;
  paid_at = zero_time;
  version = pos 1;
}

abbrev known_store : Store
known_store = record {
  data_of = record new_data {
    withdraw_idem = λ ref. some (pos 1);
    withdrawals = λ id. some known_withdrawal;
  };
  is_closed = false;
}

request_valid : check_request test_ledger test_request ≡ ok (pos 0)
unfolding distledger.Engine.Checks.check_request distledger.Engine.Checks.validate_idem_key
    distledger.Engine.Checks.withdraw_fee distledger.Money.apply distledger.SafeMath.mul_div
    distledger.Money.abs_uint64 distledger.Word.wrap64 distledger.Base.Int.◌-ℤ◌
    distledger.Base.Int.◌+ℤ◌
request_valid = refl

key_full : is_empty (withdraw_idem_key test_ledger.digest (pos 1) (text "w-1")) ≡ false
unfolding distledger.Idem.withdraw_idem_key distledger.Idem.hash_parts distledger.Idem.encode_parts
    distledger.Idem.i64s
key_full = refl

request_withdraw-replayed_example :
    request_withdraw test_ledger test_request test_ctx known_store
    ≡ (ok (known_withdrawal, true), known_store)
request_withdraw-replayed_example =
    request_withdraw-replayed test_ledger test_request (pos 0) test_ctx known_store known_withdrawal
      request_valid (record { at_start = refl; later = λ n. refl; in_tx = refl; is_open = refl })
      key_full (record { id = pos 1; indexed = refl; stored = refl })

ids_valid : check_scope (pos 2) (pos 1) ≡ ok tt
unfolding distledger.Engine.Checks.check_scope
ids_valid = refl

-- The row belongs to tenant 1.
load_withdrawal-scoped_example :
    load_withdrawal (pos 2) (pos 1) test_ctx known_store
    ≡ (shown_to (pos 2) (known_store.data_of.withdrawals (pos 1)), known_store)
load_withdrawal-scoped_example =
    load_withdrawal-scoped (pos 2) (pos 1) test_ctx known_store ids_valid
      (record { at_start = refl; later = λ n. refl; in_tx = refl; is_open = refl })
