-- ===== src/Tests.antt =====
-- The theorems applied at concrete inputs.
pub mod Orders
pub mod History
pub mod Replay
pub mod Parsing
pub mod Pages
use distledger.Base.{
  ℕ, ◌*◌, ◌^◌, ◌≡◌, ◌↔◌, ◌⊎◌, ◌≤◌, ◌<◌, refl, true, false, Option, none, some, List, [], ◌∷◌, inl,
  inr, arith,
}
use distledger.Base.Int.{ℤ, pos, negsuc, ◌+ℤ◌, ◌-ℤ◌}
use distledger.Base.Text.{Text, text}
use distledger.SafeMath
use distledger.SafeMath.Exact.{checked, add_exact, sub_exact, neg_exact}
use distledger.SafeMath.Quotient.{IsRounded, mul_div_iff}
use distledger.Money
use distledger.Money.{round_down, round_half_up}
use distledger.Money.Exact.{IsQuotient, mul_div_exact, apply_exact}
use distledger.Errors.{ok, err, overflow, insufficient_balance}
use distledger.Rules.{Rules, default_rules, validate}
use distledger.Rules.Validated.{IsConsistent, validate-IsConsistent}
use distledger.Idem.{encode_parts}
use distledger.Idem.Encoding.{encode_parts_injective}
use distledger.Commission.{
  CommissionState, settled, reversed, frozen, commission_terminal, can_transition_commission,
}
use distledger.Commission.Transitions.{here, next, Reach-MayBecome, terminal_iff_stuck}
use distledger.Withdrawal.{
  WithdrawalState, applied, approved, pay_failed, paid, reserved, withdrawal_terminal,
  can_transition_withdrawal,
}
use distledger.Withdrawal.Transitions.{start, then, Chain-bounded, reserved_iff_open}
use distledger.Account.{
  Account, AccountDelta, Bucket, bucket_available, LedgerEntry, reverse, new_ledger_entry,
  zero_account, negative_buckets, settleable, value, apply_delta,
}
use distledger.Account.Entry.{
  AccountsFor, net_delta, new_ledger_entry-AccountsFor, net_delta-new_ledger_entry,
}
use distledger.Account.Exact.{HasInt64, ChangesByInt64, apply_delta-exact}
use distledger.Account.Delta.{IsCovered, negative_buckets_iff, settleable_iff, delta_value}
use distledger.Engine.Calls.{Call, request, perform}
use distledger.Engine.Calls.Unchanged.{perform_failed}
use distledger.Engine.Checks.{WithdrawRequest}
use distledger.Engine.Covered.{AreCovered}
use distledger.Engine.Calls.Covered.{perform-AreCovered}
use distledger.Engine.Config.{Ledger, default_rates, default_elig}
use distledger.Engine.Withdraw.{guarded_delta}
use distledger.Keys.{UserKey}
use distledger.Memory.Data.{new_data}
use distledger.Memory.Writer.{transition_commission}
use distledger.Memory.Writer.Refused.{
  is_refused, transition_withdrawal-refused, transition_commission-refused,
}
use distledger.Memory.Writer.Withdrawals.{WithdrawalTransition, transition_withdrawal}
use distledger.Engine.Payout.{manual_channel}
use distledger.Word.{wrap64}
use distledger.Memory.Store.{Ctx, new_store, begin}

abbrev pub test_ledger : Ledger
test_ledger = record {
  rules = default_rules;
  now = pos 1000;
  digest = λ bytes. bytes;
  rates = default_rates;
  elig = default_elig;
  rule_version = pos 1;
}

abbrev pub test_ctx : Ctx
test_ctx = record { at_start = none; later = λ n. none; in_tx = false }

abbrev pub test_request : WithdrawRequest
test_request = record {
  tenant_id = pos 1;
  user_id = pos 7;
  amount = pos 20000;
  channel = text "manual";
  account_info = text "iban";
  idem_key = text "w-1";
}

-- The row is written before the reservation finds the account empty.
request_refused :
    (perform test_ledger (some manual_channel) (request test_request) test_ctx new_store).0
    ≡ err insufficient_balance
unfolding distledger.Memory.Tx.pure distledger.Memory.Tx.raise distledger.Memory.Tx.lift
    distledger.Memory.Tx.gets distledger.Memory.Tx.◌>>=◌ distledger.Memory.Tx.recover
    distledger.Memory.Tx.if_some distledger.Memory.Tx.raise_if distledger.Memory.Tx.check_ctx
    distledger.Memory.Tx.or_raise distledger.Memory.Tx.set_account distledger.Memory.Tx.set_ledger
    distledger.Memory.Tx.set_idem distledger.Memory.Tx.set_withdrawal
    distledger.Memory.Tx.set_withdraw_idem distledger.Memory.Tx.push_by_order
    distledger.Memory.Tx.push_ledger_by_user distledger.Memory.Tx.push_ledger_by_tenant
    distledger.Memory.Tx.push_ledger_id distledger.Memory.Tx.push_commission_id
    distledger.Memory.Tx.push_withdrawal_id distledger.Memory.Tx.fresh_id
    distledger.Memory.Tx.search_from distledger.Memory.Tx.insert_account_id
    distledger.Memory.Undo.rollback distledger.Memory.Reader.agent distledger.Memory.Reader.binding
    distledger.Memory.Reader.account distledger.Memory.Reader.commission
    distledger.Memory.Reader.commissions_by_order distledger.Memory.Reader.withdrawal_by_id
    distledger.Memory.Reader.withdrawal_by_idem_key distledger.Memory.Writer.increment_account
    distledger.Memory.Writer.check_new_commission distledger.Memory.Writer.write_available_at
    distledger.Memory.Writer.append_ledger distledger.Memory.Writer.Withdrawals.append_withdrawal
    distledger.Memory.Store.update distledger.Engine.Checks.validate_idem_key
    distledger.Engine.Checks.validate_reason distledger.Engine.Checks.withdraw_fee
    distledger.Engine.Checks.check_request distledger.Engine.Checks.check_scope
    distledger.Engine.Movement.move distledger.Engine.Withdraw.apply_withdrawal
    distledger.Engine.Withdraw.append_or_replay distledger.Engine.Withdraw.request_tx
    distledger.Engine.Withdraw.request_withdraw distledger.Engine.Calls.perform
    distledger.Account.apply_delta distledger.Idem.i64s distledger.Idem.encode_parts
    distledger.Idem.hash_parts distledger.Idem.withdraw_idem_key distledger.Money.add
    distledger.Money.sub distledger.Money.neg distledger.Money.abs_uint64 distledger.Money.apply
    distledger.SafeMath.add distledger.SafeMath.sub distledger.SafeMath.neg distledger.Word.wrap64
    distledger.Withdrawal.withdrawal_terminal distledger.Withdrawal.reserved
    distledger.Withdrawal.validate_withdrawal distledger.Withdrawal.outstanding
    distledger.Money.Print.money_text distledger.Base.Int.◌+ℤ◌ distledger.Base.Int.◌-ℤ◌
request_refused = refl

-- The row is written before the reservation finds the account empty.
perform_failed_example :
    (perform test_ledger (some manual_channel) (request test_request) test_ctx new_store).1
    ≡ new_store
perform_failed_example =
    perform_failed test_ledger (some manual_channel) (request test_request) test_ctx new_store
      insufficient_balance request_refused

mul_div_exact_example :
    ((Money.mul_div (negsuc 99) (pos 1) (pos 3) round_down ≡ ok (negsuc 32))
      ↔ IsQuotient round_down (negsuc 99) (pos 1) 3 (negsuc 32))
    × ((Money.mul_div (negsuc 99) (pos 1) (pos 3) round_down ≡ err overflow)
        ↔ (¬ ((y : ℤ) × IsQuotient round_down (negsuc 99) (pos 1) 3 y)))
mul_div_exact_example =
    mul_div_exact (negsuc 99) (pos 1) 3 round_down (negsuc 32) (ground arith) (ground arith)
      (omega arith) (omega arith) refl

apply_exact_example :
    ((Money.apply (pos 1999) (pos 250) round_half_up ≡ ok (pos 50))
      ↔ IsQuotient round_half_up (pos 1999) (pos 250) 10000 (pos 50))
    × ((Money.apply (pos 1999) (pos 250) round_half_up ≡ err overflow)
        ↔ (¬ ((y : ℤ) × IsQuotient round_half_up (pos 1999) (pos 250) 10000 y)))
apply_exact_example =
    apply_exact (pos 1999) 250 round_half_up (pos 50) (ground arith) (omega arith) refl

-- The smallest int64 is divided by 1, and has its share of 100 %, with an overflow.
smallest_refused :
    (Money.mul_div (negsuc 9223372036854775807) (pos 1) (pos 1) round_down ≡ err overflow)
    × (Money.apply (negsuc 9223372036854775807) (pos 10000) round_down ≡ err overflow)
unfolding distledger.Money.mul_div distledger.Money.apply distledger.SafeMath.mul_div
    distledger.Money.abs_uint64 distledger.Word.wrap64 distledger.Base.Int.◌-ℤ◌
    distledger.Base.Int.◌+ℤ◌
smallest_refused = (refl, refl)

mul_div_iff_example :
    (SafeMath.mul_div 10 10 3 false true ≡ some 33)
    ↔ (IsRounded false true (10 * 10) 3 33 × (33 < 2 ^ 64))
mul_div_iff_example = mul_div_iff 10 10 3 false true 33 (omega arith)

add_exact_example :
    SafeMath.add (pos 9223372036854775807) (pos 1) ≡ checked (pos 9223372036854775807 +ℤ pos 1)
add_exact_example = add_exact (pos 9223372036854775807) (pos 1) (ground arith) (ground arith)

sub_exact_example :
    SafeMath.sub (negsuc 9223372036854775807) (pos 1)
    ≡ checked (negsuc 9223372036854775807 -ℤ pos 1)
sub_exact_example = sub_exact (negsuc 9223372036854775807) (pos 1) (ground arith) (ground arith)

neg_exact_example :
    SafeMath.neg (negsuc 9223372036854775807) ≡ checked (pos 0 -ℤ negsuc 9223372036854775807)
neg_exact_example = neg_exact (negsuc 9223372036854775807) (ground arith)

abbrev pub test_rules : Rules
test_rules = record default_rules { rate_bp = pos 500 ∷ pos 200 ∷ [] }

validate-IsConsistent_example : IsConsistent test_rules
unfolding validate wrap64 ◌+ℤ◌
validate-IsConsistent_example = validate-IsConsistent test_rules refl

abbrev test_parts : List Text
test_parts = text "v1" ∷ text "withdraw" ∷ []

encode_parts_injective_example : test_parts ≡ test_parts
encode_parts_injective_example =
    encode_parts_injective test_parts test_parts (ground arith) (ground arith) refl

Reach-MayBecome_example : (reversed ≡ settled) ⊎ (reversed ≡ reversed)
unfolding can_transition_commission
Reach-MayBecome_example = Reach-MayBecome (next {t = settled} here refl)

terminal_iff_stuck_example :
    (commission_terminal frozen ≡ true)
    ↔ ((t : CommissionState) → can_transition_commission frozen t ≡ false)
terminal_iff_stuck_example = terminal_iff_stuck frozen refl

Chain-bounded_example : 3 ≤ 3
unfolding can_transition_withdrawal
Chain-bounded_example =
    Chain-bounded {s = applied} {t = paid}
      (then {t = pay_failed} (then {t = approved} (then {t = applied} start refl) refl) refl)

reserved_iff_open_example :
    ((reserved pay_failed ≡ false) ↔ (withdrawal_terminal pay_failed ≡ true))
    × ((withdrawal_terminal pay_failed ≡ true)
        ↔ ((t : WithdrawalState) → can_transition_withdrawal pay_failed t ≡ false))
reserved_iff_open_example = reserved_iff_open pay_failed refl

abbrev indebted : Account
indebted = record (zero_account (record { tenant_id = pos 1; user_id = pos 7 })) {
  available = negsuc 4;
}

negative_buckets_iff_example : (negative_buckets indebted ≡ []) ↔ IsCovered indebted
negative_buckets_iff_example = negative_buckets_iff indebted

settleable_iff_example : (settleable indebted ≡ true) ↔ IsCovered indebted
settleable_iff_example = settleable_iff indebted

new_store-AreCovered : AreCovered (new_store.data_of.accounts)
new_store-AreCovered = record { each = λ key a e. cc }

perform-AreCovered_example :
    AreCovered
      (perform test_ledger
        (some manual_channel)
        (request test_request)
        test_ctx
        new_store).1.data_of.accounts
perform-AreCovered_example =
    perform-AreCovered test_ledger (some manual_channel) (request test_request) test_ctx new_store
      refl new_store-AreCovered

abbrev test_change : WithdrawalTransition
test_change = record {
  fail_reason = text "timeout";
  invoice_no = [];
  operator = text "ops";
  audited_at = pos 0;
  paid_at = pos 0;
}

transition_withdrawal-refused_example :
    is_refused
      (transition_withdrawal
        (pos 1)
        pay_failed
        pay_failed
        (pos 3)
        test_change
        (begin test_ctx new_data)).0
    ≡ true
unfolding can_transition_withdrawal
transition_withdrawal-refused_example =
    transition_withdrawal-refused (pos 1) pay_failed pay_failed (pos 3) test_change
      (begin test_ctx new_data) refl

transition_commission-refused_example :
    is_refused (transition_commission (pos 1) reversed settled (pos 2) (begin test_ctx new_data)).0
    ≡ true
unfolding can_transition_commission
transition_commission-refused_example =
    transition_commission-refused (pos 1) reversed settled (pos 2) (begin test_ctx new_data) refl

abbrev test_key : UserKey
test_key = record { tenant_id = pos 1; user_id = pos 7 }

abbrev test_account : Account
test_account = record (zero_account test_key) { available = pos 900 }

abbrev test_delta : AccountDelta
test_delta = guarded_delta test_key (negsuc 299) (pos 300) (pos 0) (pos 1000)

abbrev test_after : Account
test_after = record test_account { available = pos 600; withdrawing = pos 300 }

test_account-HasInt64 : HasInt64 test_account
test_account-HasInt64 = record {
  frozen_fits = ground arith;
  available_fits = ground arith;
  withdrawing_fits = ground arith;
  withdrawn_fits = ground arith;
  earned_fits = ground arith;
  reversed_fits = ground arith;
}

test_delta-ChangesByInt64 : ChangesByInt64 test_delta
test_delta-ChangesByInt64 = record {
  frozen_fits = ground arith;
  available_fits = ground arith;
  withdrawing_fits = ground arith;
  withdrawn_fits = ground arith;
  earned_fits = ground arith;
  reversed_fits = ground arith;
}

apply_delta-exact_example :
    ((b : Bucket) → value b test_after ≡ value b test_account +ℤ delta_value b test_delta)
    × (pos 0 ≡ pos 0 +ℤ pos 0)
    × (pos 0 ≡ pos 0 +ℤ pos 0)
    × (test_key ≡ test_key)
    × (pos 0 ≡ pos 0)
unfolding apply_delta Money.add SafeMath.add wrap64 ◌+ℤ◌
apply_delta-exact_example =
    apply_delta-exact test_delta test_account test_after test_account-HasInt64
      test_delta-ChangesByInt64 refl

abbrev still_delta : AccountDelta
still_delta = guarded_delta test_key (pos 0) (pos 0) (pos 0) (pos 1000)

still_delta-ChangesByInt64 : ChangesByInt64 still_delta
still_delta-ChangesByInt64 = record {
  frozen_fits = ground arith;
  available_fits = ground arith;
  withdrawing_fits = ground arith;
  withdrawn_fits = ground arith;
  earned_fits = ground arith;
  reversed_fits = ground arith;
}

abbrev clawed_account : Account
clawed_account = record test_account { available = pos 600 }

abbrev clawed_entry : LedgerEntry
clawed_entry =
    new_ledger_entry test_key reverse (text "9") (text "refund") (pos 1000) clawed_account
      bucket_available (negsuc 299)

new_ledger_entry-AccountsFor_example : AccountsFor clawed_entry test_account clawed_account
unfolding apply_delta Money.add SafeMath.add wrap64 ◌+ℤ◌
new_ledger_entry-AccountsFor_example =
    new_ledger_entry-AccountsFor test_key reverse (text "9") (text "refund") (pos 1000) test_account
      clawed_account bucket_available (negsuc 299) still_delta test_account-HasInt64
      still_delta-ChangesByInt64 (ground arith) (refl, refl, refl, refl) refl

net_delta-new_ledger_entry_example : net_delta clawed_entry ≡ negsuc 299
net_delta-new_ledger_entry_example =
    net_delta-new_ledger_entry test_key reverse (text "9") (text "refund") (pos 1000) clawed_account
      bucket_available (negsuc 299) refl (ground arith)
