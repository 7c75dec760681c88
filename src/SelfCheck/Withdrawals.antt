-- ===== src/SelfCheck/Withdrawals.antt =====
-- selfcheck.go: invariant I4, that the withdrawals, the ledger and the reserved buckets agree.
use distledger.Base.{◌+◌, Bool, true, not, ◌&&◌, none, some, length, if◌then◌else◌}
use distledger.Base.Int.{ℤ, pos, ltb_ℤ, ◌==ℤ◌}
use distledger.Base.Maps.{Map, empty_map, insert}
use distledger.Account.{
  Account, LedgerEntry, LedgerBizType, withdraw_hold, withdraw_paid, withdraw_refund,
  references_withdrawal,
}
use distledger.Clock.{is_zero}
use distledger.Errors.{Result, ok, err}
use distledger.Keys.{UserKey, int_eq, user_key_eq}
use distledger.Memory.Listing.{
  accounts_by_tenant, ledger_by_tenant_page, withdrawals_by_tenant, max_page_limit,
}
use distledger.Memory.Tx.{Tx, pure, lift, gets, ◌>>=◌}
use distledger.Memory.Writer.{is_some}
use distledger.Money
use distledger.Money.{Money}
use distledger.SelfCheck.Results.{or_zero}
use distledger.SelfCheck.Pages.{paged, full_page}
use distledger.SelfCheck.Parse.{parse_int}
use distledger.SelfCheck.Results.{
  InvariantResult, fresh_result, i4, add, add_if, count, withdraw_biz_id, paid_without_time,
  time_without_payment, no_hold_entry, no_paid_entry, no_refund_entry, reserved_mismatch,
}
use distledger.Withdrawal.{Withdrawal, WithdrawalState, rejected, paid, same_state, outstanding}

-- A set of ids.
abbrev pub Ids : Type 0
Ids = Map ℤ Bool

abbrev pub member : ℤ → Ids → Bool
member id ids = is_some (ids id)

-- The withdrawals that the ledger names, by the kind of the entry.
pub record Named : Type 0 where
  pub holds : Ids
  pub paids : Ids
  pub refunds : Ids
  pub result : InvariantResult

-- `switch e.BizType`
abbrev name_id : LedgerBizType → ℤ → Named → Named
name_id withdraw_hold id n = record n { holds = insert id true n.holds }
name_id withdraw_paid id n = record n { paids = insert id true n.paids }
name_id withdraw_refund id n = record n { refunds = insert id true n.refunds }
name_id _ id n = n

-- An entry of the tenant's ledger.
unfoldable pub name_withdrawal : LedgerEntry → Named → Named
name_withdrawal e n =
    if not (references_withdrawal e.biz_type) then n else elim (parse_int e.biz_id) [
      | none ↦ record n { result = add (withdraw_biz_id e.id e.biz_id) n.result }
      | some id ↦ name_id e.biz_type id n
    ]

-- `switch w.State`
abbrev check_settled : WithdrawalState → ℤ → Named → InvariantResult → InvariantResult
check_settled paid id n r = add_if (not (member id n.paids)) (no_paid_entry id) r
check_settled rejected id n r = add_if (not (member id n.refunds)) (no_refund_entry id) r
check_settled _ id n r = r

-- The time and the entries of a withdrawal.
abbrev check_withdrawal : Withdrawal → Named → InvariantResult → InvariantResult
check_withdrawal w n r = check_settled w.state w.id n (
    add_if (not (member w.id n.holds)) (no_hold_entry w.id) (
      add_if (not (same_state w.state paid) && not (is_zero w.paid_at))
        (time_without_payment w.id w.state)
        (add_if (same_state w.state paid && is_zero w.paid_at) (paid_without_time w.id) r)))

pub record Reserved : Type 0 where
  pub amounts : Map UserKey Money
  pub result : InvariantResult

abbrev with_sum : UserKey → Reserved → Result Money → Result Reserved
with_sum key s (err e) = err e
with_sum key s (ok sum) = ok (record s { amounts = insert key sum s.amounts })

-- A withdrawal of the tenant.
unfoldable pub reserve_one : Named → Withdrawal → Reserved → Result Reserved
reserve_one n w s =
    let s' : Reserved = record s { result = check_withdrawal w n (count s.result) } in
    if ltb_ℤ (pos 0) (outstanding w)
    then with_sum w.key s' (Money.add (or_zero (s.amounts w.key)) (outstanding w))
    else ok s'

-- The reserved bucket of an account.
unfoldable pub check_reserved : Map UserKey Money → Account → InvariantResult → InvariantResult
check_reserved amounts a r =
    add_if (not (a.withdrawing ==ℤ or_zero (amounts a.key)))
      (reserved_mismatch a.key a.withdrawing (or_zero (amounts a.key))) (count r)

-- `checkWithdrawalReconciliation`
unfoldable pub check_withdrawal_reconciliation : ℤ → Tx InvariantResult
check_withdrawal_reconciliation tenant_id = do
  entries ← gets (λ d. length d.ledger_ids + 1)
  n ←
      paged entries (λ last. ledger_by_tenant_page tenant_id (full_page last)) (λ e. e.id)
        (λ e n. pure (name_withdrawal e n)) (pos 0)
        (record {
          holds = empty_map;
          paids = empty_map;
          refunds = empty_map;
          result = fresh_result i4;
        })
  withdrawals ← gets (λ d. length d.withdrawal_ids + 1)
  s ←
      paged withdrawals (λ last. withdrawals_by_tenant tenant_id (full_page last)) (λ w. w.id)
        (λ w s. lift (reserve_one n w s)) (pos 0)
        (record { amounts = empty_map; result = n.result })
  accounts ← gets (λ d. length d.account_ids + 1)
  paged accounts
      (λ last.
        accounts_by_tenant tenant_id (record { after_user_id = last; limit = pos max_page_limit }))
      (λ a. a.key.user_id) (λ a r. pure (check_reserved s.amounts a r)) (pos 0) s.result
