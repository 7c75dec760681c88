-- ===== src/Engine/Withdraw/Queries.antt =====
-- payout.go: the queries for withdrawals, and their count by state of store/memory/withdraw.go.
use distledger.Base.{ℕ, ◌+◌, not, List, [], ◌∷◌, if◌then◌else◌}
use distledger.Base.Int.{ℤ, ◌==ℤ◌}
use distledger.Base.Text.{Text}
use distledger.Engine.Checks.{check_scope, validate_idem_key}
use distledger.Engine.Config.{Ledger}
use distledger.Errors.{Result, ok, err, not_found}
use distledger.Idem.{withdraw_idem_key}
use distledger.Memory.Listing.{Page, withdrawals_by_tenant}
use distledger.Memory.Reader.{records, withdrawal_by_id, withdrawal_by_idem_key}
use distledger.Memory.Store.{Ctx, Store, view}
use distledger.Memory.Tx.{Tx, pure, gets, raise_if, check_ctx, ◌>>=◌, ◌>>◌}
use distledger.Withdrawal.{Withdrawal, WithdrawalState, same_state}

-- The read transaction of `loadWithdrawal`.
unfoldable pub load_tx : ℤ → ℤ → Tx Withdrawal
load_tx tenant_id id = do
  w ← withdrawal_by_id id
  raise_if (not (w.key.tenant_id ==ℤ tenant_id)) not_found
  pure w

-- `loadWithdrawal`, and `Withdrawal`.
unfoldable pub load_withdrawal : ℤ → ℤ → Ctx → Store → Result Withdrawal × Store
load_withdrawal tenant_id id ctx s = elim (check_scope tenant_id id) [
  | err e ↦ (err e, s)
  | ok u ↦ view ctx (load_tx tenant_id id) s
]

-- `WithdrawalByIdemKey`
unfoldable pub withdrawal_by_caller_key :
    Ledger → ℤ → Text → Ctx → Store → Result Withdrawal × Store
withdrawal_by_caller_key l tenant_id caller_key ctx s = elim (validate_idem_key caller_key) [
  | err e ↦ (err e, s)
  | ok u ↦
      view ctx (withdrawal_by_idem_key tenant_id (withdraw_idem_key l.digest tenant_id caller_key))
        s
]

-- `Withdrawals`
unfoldable pub withdrawals : ℤ → Page → Ctx → Store → Result (List Withdrawal) × Store
withdrawals tenant_id p ctx s = view ctx (withdrawals_by_tenant tenant_id p) s

-- A map from states to counts, in which a missing state reads as 0.
abbrev WithdrawalCounts : Type 0
WithdrawalCounts = WithdrawalState → ℕ

abbrev counted : ℤ → List Withdrawal → WithdrawalCounts → WithdrawalCounts
counted tenant_id [] out = out
counted tenant_id (w ∷ ws) out =
    if not (w.key.tenant_id ==ℤ tenant_id)
    then counted tenant_id ws out
    else counted tenant_id ws (λ t. if same_state t w.state then out t + 1 else out t)

-- `CountWithdrawalsByState`
unfoldable pub count_withdrawals_by_state : ℤ → Tx WithdrawalCounts
count_withdrawals_by_state tenant_id = do
  check_ctx
  gets (λ d. counted tenant_id (records d.withdrawals d.withdrawal_ids) (λ s. 0))
