-- ===== src/Engine/Withdraw/Scoped.antt =====
-- A withdrawal of another tenant.
use distledger.Base.{◌≡◌, refl, ap, ◌∙◌, Bool-cases, inl, inr, Option, none, some, if◌then◌else◌}
use distledger.Base.Int.{ℤ, ◌==ℤ◌}
use distledger.Engine.Checks.{check_scope}
use distledger.Engine.Withdraw.Queries.{load_tx, load_withdrawal}
use distledger.Errors.{Result, ok, err, not_found}
use distledger.Memory.Reader.{withdrawal_by_id}
use distledger.Memory.Store.{Ctx, Store, begin, view}
use distledger.Memory.Store.Clear.{IsClear, unless_closed}
use distledger.Memory.Tx.{TxState, ◌>>=◌, pure, raise_if, gets, or_raise, check_ctx}
use distledger.Withdrawal.{Withdrawal}

-- What a tenant sees of a row.
abbrev pub shown_to : ℤ → Option Withdrawal → Result Withdrawal
shown_to tenant_id none = err not_found
shown_to tenant_id (some w) = if w.key.tenant_id ==ℤ tenant_id then ok w else err not_found

row-shown_to :
    (tenant_id id : ℤ) (t : TxState) (o : Option Withdrawal)
    → t.ctx t.checks ≡ none
    → t.store.withdrawals id ≡ o
    → (load_tx tenant_id id t).0 ≡ shown_to tenant_id o
unfolding load_tx withdrawal_by_id ◌>>=◌ pure raise_if gets or_raise check_ctx
row-shown_to tenant_id id t none alive e = rw (alive, e) refl
row-shown_to tenant_id id t (some w) alive e =
    rw (alive, e)
      (elim (Bool-cases (w.key.tenant_id ==ℤ tenant_id)) [
        | inl own ↦ rw own refl
        | inr other ↦ rw other refl
      ])

-- Where the ids of a request are in range, the store is open and the context lets the call through,
-- a tenant is answered its own withdrawal under the id, and `ErrNotFound` where there is none or where
-- it belongs to another tenant; the store stays as it was.
pub load_withdrawal-scoped :
    (tenant_id id : ℤ) (ctx : Ctx) (s : Store)
    → check_scope tenant_id id ≡ ok tt
    → IsClear ctx s
    → load_withdrawal tenant_id id ctx s ≡ (shown_to tenant_id (s.data_of.withdrawals id), s)
unfolding load_withdrawal view
load_withdrawal-scoped tenant_id id ctx s valid clear =
    let start = begin ctx s.data_of in
    rw (valid, load_withdrawal)
      (rw (clear.at_start, view)
        (rw clear.in_tx (
          unless_closed s.is_closed _ _ clear.is_open
          ∙ ap (λ r. (r, s))
              (row-shown_to tenant_id id start (s.data_of.withdrawals id) (clear.later 0) refl))))
