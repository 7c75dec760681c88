-- ===== src/Engine/Withdraw/Replay.antt =====
-- A withdrawal that is requested again.
use distledger.Base.{◌≡◌, refl, Bool, true, false, some, ◌∙◌}
use distledger.Base.Int.{ℤ}
use distledger.Base.Text.{Text}
use distledger.Engine.Checks.{WithdrawRequest, check_request}
use distledger.Engine.Config.{Ledger}
use distledger.Engine.Withdraw.{request_tx, request_withdraw}
use distledger.Errors.{Result, ok, is_not_found}
use distledger.Idem.{withdraw_idem_key}
use distledger.Keys.{is_empty}
use distledger.Memory.Data.{Data}
use distledger.Memory.Reader.{withdrawal_by_idem_key}
use distledger.Memory.Store.{Ctx, Store, begin, commit, update}
use distledger.Memory.Store.Clear.{IsClear, unless_closed}
use distledger.Memory.Tx.{Tx, if_some, TxState}
use distledger.Memory.Tx.Gives.{
  Gives, IsReading, Gives-bind, Gives-pure, Gives-gets, Gives-check_ctx, Gives-or_raise,
  Gives-raise_if, Gives-recover,
}
use distledger.Money.{Money}
use distledger.Withdrawal.{Withdrawal}

-- The store has a withdrawal under the idempotency key.
pub record IsKnown (tenant_id : ℤ) (key : Text) (w : Withdrawal) (d : Data) : Type 0 where
  pub id : ℤ
  pub indexed : d.withdraw_idem (record { tenant_id = tenant_id; key = key }) ≡ some id
  pub stored : d.withdrawals id ≡ some w

by_idem_key-Gives :
    (d : Data) (tenant_id : ℤ) (key : Text) (w : Withdrawal)
    → is_empty key ≡ false
    → IsKnown tenant_id key w d
    → Gives d (withdrawal_by_idem_key tenant_id key) w
unfolding withdrawal_by_idem_key
by_idem_key-Gives d tenant_id key w full h = Gives-bind _ tt _ _ Gives-check_ctx (
    Gives-bind _ tt _ _ (Gives-raise_if _ _ full) (
      Gives-bind _ _ _ _ (Gives-gets _) (
        Gives-bind _ h.id _ _ (Gives-or_raise _ _ _ h.indexed)
          (Gives-bind _ _ _ _ (Gives-gets _) (Gives-or_raise _ _ _ h.stored)))))

request_tx-Gives :
    (d : Data) (l : Ledger) (req : WithdrawRequest) (fee : Money) (w : Withdrawal)
    → is_empty (withdraw_idem_key l.digest req.tenant_id req.idem_key) ≡ false
    → IsKnown req.tenant_id (withdraw_idem_key l.digest req.tenant_id req.idem_key) w d
    → Gives d (request_tx l req fee) (w, true)
unfolding request_tx if_some
request_tx-Gives d l req fee w full h =
    Gives-bind _ (some w) _ _
      (Gives-recover is_not_found _ _ (some w)
        (Gives-bind _ w _ _ (by_idem_key-Gives d req.tenant_id _ w full h) (Gives-pure (some w))))
      (Gives-pure (w, true))

commit-same :
    (s : Store) (a : Withdrawal × Bool) (r : Result (Withdrawal × Bool)) (t : TxState)
    → r ≡ ok a
    → IsReading s.data_of t
    → commit s r t ≡ (ok a, s)
commit-same s a r t e h = rw (e, h.store_is) refl

update-Gives :
    (ctx : Ctx) (body : Tx (Withdrawal × Bool)) (s : Store) (a : Withdrawal × Bool)
    → IsClear ctx s
    → Gives s.data_of body a
    → update ctx body s ≡ (ok a, s)
unfolding update
update-Gives ctx body s a clear g =
    let start = begin ctx s.data_of in
    let (e, h) = g.at start (record { store_is = refl; alive = clear.later }) in
    rw (clear.at_start, update)
      (rw clear.in_tx (
        unless_closed s.is_closed _ _ clear.is_open
        ∙ commit-same s a (body start).0 (body start).1 e h))

-- Where a store has a withdrawal under the idempotency key of a request, the request is valid, the
-- store is open and the context lets the call through, the request answers that withdrawal, says that
-- it existed, and leaves the store exactly as it was: nothing is reserved twice.
pub request_withdraw-replayed :
    (l : Ledger) (req : WithdrawRequest) (fee : Money) (ctx : Ctx) (s : Store) (w : Withdrawal)
    → check_request l req ≡ ok fee
    → IsClear ctx s
    → is_empty (withdraw_idem_key l.digest req.tenant_id req.idem_key) ≡ false
    → IsKnown req.tenant_id (withdraw_idem_key l.digest req.tenant_id req.idem_key) w s.data_of
    → request_withdraw l req ctx s ≡ (ok (w, true), s)
unfolding request_withdraw
request_withdraw-replayed l req fee ctx s w valid clear full known =
    rw (valid, request_withdraw)
      (update-Gives ctx (request_tx l req fee) s (w, true) clear
        (request_tx-Gives s.data_of l req fee w full known))
