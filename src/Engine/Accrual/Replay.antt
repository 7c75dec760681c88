-- ===== src/Engine/Accrual/Replay.antt =====
-- A redelivered order.
use distledger.Base.{◌+◌, ◌≡◌, Option, none, some, List, ◌∷◌}
use distledger.Commission.{Commission}
use distledger.Engine.Accrual.{accrue_order, paid_tx, on_order_paid}
use distledger.Engine.Atomic.{Tracks-Writes}
use distledger.Engine.Config.{Ledger}
use distledger.Engine.Handlers.Orders.{paid_tx-Keeps}
use distledger.Errors.{Stop}
use distledger.Events.{OrderPaidEvent, paid_order_key, validate_paid}
use distledger.Memory.Data.{Data}
use distledger.Memory.Undo.{or_nil}
use distledger.Memory.Reader.{records, commissions_by_order}
use distledger.Memory.Store.{Ctx, Store, update}
use distledger.Memory.Store.Kept.{IsSame, update_same, checked_same}
use distledger.Memory.Tx.{TxState, gets, check_ctx, continue, alive_result, ◌>>=◌}
use distledger.Memory.Tx.Rules.{Keeps, Post, any_error, keeps_rules}

-- The commissions that an order has in the data.
abbrev pub of_order : Data → OrderPaidEvent → List Commission
of_order d ev = records d.commissions (or_nil (d.by_order (paid_order_key ev)))

module _ (l : Ledger) (ev : OrderPaidEvent) (d0 : Data) (c : Commission)
    (cs : List Commission) where
  accrue_order-IsSame : Keeps (IsSame d0) any_error (accrue_order l ev (c ∷ cs))
  unfolding accrue_order
  accrue_order-IsSame = search keeps_rules depth 20

  listed-IsSame :
      (list : List Commission)
      → list ≡ c ∷ cs
      → Keeps (IsSame d0) any_error (accrue_order l ev list)
  listed-IsSame list e = rw e accrue_order-IsSame

  read-IsSame :
      (o : Option Stop) (s : TxState)
      → of_order d0 ev ≡ c ∷ cs
      → IsSame d0 s.undo s.store
      → Post
          (IsSame d0)
          any_error
          (continue
            (continue (alive_result o) (λ u. gets (λ d. of_order d ev)) s).0
            (accrue_order l ev)
            (continue (alive_result o) (λ u. gets (λ d. of_order d ev)) s).1).0
          (continue
            (continue (alive_result o) (λ u. gets (λ d. of_order d ev)) s).0
            (accrue_order l ev)
            (continue (alive_result o) (λ u. gets (λ d. of_order d ev)) s).1).1
  unfolding gets
  read-IsSame none s e h = (listed-IsSame (of_order s.store ev) (rw h.same e)).at s h
  read-IsSame (some x) s e h = λ c. h

  paid_tx-IsSame : of_order d0 ev ≡ c ∷ cs → Keeps (IsSame d0) any_error (paid_tx l ev)
  unfolding paid_tx commissions_by_order ◌>>=◌ check_ctx gets
  paid_tx-IsSame e = record {
    at = λ s h. read-IsSame (s.ctx s.checks) (record s { checks = s.checks + 1 }) e h;
  }

-- Where the order has commissions in the store, a redelivery of it leaves the data as it was: it
-- accrues nothing a second time, whatever the event says and whenever the context ends.
pub on_order_paid-replayed :
    (l : Ledger) (ev : OrderPaidEvent) (ctx : Ctx) (s : Store) (c : Commission)
    (cs : List Commission)
    → of_order s.data_of ev ≡ c ∷ cs
    → (on_order_paid l ev ctx s).1.data_of ≡ s.data_of
unfolding on_order_paid
on_order_paid-replayed l ev ctx s c cs e =
    checked_same (validate_paid ev) s (update ctx (paid_tx l ev) s) (
      update_same ctx (paid_tx l ev) s (paid_tx-IsSame l ev s.data_of c cs e)
        (paid_tx-Keeps (Tracks-Writes l s.data_of) ev))
