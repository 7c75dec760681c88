-- ===== src/Engine/Handlers/Refunds.antt =====
-- The transactions of `OnOrderRefunded` and `OnOrderReceived` over the interface Engine/Writes.
use distledger.Base.{Bool, Option, none, some, List, [], ◌∷◌}
use distledger.Base.Text.{Text}
use distledger.Clock.{Time}
use distledger.Commission.{Commission}
use distledger.Engine.Clawback.{Reversal, skipped, step}
use distledger.Engine.Config.{Ledger}
use distledger.Engine.Handlers.{handler_rules, claw_back-Keeps}
use distledger.Engine.Receipt.{receive_one, receive_all, received_tx}
use distledger.Engine.Refund.{
  count_reversal, reverse_one, reverse_all, reverse_item, refund_item, refund_items,
  refund_accruals, refund_order, refunded_tx,
}
use distledger.Engine.Shares.{Shares}
use distledger.Errors.{Err}
use distledger.Engine.Writes.{Writes}
use distledger.Events.{OrderReceivedEvent, OrderRefundedEvent, ReceiveResult, RefundResult}
use distledger.Memory.Tx.Rules.{Kept, Keeps}
use distledger.Money.{Money}

module _ {l : Ledger} {P : Kept} {C : Err → Bool} (w : Writes l P C) where
  receive_one-Keeps :
      (at : Time) (c : Commission) (r : ReceiveResult) → Keeps P C (receive_one at c r)
  unfolding receive_one
  receive_one-Keeps at c r = search handler_rules depth 40

  receive_all-Keeps :
      (at : Time) (cs : List Commission) (r : ReceiveResult) → Keeps P C (receive_all at cs r)
  unfolding receive_all
  receive_all-Keeps at [] r = search handler_rules depth 40
  receive_all-Keeps at (c ∷ cs) r =
      let rest : (r : ReceiveResult) → Keeps P C (receive_all at cs r) =
        λ r. receive_all-Keeps at cs r in
      search (handler_rules, receive_one-Keeps) depth 40

  pub received_tx-Keeps : (ev : OrderReceivedEvent) → Keeps P C (received_tx l ev)
  unfolding received_tx
  received_tx-Keeps ev = search (handler_rules, receive_all-Keeps) depth 40

  count_reversal-Keeps :
      (delta : Money) (r : RefundResult) (o : Option Commission)
      → Keeps P C (count_reversal delta r o)
  unfolding count_reversal
  count_reversal-Keeps delta r none = search handler_rules depth 40
  count_reversal-Keeps delta r (some reversal) = search handler_rules depth 40

  reverse_one-Keeps :
      (c : Commission) (v : Reversal) (at : Time) (r : RefundResult)
      → Keeps P C (reverse_one l c v at r)
  unfolding reverse_one
  reverse_one-Keeps c skipped at r = search handler_rules depth 40
  reverse_one-Keeps c (step delta target) at r =
      search (handler_rules, claw_back-Keeps, count_reversal-Keeps) depth 40

  reverse_all-Keeps :
      (base cumulative : Money) (at : Time) (cs : List Commission) (r : RefundResult)
      → Keeps P C (reverse_all l base cumulative at cs r)
  unfolding reverse_all
  reverse_all-Keeps base cumulative at [] r = search handler_rules depth 40
  reverse_all-Keeps base cumulative at (c ∷ cs) r =
      let rest : (r : RefundResult) → Keeps P C (reverse_all l base cumulative at cs r) =
        λ r. reverse_all-Keeps base cumulative at cs r in
      search (handler_rules, reverse_one-Keeps) depth 40

  reverse_item-Keeps :
      (list : List Commission) (base cumulative : Money) (at : Time) (r : RefundResult)
      → Keeps P C (reverse_item l list base cumulative at r)
  unfolding reverse_item
  reverse_item-Keeps list base cumulative at r = search (handler_rules, reverse_all-Keeps) depth 40

  refund_item-Keeps :
      (ev : OrderRefundedEvent) (id : Text) (list : List Commission) (before share : Money)
      (r : RefundResult)
      → Keeps P C (refund_item l ev id list before share r)
  unfolding refund_item
  refund_item-Keeps ev id list before share r = search (handler_rules, reverse_item-Keeps) depth 40

  refund_items-Keeps :
      (ev : OrderRefundedEvent) (all : List Commission) (before shares : Shares) (ids : List Text)
      (r : RefundResult)
      → Keeps P C (refund_items l ev all before shares ids r)
  unfolding refund_items
  refund_items-Keeps ev all before shares [] r = search handler_rules depth 40
  refund_items-Keeps ev all before shares (id ∷ ids) r =
      let rest : (r : RefundResult) → Keeps P C (refund_items l ev all before shares ids r) =
        λ r. refund_items-Keeps ev all before shares ids r in
      search (handler_rules, refund_item-Keeps) depth 40

  refund_accruals-Keeps :
      (ev : OrderRefundedEvent) (all : List Commission) → Keeps P C (refund_accruals l ev all)
  unfolding refund_accruals
  refund_accruals-Keeps ev all = search (handler_rules, refund_items-Keeps) depth 40

  refund_order-Keeps :
      (ev : OrderRefundedEvent) (all : List Commission) → Keeps P C (refund_order l ev all)
  unfolding refund_order
  refund_order-Keeps ev all = search (handler_rules, refund_accruals-Keeps) depth 40

  pub refunded_tx-Keeps : (ev : OrderRefundedEvent) → Keeps P C (refunded_tx l ev)
  unfolding refunded_tx
  refunded_tx-Keeps ev = search (handler_rules, refund_order-Keeps) depth 40
