-- ===== src/Engine/Refund.antt =====
-- reversal.go: a refunded order, shared out over its accrual items, and the clawback of every level.
use distledger.Base.{true, false, ◌||◌, Option, none, some, List, [], ◌∷◌, ◌++◌, if◌then◌else◌}
use distledger.Base.Int.{pos, ltb_ℤ, leb_ℤ}
use distledger.Base.Text.{Text, text}
use distledger.Clock.{Time}
use distledger.Commission.{Commission, Refund, reversed, state_text}
use distledger.Engine.Clawback.{Reversal, skipped, step, reversal_delta, claw_back, reason_refund}
use distledger.Engine.Config.{Ledger}
use distledger.Errors.{Result, ok, err, is_duplicate}
use distledger.Events.{
  OrderRefundedEvent, refunded_order_key, validate_refunded, is_nil, RefundResult, SkipReason,
  no_parent, fully_reversed,
}
use distledger.Idem.{refund_idem_key}
use distledger.Keys.{OrderKey}
use distledger.Memory.Reader.{commissions_by_order, refunds_by_order}
use distledger.Memory.Store.{Ctx, Store, update}
use distledger.Memory.Tx.{Tx, pure, lift, recover, if_some, ◌>>=◌}
use distledger.Memory.Writer.{append_refund}
use distledger.Money.{Money}
use distledger.Word.{add64}
use distledger.Engine.Shares.{
  Shares, no_shares, accruals, group, sorted_item_ids, base_of, refund_shares, largest_refunds,
  with_reversal,
}

abbrev insert_layer : Commission → List Commission → List Commission
insert_layer c [] = c ∷ []
insert_layer c (d ∷ ds) = if ltb_ℤ d.layer c.layer then d ∷ insert_layer c ds else c ∷ d ∷ ds

-- The commissions of an item in the order of their levels.
abbrev by_layer : List Commission → List Commission
by_layer [] = []
by_layer (c ∷ cs) = insert_layer c (by_layer cs)

abbrev skip : RefundResult → SkipReason → RefundResult
skip r why = record r { skipped = r.skipped ++ (why ∷ []) }

abbrev skip_reason : Commission → SkipReason
skip_reason c = record {
  layer = c.layer;
  agent_user_id = c.agent_user_id;
  code = fully_reversed;
  detail = text "commission state is " ++ state_text c.state;
}

-- A clawback that a racing call has not made before.
abbrev claw_back_or_none : Ledger → Commission → Money → Money → Time → Tx (Option Commission)
claw_back_or_none l c delta target at =
    recover is_duplicate
      (claw_back l c delta target reversed reason_refund at >>= λ reversal. pure (some reversal))
      (λ e. pure none)

unfoldable pub count_reversal : Money → RefundResult → Option Commission → Tx RefundResult
count_reversal delta r none = pure r
count_reversal delta r (some reversal) = lift (with_reversal delta reversal r)

-- One commission of `reverseItem`.
unfoldable pub reverse_one : Ledger → Commission → Reversal → Time → RefundResult → Tx RefundResult
reverse_one l c skipped at r = pure (skip r (skip_reason c))
reverse_one l c (step delta target) at r =
    if leb_ℤ delta (pos 0)
    then pure r
    else claw_back_or_none l c delta target at >>= count_reversal delta r

-- The loop of `reverseItem`.
unfoldable pub reverse_all :
    Ledger → Money → Money → Time → List Commission → RefundResult → Tx RefundResult
reverse_all l base cumulative at [] r = pure r
reverse_all l base cumulative at (c ∷ cs) r =
    reverse_one l c (reversal_delta c cumulative base reversed) at r
    >>= reverse_all l base cumulative at cs

-- `reverseItem`
unfoldable pub reverse_item :
    Ledger → List Commission → Money → Money → Time → RefundResult → Tx RefundResult
reverse_item l list base cumulative at r =
    if leb_ℤ base (pos 0) || leb_ℤ cumulative (pos 0)
    then pure r
    else reverse_all l base cumulative at (by_layer list) r

-- The voucher of an item, unless this instalment has one already.
abbrev voucher_or_none : Refund → Tx (Option Refund)
voucher_or_none v =
    recover is_duplicate (append_refund v >>= λ saved. pure (some saved)) (λ e. pure none)

abbrev repeated : OrderRefundedEvent → SkipReason
repeated ev = record {
  layer = pos 1;
  agent_user_id = pos 0;
  code = fully_reversed;
  detail = text "refund instalment " ++ (ev.idem_key ++ text " was already applied");
}

-- `cumulative[id] + shares[id]`, at most the base.
abbrev pub refund_target : Money → Money → Money → Money
refund_target before share base =
    if ltb_ℤ base (add64 before share) then base else add64 before share

abbrev voucher : Ledger → OrderRefundedEvent → Text → Money → Money → Refund
voucher l ev id share target = record {
  id = pos 0;
  key = refunded_order_key ev;
  item_id = id;
  amount = share;
  cumulative = target;
  idem_key = refund_idem_key l.digest (refunded_order_key ev) id ev.idem_key;
  refunded_at = ev.refunded_at;
}

-- One item of the loop of `OnOrderRefunded`: its group, what was refunded before, and its share.
unfoldable pub refund_item :
    Ledger
    → OrderRefundedEvent
    → Text
    → List Commission
    → Money
    → Money
    → RefundResult
    → Tx RefundResult
refund_item l ev id list before share r =
    let base = base_of list in
    let target = refund_target before share base in
    if leb_ℤ target before then pure r else (do
      added ← voucher_or_none (voucher l ev id share target)
      if_some added (λ v. reverse_item l list base target ev.refunded_at r)
          (pure (skip r (repeated ev))))

-- The loop of `OnOrderRefunded` over the items.
unfoldable pub refund_items :
    Ledger
    → OrderRefundedEvent
    → List Commission
    → Shares
    → Shares
    → List Text
    → RefundResult
    → Tx RefundResult
refund_items l ev all before shares [] r = pure r
refund_items l ev all before shares (id ∷ ids) r =
    refund_item l ev id (group id all) (before id) (shares id) r
    >>= refund_items l ev all before shares ids

abbrev empty_result : OrderKey → RefundResult
empty_result key = record {
  order_key = key;
  reversed = [];
  reversed_amount = pos 0;
  already_reversed = false;
  skipped = [];
}

-- An order with nothing to reverse.
abbrev nothing_to_reverse : OrderRefundedEvent → SkipReason → RefundResult
nothing_to_reverse ev why = record (skip (empty_result (refunded_order_key ev)) why) {
  already_reversed = true;
}

abbrev no_commissions : SkipReason
no_commissions = record {
  layer = pos 0;
  agent_user_id = pos 0;
  code = no_parent;
  detail = text "order has no commissions yet";
}

abbrev no_accruals : SkipReason
no_accruals = record {
  layer = pos 0;
  agent_user_id = pos 0;
  code = fully_reversed;
  detail = text "order has no accrual records";
}

-- An order that has accruals.
unfoldable pub refund_accruals : Ledger → OrderRefundedEvent → List Commission → Tx RefundResult
refund_accruals l ev all = do
  refunds ← refunds_by_order (refunded_order_key ev)
  shares ← lift (refund_shares ev all)
  r ←
      refund_items l ev all (largest_refunds refunds no_shares) shares (sorted_item_ids all)
        (empty_result (refunded_order_key ev))
  pure (record r { already_reversed = is_nil r.reversed })

-- What the transaction of `OnOrderRefunded` does with the commissions of the order.
unfoldable pub refund_order : Ledger → OrderRefundedEvent → List Commission → Tx RefundResult
refund_order l ev all =
    if is_nil all
    then pure (nothing_to_reverse ev no_commissions)
    else if is_nil (accruals all)
    then pure (nothing_to_reverse ev no_accruals)
    else refund_accruals l ev (accruals all)

-- The transaction of `OnOrderRefunded`.
unfoldable pub refunded_tx : Ledger → OrderRefundedEvent → Tx RefundResult
refunded_tx l ev = commissions_by_order (refunded_order_key ev) >>= refund_order l ev

-- `OnOrderRefunded`
unfoldable pub on_order_refunded :
    Ledger → OrderRefundedEvent → Ctx → Store → Result RefundResult × Store
on_order_refunded l ev ctx s = elim (validate_refunded ev) [
  | err e ↦ (err e, s)
  | ok u ↦ update ctx (refunded_tx l ev) s
]
