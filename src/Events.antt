-- ===== src/Events.antt =====
-- event.go: the events and requests that the ledger takes, their validation, and the results that it
-- reports. The field of an error about an item is written without the item's position.
pub mod Validated
use distledger.Base.{
  ℕ, ◌+◌, Bool, true, false, not, ◌||◌, Option, List, [], ◌∷◌, length, ltb, eqb, if◌then◌else◌,
}
use distledger.Base.Int.{ℤ, pos, ltb_ℤ, leb_ℤ, ◌==ℤ◌}
use distledger.Base.Text.{Text, text_eqb}
use distledger.Agent.{JoinType, AgentStatus, BindSource}
use distledger.Clock.{Time, is_zero}
use distledger.Commission.{Commission}
use distledger.Errors.{Result, ok, field_error, fail_if, ◌>>=◌, ◌>>◌}
use distledger.Idem.{validate_idem_key_override}
use distledger.Keys.{OrderKey, is_empty, validate_order_key, max_order_item_id_len}
use distledger.Money.{Money, Rate, add}

pub record OrderItem : Type 0 where
  pub item_id : Text
  pub amount : Money

pub record OrderPaidEvent : Type 0 where
  pub tenant_id : ℤ
  pub order_id : Text
  pub buyer_user_id : ℤ
  pub paid_amount : Money
  pub items : List OrderItem
  pub paid_at : Time
  pub idem_key : Text

pub record OrderReceivedEvent : Type 0 where
  pub tenant_id : ℤ
  pub order_id : Text
  pub received_at : Time

pub record RefundItem : Type 0 where
  pub item_id : Text
  pub amount : Money

pub record OrderRefundedEvent : Type 0 where
  pub tenant_id : ℤ
  pub order_id : Text
  pub is_full : Bool
  pub items : List RefundItem
  pub amount : Money
  pub refunded_at : Time
  pub idem_key : Text

abbrev pub max_order_items : ℕ
max_order_items = 200

-- `_, dup := seen[id]`
abbrev pub has_text : Text → List Text → Bool
has_text t [] = false
has_text t (u ∷ us) = text_eqb t u || has_text t us

abbrev pub is_nil : {A : Type 0} → List A → Bool
is_nil [] = true
is_nil (x ∷ xs) = false

-- The loop of `OrderPaidEvent.validate` over the items: the checked sum of their amounts.
unfoldable pub validate_items : List OrderItem → List Text → Money → Result Money
validate_items [] seen sum = ok sum
validate_items (it ∷ its) seen sum = do
  fail_if (is_empty it.item_id) (field_error "items.item_id")
  fail_if (ltb max_order_item_id_len (length it.item_id)) (field_error "items.item_id")
  fail_if (leb_ℤ it.amount (pos 0)) (field_error "items.amount")
  fail_if (has_text it.item_id seen) (field_error "items.item_id")
  next ← add sum it.amount
  validate_items its (it.item_id ∷ seen) next

abbrev pub paid_order_key : OrderPaidEvent → OrderKey
paid_order_key ev = record { tenant_id = ev.tenant_id; order_id = ev.order_id }

-- `OrderPaidEvent.validate`
unfoldable pub validate_paid : OrderPaidEvent → Result (Unit {0})
unfolding validate_items
validate_paid ev = do
  validate_order_key (paid_order_key ev)
  if is_empty ev.idem_key then ok tt else validate_idem_key_override ev.idem_key
  fail_if (leb_ℤ ev.buyer_user_id (pos 0)) (field_error "buyer_user_id")
  fail_if (ltb_ℤ ev.paid_amount (pos 0)) (field_error "paid_amount")
  fail_if (ev.paid_amount ==ℤ pos 0) (field_error "paid_amount")
  fail_if (is_zero ev.paid_at) (field_error "paid_at")
  fail_if (ltb max_order_items (length ev.items)) (field_error "items")
  sum ← validate_items ev.items [] (pos 0)
  fail_if (ltb_ℤ ev.paid_amount sum) (field_error "items")

abbrev pub received_order_key : OrderReceivedEvent → OrderKey
received_order_key ev = record { tenant_id = ev.tenant_id; order_id = ev.order_id }

-- `OrderReceivedEvent.validate`
unfoldable pub validate_received : OrderReceivedEvent → Result (Unit {0})
validate_received ev = validate_order_key (received_order_key ev)

abbrev pub refunded_order_key : OrderRefundedEvent → OrderKey
refunded_order_key ev = record { tenant_id = ev.tenant_id; order_id = ev.order_id }

abbrev one_if : Bool → ℕ
one_if b = if b then 1 else 0

-- How many of the three ways to describe a refund are used.
abbrev pub refund_modes : OrderRefundedEvent → ℕ
refund_modes ev =
    one_if ev.is_full + (one_if (not (is_nil ev.items)) + one_if (ltb_ℤ (pos 0) ev.amount))

-- The loop of `OrderRefundedEvent.validate` over the items.
validate_refund_items : List RefundItem → List Text → Result (Unit {0})
validate_refund_items [] seen = ok tt
validate_refund_items (it ∷ its) seen = do
  fail_if (ltb max_order_item_id_len (length it.item_id)) (field_error "items.item_id")
  fail_if (leb_ℤ it.amount (pos 0)) (field_error "items.amount")
  fail_if (has_text it.item_id seen) (field_error "items.item_id")
  validate_refund_items its (it.item_id ∷ seen)

-- `OrderRefundedEvent.validate`
unfoldable pub validate_refunded : OrderRefundedEvent → Result (Unit {0})
unfolding validate_refund_items
validate_refunded ev = do
  validate_order_key (refunded_order_key ev)
  fail_if (is_zero ev.refunded_at) (field_error "refunded_at")
  fail_if (is_empty ev.idem_key) (field_error "idem_key")
  validate_idem_key_override ev.idem_key
  fail_if (eqb (refund_modes ev) 0) (field_error "is_full")
  fail_if (ltb 1 (refund_modes ev)) (field_error "is_full")
  fail_if (ltb_ℤ ev.amount (pos 0)) (field_error "amount")
  validate_refund_items ev.items []

pub data SkipCode : Type 0 where
  zero_amount ineligible no_parent cap_exhausted agent_missing fully_reversed : SkipCode

pub record SkipReason : Type 0 where
  pub layer : ℤ
  pub agent_user_id : ℤ
  pub code : SkipCode
  pub detail : Text

pub record AccrueResult : Type 0 where
  pub order_key : OrderKey
  pub attributed : Bool
  pub agent_user_id : ℤ
  pub commissions : List Commission
  pub replayed : Bool
  pub unallocated_base : Money
  pub skipped : List SkipReason

-- The loop of `AccrueResult.AccruedAmount`.
total_amount : Money → List Commission → Result Money
total_amount sum [] = ok sum
total_amount sum (c ∷ cs) = add sum c.amount >>= λ next. total_amount next cs

-- `AccrueResult.AccruedAmount`
unfoldable pub accrued_amount : AccrueResult → Result Money
unfolding total_amount
accrued_amount r = total_amount (pos 0) r.commissions

pub record ReceiveResult : Type 0 where
  pub order_key : OrderKey
  pub updated : ℕ

pub record RefundResult : Type 0 where
  pub order_key : OrderKey
  pub reversed : List Commission
  pub reversed_amount : Money
  pub already_reversed : Bool
  pub skipped : List SkipReason

pub record BindAgentRequest : Type 0 where
  pub tenant_id : ℤ
  pub user_id : ℤ
  pub parent_id : ℤ
  pub join_type : JoinType
  pub status : AgentStatus
  pub rate_override_bp : Option Rate

pub record BindBuyerRequest : Type 0 where
  pub tenant_id : ℤ
  pub buyer_user_id : ℤ
  pub agent_user_id : ℤ
  pub source : BindSource
  pub source_ref : Text
  pub bound_at : Time
