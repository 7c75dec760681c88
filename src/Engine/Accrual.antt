-- ===== src/Engine/Accrual.antt =====
-- accrual.go: attribution of a paid order and the commissions of every level of the agent's chain.
pub mod Values
pub mod Cap
pub mod Solvent
pub mod Replay
use Prim.Native.String.{String}
use distledger.Base.{
  ℕ, zero, suc, true, false, not, ◌&&◌, Option, none, some, List, [], ◌∷◌, ◌++◌, if◌then◌else◌,
}
use distledger.Base.Int.{ℤ, pos, pos_part, ◌+ℤ◌, ltb_ℤ, leb_ℤ, ◌==ℤ◌}
use distledger.Base.Text.{Text, text}
use distledger.Account.{AccountDelta, accrue, bucket_frozen, new_ledger_entry}
use distledger.Agent.{Agent, Binding, effective}
use distledger.Clock.{Time, zero_time, is_zero, before}
use distledger.Commission.{Commission, pending}
use distledger.Engine.Clawback.{agent_key}
use distledger.Engine.Config.{Ledger}
use distledger.Errors.{Result, ok, err, is_not_found, is_duplicate, field_error}
use distledger.Events.{
  OrderItem, OrderPaidEvent, paid_order_key, validate_paid, AccrueResult, SkipReason, SkipCode,
  zero_amount, ineligible, no_parent, cap_exhausted, agent_missing,
}
use distledger.Idem.{i64s, accrue_idem_key}
use distledger.Keys.{OrderKey, UserKey}
use distledger.Memory.Reader.{agent, binding, commissions_by_order}
use distledger.Memory.Store.{Ctx, Store, update}
use distledger.Memory.Tx.{Tx, Done, pure, lift, raise_if, recover, if_some, ◌>>=◌, ◌>>◌}
use distledger.Memory.Writer.{increment_account, append_commission, append_ledger}
use distledger.Money
use distledger.Money.{Money, Rate, round_down}
use distledger.Money.Print.{money_text, rate_text}
use distledger.Rules.Snapshot.{describe}
use distledger.Word.{add64, sub64}

-- `accrualBase`
pub record AccrualBase : Type 0 where
  pub item_id : Text
  pub amount : Money

abbrev item_bases : List OrderItem → List AccrualBase
item_bases [] = []
item_bases (it ∷ its) = record { item_id = it.item_id; amount = it.amount } ∷ item_bases its

abbrev bases_or : AccrualBase → List OrderItem → List AccrualBase
bases_or whole [] = whole ∷ []
bases_or whole (it ∷ its) = item_bases (it ∷ its)

-- `basesOf`
abbrev pub bases_of : OrderPaidEvent → List AccrualBase
bases_of ev = bases_or (record { item_id = []; amount = ev.paid_amount }) ev.items

-- `layerOneAgent`
abbrev pub layer_one_agent : List Commission → ℤ
layer_one_agent [] = pos 0
layer_one_agent (c ∷ cs) = if c.layer ==ℤ pos 1 then c.agent_user_id else layer_one_agent cs

abbrev skip : AccrueResult → SkipReason → AccrueResult
skip r reason = record r { skipped = r.skipped ++ (reason ∷ []) }

abbrev reason : ℤ → ℤ → SkipCode → Text → SkipReason
reason layer agent_user_id code detail = record {
  layer = layer;
  agent_user_id = agent_user_id;
  code = code;
  detail = detail;
}

-- The delta of `creditAccrual`, which no guard stands before.
abbrev pub credit_delta : Commission → Time → AccountDelta
credit_delta c now = record {
  key = agent_key c;
  frozen = c.amount;
  available = pos 0;
  withdrawing = pos 0;
  withdrawn = pos 0;
  total_earned = c.amount;
  total_reversed = pos 0;
  at = now;
  require_non_negative = false;
}

-- `creditAccrual`
unfoldable pub credit_accrual : Commission → Time → Tx Done
credit_accrual c now = do
  saved ← increment_account (credit_delta c now)
  append_ledger (
      new_ledger_entry (agent_key c) accrue (i64s c.id)
        (text "order " ++ (c.key.order_id ++ (text " layer " ++ i64s c.layer))) now saved
        bucket_frozen c.amount)
  pure tt

-- The commission of one level.
abbrev pub accrued_commission :
    Ledger → OrderPaidEvent → AccrualBase → ℤ → ℤ → Rate → Money → Commission
accrued_commission l ev base layer agent_user_id rate amount = record {
  id = pos 0;
  key = paid_order_key ev;
  idem_key =
      accrue_idem_key l.digest (paid_order_key ev) base.item_id agent_user_id layer ev.idem_key;
  order_item_id = base.item_id;
  buyer_user_id = ev.buyer_user_id;
  agent_user_id = agent_user_id;
  layer = layer;
  base_amount = base.amount;
  rate = rate;
  amount = amount;
  state = pending;
  freeze_days = l.rules.freeze_days;
  available_at = zero_time;
  rule_version = l.rule_version;
  rule_snapshot = describe l.rules;
  accrued_at = l.now;
  settled_at = zero_time;
  reversed_amount = pos 0;
  reverse_of = pos 0;
  version = pos 0;
}

-- What the loop of `accrueBase` carries from a level to the next: what is allocated, and the result.
abbrev pub Next : Type 0
Next = Money → AccrueResult → Tx AccrueResult

-- A commission that was appended is credited; a duplicate is passed over.
unfoldable pub credit_added :
    Ledger → Money → Money → AccrueResult → Next → Option Commission → Tx AccrueResult
credit_added l amount allocated r up none = up allocated r
credit_added l amount allocated r up (some c) =
    credit_accrual c l.now
    >> up (add64 allocated amount) (record r { commissions = r.commissions ++ (c ∷ []) })

abbrev pub appended_or_none : Commission → Tx (Option Commission)
appended_or_none c =
    recover is_duplicate (append_commission c >>= λ saved. pure (some saved)) (λ e. pure none)

-- The end of a level of `accrueBase`, once its amount is cut to what remains.
unfoldable pub accrue_amount :
    Ledger
    → OrderPaidEvent
    → AccrualBase
    → ℤ
    → ℤ
    → Rate
    → Money
    → Money
    → AccrueResult
    → Next
    → Tx AccrueResult
accrue_amount l ev base layer agent_user_id rate amount allocated r up =
    if leb_ℤ amount (pos 0)
    then up allocated (
        skip r (
          reason layer agent_user_id zero_amount
            (text "rate " ++ (rate_text rate ++ text " yields zero"))))
    else appended_or_none (accrued_commission l ev base layer agent_user_id rate amount)
      >>= credit_added l amount allocated r up

-- The amount of a level, cut to what the cap leaves.
abbrev pub capped : Money → Money → Money
capped amount remaining = if ltb_ℤ remaining amount then remaining else amount

abbrev note_cut : ℤ → ℤ → Money → Money → AccrueResult → AccrueResult
note_cut layer agent_user_id amount remaining r =
    if ltb_ℤ remaining amount
    then skip r (
        reason layer agent_user_id cap_exhausted (
          text "amount "
          ++ (money_text amount ++ (text " truncated to remaining " ++ money_text remaining))))
    else r

-- A level whose agent is there.
unfoldable pub accrue_agent :
    Ledger
    → OrderPaidEvent
    → AccrualBase
    → Money
    → ℤ
    → ℤ
    → Money
    → AccrueResult
    → Next
    → Agent
    → Tx AccrueResult
accrue_agent l ev base cap_amount layer agent_user_id allocated r up a =
    let (eligible, why) =
      l.elig (record { agent = a; order = paid_order_key ev; buyer_user_id = ev.buyer_user_id }) in
    if ltb_ℤ (pos 1) layer && not eligible
    then up allocated (skip r (reason layer agent_user_id ineligible why))
    else (do
      rate ← lift (
          l.rates (record { order = paid_order_key ev; layer = layer; agent = a; rules = l.rules }))
      amount ← lift (Money.apply base.amount rate l.rules.rounding)
      let remaining = sub64 cap_amount allocated
      accrue_amount l ev base layer agent_user_id rate (capped amount remaining) allocated
          (note_cut layer agent_user_id amount remaining r) up)

-- A read that may find nothing.
abbrev pub agent_or_none : UserKey → Tx (Option Agent)
agent_or_none key = recover is_not_found (agent key >>= λ a. pure (some a)) (λ e. pure none)

-- The loop of `accrueBase` over the levels that are left.
unfoldable pub accrue_levels :
    Ledger
    → OrderPaidEvent
    → AccrualBase
    → Money
    → ℕ
    → ℤ
    → ℤ
    → Money
    → AccrueResult
    → Tx AccrueResult
accrue_levels l ev base cap_amount zero layer agent_user_id allocated r = pure r
accrue_levels l ev base cap_amount (suc n) layer agent_user_id allocated r =
    if agent_user_id ==ℤ pos 0
    then pure (skip r (reason layer (pos 0) no_parent (text "relation chain ends here")))
    else (do
      found ← agent_or_none (record { tenant_id = ev.tenant_id; user_id = agent_user_id })
      if_some found
          (λ a.
            accrue_agent l ev base cap_amount layer agent_user_id allocated r
              (λ more r'. accrue_levels l ev base cap_amount n (layer +ℤ pos 1) a.parent_id more r')
              a)
          (pure (
            skip r (
              reason layer agent_user_id agent_missing
                (text "agent referenced by relation chain does not exist")))))

-- `accrueBase`
unfoldable pub accrue_base :
    Ledger → OrderPaidEvent → AccrualBase → ℤ → AccrueResult → Tx AccrueResult
accrue_base l ev base first_agent_id r = do
  cap_amount ← lift (Money.apply base.amount l.rules.max_allocatable_bp round_down)
  accrue_levels l ev base cap_amount (pos_part l.rules.levels) (pos 1) first_agent_id (pos 0) r

-- The loop of `OnOrderPaid` over the bases; with the result it returns their sum.
unfoldable pub accrue_bases :
    Ledger
    → OrderPaidEvent
    → ℤ
    → List AccrualBase
    → Money
    → AccrueResult
    → Tx (Money × AccrueResult)
accrue_bases l ev first_agent_id [] allocated_base r = pure (allocated_base, r)
accrue_bases l ev first_agent_id (base ∷ bases) allocated_base r = do
  next ← lift (Money.add allocated_base base.amount)
  r' ← accrue_base l ev base first_agent_id r
  accrue_bases l ev first_agent_id bases next r'

abbrev empty_result : OrderKey → AccrueResult
empty_result key = record {
  order_key = key;
  attributed = false;
  agent_user_id = pos 0;
  commissions = [];
  replayed = false;
  unallocated_base = pos 0;
  skipped = [];
}

-- The answer to an order that has commissions already.
abbrev replayed_result : OrderKey → List Commission → AccrueResult
replayed_result key existing =
    let r = record (empty_result key) { replayed = true } in
    if layer_one_agent existing ==ℤ pos 0
    then skip r
        (reason (pos 1) (pos 0) agent_missing (text "order has commissions but no level-1 record"))
    else record r { attributed = true; agent_user_id = layer_one_agent existing }

-- `ev.PaidAt`, or the clock.
abbrev paid_time : Ledger → OrderPaidEvent → Time
paid_time l ev = if is_zero ev.paid_at then l.now else ev.paid_at

abbrev with_unallocated : Money → Money × AccrueResult → AccrueResult
with_unallocated paid_amount (allocated, r) =
    if ltb_ℤ allocated paid_amount
    then record r { unallocated_base = sub64 paid_amount allocated }
    else r

-- The first level decides about the whole order.
unfoldable pub accrue_first : Ledger → OrderPaidEvent → AccrueResult → Agent → Tx AccrueResult
accrue_first l ev r first =
    let (eligible, why) =
      l.elig
        (record { agent = first; order = paid_order_key ev; buyer_user_id = ev.buyer_user_id }) in
    if not eligible
    then pure (skip r (reason (pos 1) first.key.user_id ineligible why))
    else accrue_bases l ev first.key.user_id (bases_of ev) (pos 0) r >>= λ p.
        pure (with_unallocated ev.paid_amount p)

abbrev not_bound : OrderPaidEvent → String → AccrueResult
not_bound ev detail =
    skip (empty_result (paid_order_key ev)) (reason (pos 1) (pos 0) no_parent (text detail))

-- A buyer with a binding.
unfoldable pub accrue_bound : Ledger → OrderPaidEvent → Binding → Tx AccrueResult
accrue_bound l ev b =
    if before (paid_time l ev) b.bound_at
    then pure (not_bound ev "binding was created after the order was paid")
    else if not (effective b (paid_time l ev))
    then pure (not_bound ev "binding is not effective at paid time")
    else (do
      let r = record (empty_result (paid_order_key ev)) {
        attributed = true;
        agent_user_id = b.agent_user_id;
      }
      first ← agent_or_none (record { tenant_id = ev.tenant_id; user_id = b.agent_user_id })
      if_some first (accrue_first l ev r) (
          pure (
            skip r (
              reason (pos 1) b.agent_user_id agent_missing
                (text "attributed agent no longer exists")))))

abbrev pub binding_or_none : UserKey → Tx (Option Binding)
binding_or_none key = recover is_not_found (binding key >>= λ b. pure (some b)) (λ e. pure none)

-- What the transaction of `OnOrderPaid` does with the commissions that the order has.
unfoldable pub accrue_order : Ledger → OrderPaidEvent → List Commission → Tx AccrueResult
accrue_order l ev [] = do
  found ← binding_or_none (record { tenant_id = ev.tenant_id; user_id = ev.buyer_user_id })
  if_some found (accrue_bound l ev) (pure (not_bound ev "buyer has no binding"))
accrue_order l ev (c ∷ cs) = do
  raise_if (not (c.buyer_user_id ==ℤ ev.buyer_user_id)) (field_error "buyer_user_id")
  pure (replayed_result (paid_order_key ev) (c ∷ cs))

-- The transaction of `OnOrderPaid`.
unfoldable pub paid_tx : Ledger → OrderPaidEvent → Tx AccrueResult
paid_tx l ev = commissions_by_order (paid_order_key ev) >>= accrue_order l ev

-- `OnOrderPaid`
unfoldable pub on_order_paid : Ledger → OrderPaidEvent → Ctx → Store → Result AccrueResult × Store
on_order_paid l ev ctx s = elim (validate_paid ev) [
  | err e ↦ (err e, s)
  | ok u ↦ update ctx (paid_tx l ev) s
]
