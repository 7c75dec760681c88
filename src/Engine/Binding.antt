-- ===== src/Engine/Binding.antt =====
-- ledger.go: the relation chain (`BindAgent`, `resolveDepth`, `BindBuyer`) and the queries.
pub mod Depth
pub mod Locked
pub mod Untouched
use distledger.Base.{
  ℕ, zero, suc, Bool, true, false, not, ◌||◌, Option, none, some, List, [], ◌∷◌, if◌then◌else◌,
}
use distledger.Base.Int.{ℤ, pos, ◌+ℤ◌, ltb_ℤ, leb_ℤ, ◌==ℤ◌}
use distledger.Account.{Account}
use distledger.Agent.{Agent, Binding, effective, is_active}
use distledger.Clock.{Time, zero_time, is_zero, add_days}
use distledger.Commission.{Commission}
use distledger.Engine.Accrual.{agent_or_none, binding_or_none}
use distledger.Engine.Checks.{agent_request_key, check_agent, buyer_key, check_buyer}
use distledger.Engine.Config.{Ledger}
use distledger.Errors.{
  Result, ok, err, field_error, cycle, depth_exceeded, parent_already_set, is_not_found,
  binding_locked,
}
use distledger.Events.{BindAgentRequest, BindBuyerRequest}
use distledger.Keys.{UserKey, OrderKey, validate_user_key, validate_order_key}
use distledger.Memory.Reader.{agent, account, commissions_by_order}
use distledger.Memory.Store.{Ctx, Store, update, view}
use distledger.Memory.Tx.{Tx, pure, raise, raise_if, recover, if_some, ◌>>=◌, ◌>>◌}
use distledger.Memory.Writer.{put_agent, put_binding}
use distledger.Rules.Limits.{max_levels}

abbrev is_seen : ℤ → List ℤ → Bool
is_seen id [] = false
is_seen id (x ∷ xs) = (id ==ℤ x) || is_seen id xs

-- `resolveDepth`, of which `n` rounds are left: the depth grows in every round, and at `MaxLevels` the
-- next one fails.
unfoldable pub resolve_depth : ℕ → UserKey → ℤ → List ℤ → ℤ → Tx ℤ
resolve_depth zero key depth seen cur = if cur ==ℤ pos 0 then pure depth else raise depth_exceeded
resolve_depth (suc n) key depth seen cur =
    if cur ==ℤ pos 0
    then pure depth
    else if cur ==ℤ key.user_id
    then raise cycle
    else if is_seen cur seen
    then raise cycle
    else if ltb_ℤ max_levels (depth +ℤ pos 1)
    then raise depth_exceeded
    else (do
      parent ←
          recover is_not_found (agent (record { tenant_id = key.tenant_id; user_id = cur }))
            (λ e. raise (field_error "parent_id"))
      resolve_depth n key (depth +ℤ pos 1) (cur ∷ seen) parent.parent_id)

abbrev new_agent : Ledger → BindAgentRequest → ℤ → Agent
new_agent l req depth = record {
  key = agent_request_key req;
  parent_id = req.parent_id;
  depth = depth;
  status = req.status;
  join_type = req.join_type;
  rate_override_bp = req.rate_override_bp;
  created_at = l.now;
  updated_at = l.now;
  version = pos 0;
}

-- An agent that exists keeps its parent.
unfoldable pub change_agent : Ledger → BindAgentRequest → Agent → Tx Agent
change_agent l req cur = do
  raise_if (not (cur.parent_id ==ℤ req.parent_id)) parent_already_set
  put_agent (record cur {
    status = req.status;
    join_type = req.join_type;
    rate_override_bp = req.rate_override_bp;
    updated_at = l.now;
  })

-- The rounds that `resolve_depth` may take.
abbrev depth_rounds : ℕ
depth_rounds = 4

unfoldable pub add_agent : Ledger → BindAgentRequest → Tx Agent
add_agent l req =
    resolve_depth depth_rounds (agent_request_key req) (pos 1) [] req.parent_id >>= λ depth.
    put_agent (new_agent l req depth)

-- The transaction of `BindAgent`.
unfoldable pub bind_agent_tx : Ledger → BindAgentRequest → Tx Agent
bind_agent_tx l req = agent_or_none (agent_request_key req) >>= λ found.
    if_some found (change_agent l req) (add_agent l req)

-- `BindAgent`
unfoldable pub bind_agent : Ledger → BindAgentRequest → Ctx → Store → Result Agent × Store
bind_agent l req ctx s = elim (check_agent req) [
  | err e ↦ (err e, s)
  | ok u ↦ update ctx (bind_agent_tx l req) s
]

-- `expiryFor`
unfoldable pub expiry_for : Ledger → Time → Time
expiry_for l bound_at =
    if leb_ℤ l.rules.bind_expire_days (pos 0)
    then zero_time
    else add_days bound_at l.rules.bind_expire_days

abbrev bound_time : Ledger → BindBuyerRequest → Time
bound_time l req = if is_zero req.bound_at then l.now else req.bound_at

abbrev new_binding : Ledger → BindBuyerRequest → Time → Binding
new_binding l req at = record {
  id = pos 0;
  buyer = buyer_key req;
  agent_user_id = req.agent_user_id;
  source = req.source;
  source_ref = req.source_ref;
  bound_at = at;
  expire_at = expiry_for l at;
  active = true;
  rebound_from = pos 0;
  version = pos 0;
}

-- An expired binding with its new agent.
abbrev rebound : Ledger → BindBuyerRequest → Time → Binding → Binding
rebound l req at cur = record cur {
  agent_user_id = req.agent_user_id;
  source = req.source;
  source_ref = req.source_ref;
  bound_at = at;
  expire_at = expiry_for l at;
  active = true;
  rebound_from = cur.id;
}

-- A buyer with a binding: the Boolean says that it is locked to another agent.
unfoldable pub rebind : Ledger → BindBuyerRequest → Time → Binding → Tx (Binding × Bool)
rebind l req at cur =
    if effective cur at
    then pure (cur, not (cur.agent_user_id ==ℤ req.agent_user_id))
    else put_binding (rebound l req at cur) >>= λ b. pure (b, false)

unfoldable pub bind_new : Ledger → BindBuyerRequest → Time → Tx (Binding × Bool)
bind_new l req at = put_binding (new_binding l req at) >>= λ b. pure (b, false)

-- The transaction of `BindBuyer`.
unfoldable pub bind_buyer_tx : Ledger → BindBuyerRequest → Time → Tx (Binding × Bool)
bind_buyer_tx l req at = do
  a ←
      recover is_not_found
        (agent (record { tenant_id = req.tenant_id; user_id = req.agent_user_id }))
        (λ e. raise (field_error "agent_user_id"))
  raise_if (not (is_active a.status)) (field_error "agent_user_id")
  raise_if (req.agent_user_id ==ℤ req.buyer_user_id) (field_error "agent_user_id")
  found ← binding_or_none (buyer_key req)
  if_some found (rebind l req at) (bind_new l req at)

-- The checks and the transaction of `BindBuyer`, up to its commit.
unfoldable pub bind_or_find :
    Ledger → BindBuyerRequest → Ctx → Store → Result (Binding × Bool) × Store
bind_or_find l req ctx s = elim (check_buyer req) [
  | err e ↦ (err e, s)
  | ok u ↦ update ctx (bind_buyer_tx l req (bound_time l req)) s
]

abbrev pub unless_locked : Result (Binding × Bool) × Store → Result Binding × Store
unless_locked (ok (b, true), s) = (err binding_locked, s)
unless_locked (ok (b, false), s) = (ok b, s)
unless_locked (err e, s) = (err e, s)

-- `BindBuyer`. A binding to another agent is an error, behind the commit.
unfoldable pub bind_buyer : Ledger → BindBuyerRequest → Ctx → Store → Result Binding × Store
bind_buyer l req ctx s = unless_locked (bind_or_find l req ctx s)

abbrev binding_found : Result (Binding × Bool) → Option Binding
binding_found (ok (b, locked)) = some b
binding_found (err e) = none

-- The first value that `BindBuyer` returns, which `ErrBindingLocked` comes with as well.
unfoldable pub returned_binding : Ledger → BindBuyerRequest → Ctx → Store → Option Binding
returned_binding l req ctx s = binding_found (bind_or_find l req ctx s).0

-- `Balance`
unfoldable pub balance : ℤ → ℤ → Ctx → Store → Result Account × Store
balance tenant_id user_id ctx s =
    let key : UserKey = record { tenant_id = tenant_id; user_id = user_id } in
    elim (validate_user_key key) [ err e ↦ (err e, s) | ok u ↦ view ctx (account key) s ]

-- `Ledger.Agent`
unfoldable pub agent_of : ℤ → ℤ → Ctx → Store → Result Agent × Store
agent_of tenant_id user_id ctx s =
    let key : UserKey = record { tenant_id = tenant_id; user_id = user_id } in
    elim (validate_user_key key) [ err e ↦ (err e, s) | ok u ↦ view ctx (agent key) s ]

-- `Ledger.CommissionsByOrder`
unfoldable pub commissions_of_order : OrderKey → Ctx → Store → Result (List Commission) × Store
commissions_of_order key ctx s = elim (validate_order_key key) [
  | err e ↦ (err e, s)
  | ok u ↦ view ctx (commissions_by_order key) s
]
