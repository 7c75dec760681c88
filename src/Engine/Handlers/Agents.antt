-- ===== src/Engine/Handlers/Agents.antt =====
-- The transactions of `BindAgent` and `BindBuyer` over the interface Engine/Writes.
use distledger.Base.{Bool, ℕ, zero, suc, List}
use distledger.Base.Int.{ℤ}
use distledger.Agent.{Agent, Binding}
use distledger.Clock.{Time}
use distledger.Engine.Binding.{
  resolve_depth, change_agent, add_agent, bind_agent_tx, rebind, bind_new, bind_buyer_tx,
}
use distledger.Engine.Config.{Ledger}
use distledger.Engine.Handlers.{handler_rules}
use distledger.Errors.{Err}
use distledger.Engine.Writes.{Writes}
use distledger.Events.{BindAgentRequest, BindBuyerRequest}
use distledger.Keys.{UserKey}
use distledger.Memory.Tx.Rules.{Kept, Keeps}

module _ {l : Ledger} {P : Kept} {C : Err → Bool} (w : Writes l P C) where
  resolve_depth-Keeps :
      (n : ℕ) (key : UserKey) (depth : ℤ) (seen : List ℤ) (cur : ℤ)
      → Keeps P C (resolve_depth n key depth seen cur)
  unfolding resolve_depth
  resolve_depth-Keeps zero key depth seen cur = search handler_rules depth 40
  resolve_depth-Keeps (suc n) key depth seen cur =
      let rest : (depth : ℤ) (seen : List ℤ) (cur : ℤ)
          → Keeps P C (resolve_depth n key depth seen cur) =
        λ depth seen cur. resolve_depth-Keeps n key depth seen cur in
      search handler_rules depth 40

  change_agent-Keeps : (req : BindAgentRequest) (cur : Agent) → Keeps P C (change_agent l req cur)
  unfolding change_agent
  change_agent-Keeps req cur = search handler_rules depth 40

  add_agent-Keeps : (req : BindAgentRequest) → Keeps P C (add_agent l req)
  unfolding add_agent
  add_agent-Keeps req = search (handler_rules, resolve_depth-Keeps) depth 40

  pub bind_agent_tx-Keeps : (req : BindAgentRequest) → Keeps P C (bind_agent_tx l req)
  unfolding bind_agent_tx
  bind_agent_tx-Keeps req = search (handler_rules, change_agent-Keeps, add_agent-Keeps) depth 40

  rebind-Keeps :
      (req : BindBuyerRequest) (at : Time) (cur : Binding) → Keeps P C (rebind l req at cur)
  unfolding rebind
  rebind-Keeps req at cur = search handler_rules depth 40

  bind_new-Keeps : (req : BindBuyerRequest) (at : Time) → Keeps P C (bind_new l req at)
  unfolding bind_new
  bind_new-Keeps req at = search handler_rules depth 40

  pub bind_buyer_tx-Keeps :
      (req : BindBuyerRequest) (at : Time) → Keeps P C (bind_buyer_tx l req at)
  unfolding bind_buyer_tx
  bind_buyer_tx-Keeps req at = search (handler_rules, rebind-Keeps, bind_new-Keeps) depth 40
