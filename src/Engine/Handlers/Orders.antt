-- ===== src/Engine/Handlers/Orders.antt =====
-- The transaction of `OnOrderPaid` over the interface Engine/Writes.
use distledger.Base.{Bool, ◌≡◌, true, ℕ, zero, suc, Option, none, some, List, [], ◌∷◌, arith}
use distledger.Base.Int.{ℤ, pos, ltb_ℤ, leb_ℤ}
use distledger.Agent.{Agent, Binding}
use distledger.Commission.{Commission}
use distledger.Engine.Accrual.{
  AccrualBase, Next, credit_added, appended_or_none, accrue_amount, accrued_commission,
  accrue_agent, accrue_levels, accrue_base, accrue_bases, accrue_first, accrue_bound, accrue_order,
  paid_tx,
}
use distledger.Engine.Accrual.Values.{OfAmount, appended_or_none-amount}
use distledger.Engine.Config.{Ledger}
use distledger.Engine.Handlers.{handler_rules, Keeps-credit_accrual}
use distledger.Errors.{Err}
use distledger.Engine.Writes.{Writes}
use distledger.Events.{OrderPaidEvent, AccrueResult}
use distledger.Memory.Tx.Rules.{Kept, Keeps, Keeps-if, Keeps-bind}
use distledger.Memory.Tx.Values.{Keeps-then}
use distledger.Money.{Money, Rate}

module _ {l : Ledger} {P : Kept} {C : Err → Bool} (w : Writes l P C) where
  -- The rest of the levels.
  abbrev KeepsNext : Next → Type 0
  KeepsNext up = (allocated : Money) (r : AccrueResult) → Keeps P C (up allocated r)

  credit_added-Keeps :
      (amount allocated : Money) (r : AccrueResult) (up : Next) (o : Option Commission)
      → KeepsNext up
      → ltb_ℤ (pos 0) amount ≡ true
      → OfAmount amount o
      → Keeps P C (credit_added l amount allocated r up o)
  unfolding credit_added
  credit_added-Keeps amount allocated r up none k positive h = k allocated r
  credit_added-Keeps amount allocated r up (some c) k positive h =
      Keeps-bind _ _ (Keeps-credit_accrual w c l.now (rw h positive)) (λ u. k _ _)

  appended_or_none-Keeps : (c : Commission) → Keeps P C (appended_or_none c)
  appended_or_none-Keeps c = search handler_rules depth 40

  accrue_amount-Keeps :
      (ev : OrderPaidEvent) (base : AccrualBase) (layer agent_user_id : ℤ) (rate : Rate)
      (amount allocated : Money) (r : AccrueResult) (up : Next)
      → KeepsNext up
      → Keeps P C (accrue_amount l ev base layer agent_user_id rate amount allocated r up)
  unfolding accrue_amount
  accrue_amount-Keeps ev base layer agent_user_id rate amount allocated r up k =
      Keeps-if (leb_ℤ amount (pos 0)) _ _ (λ p. k _ _)
        (λ p.
          Keeps-then (OfAmount amount) _ _ (appended_or_none-Keeps _)
            (appended_or_none-amount (accrued_commission l ev base layer agent_user_id rate amount))
            (λ o h. credit_added-Keeps amount allocated r up o k (ground arith) h))

  accrue_agent-Keeps :
      (ev : OrderPaidEvent) (base : AccrualBase) (cap_amount : Money) (layer agent_user_id : ℤ)
      (allocated : Money) (r : AccrueResult) (up : Next) (a : Agent)
      → KeepsNext up
      → Keeps P C (accrue_agent l ev base cap_amount layer agent_user_id allocated r up a)
  unfolding accrue_agent
  accrue_agent-Keeps ev base cap_amount layer agent_user_id allocated r up a k =
      search (handler_rules, accrue_amount-Keeps, k) depth 40

  accrue_levels-Keeps :
      (ev : OrderPaidEvent) (base : AccrualBase) (cap_amount : Money) (n : ℕ)
      (layer agent_user_id : ℤ) (allocated : Money) (r : AccrueResult)
      → Keeps P C (accrue_levels l ev base cap_amount n layer agent_user_id allocated r)
  unfolding accrue_levels
  accrue_levels-Keeps ev base cap_amount zero layer agent_user_id allocated r =
      search handler_rules depth 40
  accrue_levels-Keeps ev base cap_amount (suc n) layer agent_user_id allocated r =
      let rest : (layer agent_user_id : ℤ)
          → KeepsNext (λ more r. accrue_levels l ev base cap_amount n layer agent_user_id more r) =
        λ layer agent_user_id more r.
          accrue_levels-Keeps ev base cap_amount n layer agent_user_id more r in
      search (handler_rules, accrue_agent-Keeps) depth 40

  accrue_base-Keeps :
      (ev : OrderPaidEvent) (base : AccrualBase) (first : ℤ) (r : AccrueResult)
      → Keeps P C (accrue_base l ev base first r)
  unfolding accrue_base
  accrue_base-Keeps ev base first r = search (handler_rules, accrue_levels-Keeps) depth 40

  accrue_bases-Keeps :
      (ev : OrderPaidEvent) (first : ℤ) (bases : List AccrualBase) (sum : Money) (r : AccrueResult)
      → Keeps P C (accrue_bases l ev first bases sum r)
  unfolding accrue_bases
  accrue_bases-Keeps ev first [] sum r = search handler_rules depth 40
  accrue_bases-Keeps ev first (base ∷ bases) sum r =
      let rest : (sum : Money) (r : AccrueResult)
          → Keeps P C (accrue_bases l ev first bases sum r) =
        λ sum r. accrue_bases-Keeps ev first bases sum r in
      search (handler_rules, accrue_base-Keeps) depth 40

  accrue_first-Keeps :
      (ev : OrderPaidEvent) (r : AccrueResult) (first : Agent)
      → Keeps P C (accrue_first l ev r first)
  unfolding accrue_first
  accrue_first-Keeps ev r first = search (handler_rules, accrue_bases-Keeps) depth 40

  accrue_bound-Keeps : (ev : OrderPaidEvent) (b : Binding) → Keeps P C (accrue_bound l ev b)
  unfolding accrue_bound
  accrue_bound-Keeps ev b = search (handler_rules, accrue_first-Keeps) depth 40

  accrue_order-Keeps :
      (ev : OrderPaidEvent) (existing : List Commission) → Keeps P C (accrue_order l ev existing)
  unfolding accrue_order
  accrue_order-Keeps ev [] = search (handler_rules, accrue_bound-Keeps) depth 40
  accrue_order-Keeps ev (c ∷ cs) = search handler_rules depth 40

  pub paid_tx-Keeps : (ev : OrderPaidEvent) → Keeps P C (paid_tx l ev)
  unfolding paid_tx
  paid_tx-Keeps ev = search (handler_rules, accrue_order-Keeps) depth 40
