-- ===== src/Engine/Accrual/Cap.antt =====
-- The cap on what the levels of an accrual take together.
use distledger.Base.{
  ℕ, zero, suc, ◌+◌, ◌-◌, ◌^◌, ◌≤◌, ◌<◌, ◌≡◌, refl, ap, true, not, ◌&&◌, Option, none, some, List,
  [], ◌∷◌, ◌++◌, arith,
}
use distledger.Base.Int.{
  ℤ, pos, negsuc, pos_part, neg_part, ltb_ℤ, leb_ℤ, ◌+ℤ◌, ◌-ℤ◌, ◌==ℤ◌, eq_of_parts,
}
use distledger.Agent.{Agent}
use distledger.Commission.{Commission}
use distledger.Engine.Accrual.{
  AccrualBase, Next, credit_added, accrue_amount, accrued_commission, accrue_agent, capped,
  note_cut, accrue_levels, skip, reason, agent_or_none,
}
use distledger.Engine.Accrual.Values.{OfAmount, appended_or_none-amount}
use distledger.Engine.Config.{Ledger}
use distledger.Errors.{ok}
use distledger.Events.{OrderPaidEvent, AccrueResult, SkipReason, paid_order_key, ineligible}
use distledger.Memory.Tx.{pure}
use distledger.Memory.Tx.Values.{
  Returns, Returns-pure, Returns-if, Returns-bind, Returns-then, Returns-weaken, Returns-if_some,
}
use distledger.Money
use distledger.Money.{Money, Rate, round_down}
use distledger.Money.Exact.{apply_exact}
use distledger.Word.{add64, sub64, wrap64}
use native.Mathlib.Nat.{mul-le-mul_left}

-- The sum of the amounts, of which none is negative in an accrual.
abbrev pub total : List Commission → ℕ
total [] = 0
total (c ∷ cs) = pos_part c.amount + total cs

total-append :
    (cs : List Commission) (c : Commission) → total (cs ++ (c ∷ [])) ≡ total cs + pos_part c.amount
total-append [] c = omega arith
total-append (d ∷ cs) c = omega (arith, total-append cs c)

add64_small : (a m : ℕ) → a + m < 2 ^ 63 → add64 (pos a) (pos m) ≡ pos (a + m)
unfolding wrap64 ◌+ℤ◌
add64_small a m h = ground arith

sub64_small : (a c : ℕ) → a ≤ c → c < 2 ^ 63 → sub64 (pos c) (pos a) ≡ pos (c - a)
unfolding wrap64 ◌-ℤ◌
sub64_small a c h small = ground arith

note_cut_same :
    (layer agent_user_id : ℤ) (amount remaining : Money) (r : AccrueResult)
    → (note_cut layer agent_user_id amount remaining r).commissions ≡ r.commissions
note_cut_same layer agent_user_id amount remaining r = ground arith

negative_leb : (n : ℕ) → leb_ℤ (negsuc n) (pos 0) ≡ true
negative_leb n = ground arith

capped_at_most : (amount : Money) (m : ℕ) → pos_part (capped amount (pos m)) ≤ m
capped_at_most amount m = ground arith

module _ (l : Ledger) (ev : OrderPaidEvent) (base : AccrualBase) (cap : ℕ)
    (small : cap < 2 ^ 63) where
  -- With `a` allocated before: what was added is at most what the cap leaves.
  abbrev WithinCap : ℕ → AccrueResult → AccrueResult → Type 0
  WithinCap a r r' = total r'.commissions + a ≤ total r.commissions + cap

  abbrev CapsNext : Next → Type 0
  CapsNext up = (a : ℕ) (r : AccrueResult) → a ≤ cap → Returns (WithinCap a r) (up (pos a) r)

  credit_added-WithinCap :
      (m a : ℕ) (r : AccrueResult) (up : Next) (o : Option Commission)
      → CapsNext up
      → a + m ≤ cap
      → OfAmount (pos m) o
      → Returns (WithinCap a r) (credit_added l (pos m) (pos a) r up o)
  unfolding credit_added
  credit_added-WithinCap m a r up none k h e = k a r (omega (arith, h))
  credit_added-WithinCap m a r up (some c) k h e = Returns-bind _ _ (λ u.
      rw (add64_small a m (omega (arith, h, small))) (
        Returns-weaken _ (k (a + m) _ h)
          (λ r' within. omega (arith, within, total-append r.commissions c, ap pos_part e))))

  next-WithinCap :
      (a : ℕ) (r : AccrueResult) (up : Next) (why : SkipReason)
      → CapsNext up
      → a ≤ cap
      → Returns (WithinCap a r) (up (pos a) (skip r why))
  next-WithinCap a r up why k low = k a (skip r why) low

  accrue_amount-WithinCap :
      (layer agent_user_id : ℤ) (rate : Rate) (amount : Money) (a : ℕ) (r : AccrueResult)
      (up : Next)
      → CapsNext up
      → a ≤ cap
      → a + pos_part amount ≤ cap
      → Returns
          (WithinCap a r)
          (accrue_amount l ev base layer agent_user_id rate amount (pos a) r up)
  unfolding accrue_amount
  accrue_amount-WithinCap layer agent_user_id rate (negsuc n) a r up k low h =
      rw (negative_leb n) (next-WithinCap a r up _ k low)
  accrue_amount-WithinCap layer agent_user_id rate (pos m) a r up k low h =
      Returns-if (leb_ℤ (pos m) (pos 0)) _ _ (λ e. next-WithinCap a r up _ k low)
        (λ e.
          Returns-then _ _
            (appended_or_none-amount
              (accrued_commission l ev base layer agent_user_id rate (pos m)))
            (λ o same. credit_added-WithinCap m a r up o k h same))

  accrue_cut-WithinCap :
      (layer agent_user_id : ℤ) (rate : Rate) (amount : Money) (a : ℕ) (r : AccrueResult)
      (up : Next)
      → CapsNext up
      → a ≤ cap
      → Returns (WithinCap a r) (
          accrue_amount l ev base layer agent_user_id rate
            (capped amount (sub64 (pos cap) (pos a)))
            (pos a)
            (note_cut layer agent_user_id amount (sub64 (pos cap) (pos a)) r)
            up)
  accrue_cut-WithinCap layer agent_user_id rate amount a r up k low =
      rw (sub64_small a cap low small) (
        Returns-weaken _
          (accrue_amount-WithinCap layer agent_user_id rate (capped amount (pos (cap - a))) a
            (note_cut layer agent_user_id amount (pos (cap - a)) r) up k low
            (omega (arith, low, capped_at_most amount (cap - a))))
          (λ r' within.
            omega (
              arith,
              within,
              ap total (note_cut_same layer agent_user_id amount (pos (cap - a)) r),
            )))

  accrue_agent-WithinCap :
      (layer agent_user_id : ℤ) (a : ℕ) (r : AccrueResult) (up : Next) (agent : Agent)
      → CapsNext up
      → a ≤ cap
      → Returns
          (WithinCap a r)
          (accrue_agent l ev base (pos cap) layer agent_user_id (pos a) r up agent)
  unfolding accrue_agent
  accrue_agent-WithinCap layer agent_user_id a r up agent k low =
      let (eligible, why) =
        l.elig
          (record { agent = agent; order = paid_order_key ev; buyer_user_id = ev.buyer_user_id }) in
      Returns-if (ltb_ℤ (pos 1) layer && not eligible) _ _
        (λ e. next-WithinCap a r up (reason layer agent_user_id ineligible why) k low)
        (λ e. Returns-bind _ _ (λ rate.
          Returns-bind _ _
            (λ amount. accrue_cut-WithinCap layer agent_user_id rate amount a r up k low)))

  skip-WithinCap :
      (a : ℕ) (r : AccrueResult) (why : SkipReason)
      → a ≤ cap
      → Returns (WithinCap a r) (pure (skip r why))
  skip-WithinCap a r why low = Returns-pure (skip r why) (omega (arith, low))

  pub accrue_levels-WithinCap :
      (n : ℕ) (layer agent_user_id : ℤ) (a : ℕ) (r : AccrueResult)
      → a ≤ cap
      → Returns (WithinCap a r) (accrue_levels l ev base (pos cap) n layer agent_user_id (pos a) r)
  unfolding accrue_levels
  accrue_levels-WithinCap zero layer agent_user_id a r low = Returns-pure r (omega (arith, low))
  accrue_levels-WithinCap (suc n) layer agent_user_id a r low =
      Returns-if (agent_user_id ==ℤ pos 0) _ _ (λ e. skip-WithinCap a r _ low)
        (λ e. Returns-bind (agent_or_none _) _ (λ found.
          Returns-if_some found _ _
            (λ agent.
              accrue_agent-WithinCap layer agent_user_id a r _ agent
                (λ a' r' low'.
                  accrue_levels-WithinCap n (layer +ℤ pos 1) agent.parent_id a' r' low')
                low)
            (skip-WithinCap a r _ low)))

-- What the cap is: a share of the base.
pub cap_share :
    (m rate : ℕ) (z : ℤ)
    → m < 2 ^ 63
    → rate ≤ 10000
    → Money.apply (pos m) (pos rate) round_down ≡ ok z
    → (c : ℕ) × (z ≡ pos c) × (c ≤ m)
cap_share m rate z small low e =
    let q = (apply_exact (pos m) rate round_down z (ground arith) low refl).0.0 e in
    let within = mul-le-mul_left m low in
    let sign : neg_part z ≡ 0 = ground (arith, q.sign) in
    (
      pos_part z,
      eq_of_parts z (pos (pos_part z)) (omega (arith, sign)),
      omega (arith, q.near, within),
    )
