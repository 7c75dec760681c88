-- ===== src/Engine/Binding/Depth.antt =====
-- The depth of a new agent in the relation chain, and the rounds that it takes to find.
use distledger.Base.{
  ℕ, zero, suc, ◌+◌, ◌≤◌, ◌≡◌, refl, ap, fun_ext, true, false, Bool, List, [], ◌∷◌, arith,
  if◌then◌else◌,
}
use distledger.Base.Int.{ℤ, pos, ◌+ℤ◌, ◌≤ℤ◌, ltb_ℤ, ◌==ℤ◌}
use distledger.Agent.{Agent}
use distledger.Engine.Binding.{resolve_depth, is_seen, add_agent, depth_rounds}
use distledger.Engine.Config.{Ledger}
use distledger.Errors.{is_not_found, field_error, cycle, depth_exceeded}
use distledger.Events.{BindAgentRequest}
use distledger.Keys.{UserKey}
use distledger.Memory.Reader.{agent}
use distledger.Memory.Tx.{recover, raise, ◌>>=◌}
use distledger.Memory.Tx.Values.{
  Returns, Returns-pure, Returns-if, Returns-bind, Returns-then, Returns-weaken, Returns-raise,
  value_rules,
}
use distledger.Memory.Writer.{put_agent}

-- A depth that a rate may exist for.
abbrev pub IsDepth : ℤ → Type 0
IsDepth d = (pos 1 ≤ℤ d) × (d ≤ℤ pos 3)

deeper : (d : ℤ) → IsDepth d → ltb_ℤ (pos 3) (d +ℤ pos 1) ≡ false → IsDepth (d +ℤ pos 1)
unfolding ◌+ℤ◌
deeper d h e = ground (arith, e)

resolve_depth-IsDepth :
    (n : ℕ) (key : UserKey) (depth : ℤ) (seen : List ℤ) (cur : ℤ)
    → IsDepth depth
    → Returns IsDepth (resolve_depth n key depth seen cur)
unfolding resolve_depth
resolve_depth-IsDepth zero key depth seen cur h =
    Returns-if (cur ==ℤ pos 0) _ _ (λ e. Returns-pure depth h) (λ e. Returns-raise depth_exceeded)
resolve_depth-IsDepth (suc n) key depth seen cur h =
    Returns-if (cur ==ℤ pos 0) _ _ (λ e. Returns-pure depth h)
      (λ e.
        Returns-if (cur ==ℤ key.user_id) _ _ (λ e. Returns-raise cycle)
          (λ e.
            Returns-if (is_seen cur seen) _ _ (λ e. Returns-raise cycle)
              (λ e.
                Returns-if (ltb_ℤ (pos 3) (depth +ℤ pos 1)) _ _ (λ e. Returns-raise depth_exceeded)
                  (λ e. Returns-bind _ _ (λ parent.
                    resolve_depth-IsDepth n key (depth +ℤ pos 1) (cur ∷ seen) parent.parent_id
                      (deeper depth h e))))))

put_agent-depth : (a : Agent) → Returns (λ saved. saved.depth ≡ a.depth) (put_agent a)
unfolding put_agent
put_agent-depth a = search value_rules depth 40

-- An agent that `BindAgent` adds has a depth of 1 to 3, whatever the chain above it looks like, a cycle
-- included.
pub add_agent-IsDepth :
    (l : Ledger) (req : BindAgentRequest) → Returns (λ a. IsDepth a.depth) (add_agent l req)
unfolding add_agent
add_agent-IsDepth l req =
    Returns-then _ _ (resolve_depth-IsDepth depth_rounds _ (pos 1) _ _ (omega arith, omega arith))
      (λ depth h. Returns-weaken _ (put_agent-depth _) (λ a e. rw e h))

if-same :
    {A : Type 0} (b : Bool) (x y z : A)
    → (b ≡ false → y ≡ z)
    → (if b then x else y) ≡ (if b then x else z)
if-same true x y z h = refl
if-same false x y z h = h refl

short : (d : ℤ) (n : ℕ) → IsDepth d → pos 4 ≤ℤ d +ℤ pos (suc n) → pos 4 ≤ℤ (d +ℤ pos 1) +ℤ pos n
unfolding ◌+ℤ◌
short d n h e = ground (arith, e)

too_short : (d : ℤ) → IsDepth d → pos 4 ≤ℤ d +ℤ pos 0 → 1 ≤ 0
unfolding ◌+ℤ◌
too_short d h e = ground (arith, e)

suc_first : (n k : ℕ) → suc n + k ≡ suc (n + k)
suc_first n k = omega arith

resolve_depth_fuel :
    (n k : ℕ) (key : UserKey) (depth : ℤ) (seen : List ℤ) (cur : ℤ)
    → IsDepth depth
    → pos 4 ≤ℤ depth +ℤ pos n
    → resolve_depth (n + k) key depth seen cur ≡ resolve_depth n key depth seen cur
unfolding resolve_depth
resolve_depth_fuel zero k key depth seen cur h more = elim (too_short depth h more) [ ]
resolve_depth_fuel (suc n) k key depth seen cur h more = rw (suc_first n k) (
    if-same (cur ==ℤ pos 0) _ _ _ (λ e. if-same (cur ==ℤ key.user_id) _ _ _ (λ e.
      if-same (is_seen cur seen) _ _ _ (λ e. if-same (ltb_ℤ (pos 3) (depth +ℤ pos 1)) _ _ _ (λ e.
        ap
          (λ f.
            recover is_not_found (agent (record { tenant_id = key.tenant_id; user_id = cur }))
              (λ e. raise (field_error "parent_id"))
            >>= f)
          (fun_ext (λ parent.
            resolve_depth_fuel n k key (depth +ℤ pos 1) (cur ∷ seen) parent.parent_id
              (deeper depth h e) (short depth n h more))))))))

-- The walk up the chain ends within 4 rounds: with more of them it does the same in every store.
pub resolve_depth-terminates :
    (k : ℕ) (key : UserKey) (cur : ℤ)
    → resolve_depth (depth_rounds + k) key (pos 1) [] cur
      ≡ resolve_depth depth_rounds key (pos 1) [] cur
unfolding ◌+ℤ◌
resolve_depth-terminates k key cur =
    resolve_depth_fuel 4 k key (pos 1) [] cur (omega arith, omega arith) (ground arith)
