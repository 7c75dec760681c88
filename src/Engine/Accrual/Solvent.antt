-- ===== src/Engine/Accrual/Solvent.antt =====
-- An order never accrues more than was paid for it.
use distledger.Base.{
  ℕ, Bool, ◌+◌, ◌^◌, ◌≤◌, ◌<◌, ◌≡◌, refl, ap, true, false, not, List, [], ◌∷◌, arith, if◌then◌else◌,
}
use distledger.Base.Int.{ℤ, pos, negsuc, pos_part, neg_part, ◌==ℤ◌, ◌≤ℤ◌, eq_of_parts}
use distledger.Agent.{Agent, Binding, effective}
use distledger.Commission.{Commission}
use distledger.Engine.Accrual.{
  AccrualBase, accrue_base, accrue_bases, accrue_first, accrue_bound, accrue_order, paid_tx,
  on_order_paid, bases_of, item_bases, with_unallocated, bases_or, paid_time, replayed_result,
  layer_one_agent,
}
use distledger.Engine.Accrual.Cap.{total, cap_share, accrue_levels-WithinCap}
use distledger.Engine.Config.{Ledger}
use distledger.Errors.{Result, ok, err}
use distledger.Clock.{before}
use distledger.Events.{OrderItem, OrderPaidEvent, AccrueResult, validate_paid, paid_order_key}
use distledger.Events.Validated.{HaveInt64, ArePositive, total_amount, validate_paid-IsPayable}
use distledger.Memory.Store.{Ctx, Store, update}
use distledger.Memory.Store.Values.{update-OfValue}
use distledger.Memory.Tx.Values.{
  OfValue, Returns, Returns-pure, Returns-if, Returns-bind, Returns-then, Returns-weaken,
  Returns-bind-lift, Returns-if_some,
}
use distledger.Money
use distledger.Money.{Money, round_down}
use distledger.Word.{IsInt64}

-- Amounts that are not negative and fit an int64.
abbrev AreAmounts : List AccrualBase → Type 0
AreAmounts [] = Unit
AreAmounts (b ∷ bs) = (neg_part b.amount ≡ 0) × (pos_part b.amount < 2 ^ 63) × AreAmounts bs

abbrev total_base : List AccrualBase → ℕ
total_base [] = 0
total_base (b ∷ bs) = pos_part b.amount + total_base bs

-- A cap of 0 to 100 %.
abbrev pub IsShare : ℤ → Type 0
IsShare rate = (pos 0 ≤ℤ rate) × (rate ≤ℤ pos 10000)

module _ (l : Ledger) (ev : OrderPaidEvent) (share : IsShare l.rules.max_allocatable_bp) where
  Adds : ℕ → AccrueResult → AccrueResult → Type 0
  Adds m r r' = total r'.commissions ≤ total r.commissions + m

  share_of :
      (m : ℕ) (x z : ℤ) (rate : ℤ)
      → IsShare rate
      → m < 2 ^ 63
      → x ≡ pos m
      → Money.apply x rate round_down ≡ ok z
      → (c : ℕ) × (z ≡ pos c) × (c ≤ m)
  share_of m x z (pos rate) h small same e =
      cap_share m rate z small (omega (arith, h)) (rw same at e)
  share_of m x z (negsuc n) h small same e = ground (arith, h)

  accrue_base-Adds :
      (base : AccrualBase) (first : ℤ) (r : AccrueResult)
      → neg_part base.amount ≡ 0
      → pos_part base.amount < 2 ^ 63
      → Returns (Adds (pos_part base.amount) r) (accrue_base l ev base first r)
  unfolding accrue_base Adds
  accrue_base-Adds base first r sign small =
      Returns-bind-lift (Money.apply base.amount l.rules.max_allocatable_bp round_down) _ (λ z e.
        let m = pos_part base.amount in
        let (c, same, low) =
          share_of m base.amount z l.rules.max_allocatable_bp share small
            (eq_of_parts base.amount (pos m) (omega (arith, sign))) e in
        rw same (
          Returns-weaken _
            (accrue_levels-WithinCap l ev base c (omega (arith, low, small))
              (pos_part l.rules.levels) (pos 1) first 0 r (omega arith))
            (λ r' within. omega (arith, within, low))))

  accrue_bases-Adds :
      (first : ℤ) (bases : List AccrualBase) (sum : Money) (r : AccrueResult)
      → AreAmounts bases
      → Returns (λ p. Adds (total_base bases) r p.1) (accrue_bases l ev first bases sum r)
  unfolding accrue_bases Adds
  accrue_bases-Adds first [] sum r h = Returns-pure _ (omega arith)
  accrue_bases-Adds first (b ∷ bs) sum r (sign, small, h) = Returns-bind _ _ (λ next.
      Returns-then _ _ (accrue_base-Adds b first r sign small) (λ r' added.
        Returns-weaken _ (accrue_bases-Adds first bs next r' h)
          (λ p rest. omega (arith, added, rest))))

with_unallocated_same :
    (paid : Money) (p : Money × AccrueResult)
    → (with_unallocated paid p).commissions ≡ p.1.commissions
with_unallocated_same paid (allocated, r) = ground arith

sign_of : (x : ℤ) → 0 < pos_part x → neg_part x ≡ 0
sign_of x h = ground arith

item_bases-AreAmounts :
    (its : List OrderItem) → HaveInt64 its → ArePositive its → AreAmounts (item_bases its)
item_bases-AreAmounts [] h p = tt
item_bases-AreAmounts (it ∷ its) (fits, h) (positive, p) =
    (sign_of it.amount positive, fits.0, item_bases-AreAmounts its h p)

item_bases-total : (its : List OrderItem) → total_base (item_bases its) ≡ total_amount its
item_bases-total [] = refl
item_bases-total (it ∷ its) = omega (arith, item_bases-total its)

-- The bases of an order: its items, or the amount paid.
bases_of-AreAmounts :
    (ev : OrderPaidEvent) (its : List OrderItem)
    → IsInt64 ev.paid_amount
    → HaveInt64 its
    → ArePositive its
    → neg_part ev.paid_amount ≡ 0
    → total_amount its ≤ pos_part ev.paid_amount
    → AreAmounts (bases_or (record { item_id = []; amount = ev.paid_amount }) its)
      × (total_base (bases_or (record { item_id = []; amount = ev.paid_amount }) its)
          ≤ pos_part ev.paid_amount)
bases_of-AreAmounts ev [] fits h p sign low = ((sign, fits.0, tt), omega arith)
bases_of-AreAmounts ev (it ∷ its) fits h p sign low =
    (item_bases-AreAmounts (it ∷ its) h p, omega (arith, item_bases-total (it ∷ its), low))

replayed_total :
    {n : ℕ} (b : Bool) (r r' : AccrueResult)
    → total r.commissions ≤ n
    → total r'.commissions ≤ n
    → total (if b then r else r').commissions ≤ n
replayed_total true r r' h h' = h
replayed_total false r r' h h' = h'

module _ (l : Ledger) (ev : OrderPaidEvent) (share : IsShare l.rules.max_allocatable_bp)
    (fits : AreAmounts (bases_of ev)) where
  -- The amounts that an answer reports are within the bases of the order.
  AreWithin : AccrueResult → Type 0
  AreWithin r = total r.commissions ≤ total_base (bases_of ev)

  accrue_first-AreWithin :
      (r : AccrueResult) (first : Agent)
      → r.commissions ≡ []
      → Returns AreWithin (accrue_first l ev r first)
  unfolding accrue_first AreWithin Adds
  accrue_first-AreWithin r first none_before =
      let (eligible, why) =
        l.elig
          (record { agent = first; order = paid_order_key ev; buyer_user_id = ev.buyer_user_id }) in
      Returns-if (not eligible) _ _ (λ e. Returns-pure _ (omega (arith, ap total none_before)))
        (λ e.
          Returns-then _ _
            (accrue_bases-Adds l ev share first.key.user_id (bases_of ev) (pos 0) r fits)
            (λ p added. Returns-pure _ (
              omega (
                arith,
                added,
                ap total none_before,
                ap total (with_unallocated_same ev.paid_amount p),
              ))))

  accrue_bound-AreWithin : (b : Binding) → Returns AreWithin (accrue_bound l ev b)
  unfolding accrue_bound AreWithin
  accrue_bound-AreWithin b =
      Returns-if (before (paid_time l ev) b.bound_at) _ _ (λ e. Returns-pure _ (omega arith))
        (λ e.
          Returns-if (not (effective b (paid_time l ev))) _ _ (λ e. Returns-pure _ (omega arith))
            (λ e. Returns-bind _ _ (λ found.
              Returns-if_some found _ _ (λ first. accrue_first-AreWithin _ first refl)
                (Returns-pure _ (omega arith)))))

  replayed-AreWithin :
      (c : Commission) (cs : List Commission)
      → AreWithin (replayed_result (paid_order_key ev) (c ∷ cs))
  unfolding AreWithin
  replayed-AreWithin c cs =
      replayed_total (layer_one_agent (c ∷ cs) ==ℤ pos 0) _ _ (omega arith) (omega arith)

  accrue_order-AreWithin :
      (existing : List Commission) → Returns AreWithin (accrue_order l ev existing)
  unfolding accrue_order AreWithin
  accrue_order-AreWithin [] =
      Returns-bind _ _
        (λ found. Returns-if_some found _ _ accrue_bound-AreWithin (Returns-pure _ (omega arith)))
  accrue_order-AreWithin (c ∷ cs) = Returns-bind _ _ (λ u. Returns-pure _ (replayed-AreWithin c cs))

  paid_tx-AreWithin : Returns AreWithin (paid_tx l ev)
  unfolding paid_tx
  paid_tx-AreWithin = Returns-bind _ _ accrue_order-AreWithin

within_paid :
    (l : Ledger) (ev : OrderPaidEvent) (share : IsShare l.rules.max_allocatable_bp)
    (fits : AreAmounts (bases_of ev)) (r : AccrueResult)
    → total_base (bases_of ev) ≤ pos_part ev.paid_amount
    → AreWithin l ev share fits r
    → total r.commissions ≤ pos_part ev.paid_amount
unfolding AreWithin
within_paid l ev share fits r low within = omega (arith, low, within)

validated-OfValue :
    {A : Type 0} (V : A → Type 0) (v : Result (Unit {0})) (s : Store) (o : Result A × Store)
    → (v ≡ ok tt → OfValue V o.0)
    → OfValue V (elim v as (λ _. Result A × Store) [ err e ↦ (err e, s) | ok u ↦ o ]).0
validated-OfValue V (ok u) s o h = h refl
validated-OfValue V (err e) s o h = tt

value-OfValue : {A : Type 0} (V : A → Type 0) (x : Result A) (a : A) → OfValue V x → x ≡ ok a → V a
value-OfValue V (ok b) a v e = let same : b ≡ a = cc in rw same at v
value-OfValue V (err x) a v e = cc

-- An order paid, of int64 amounts, under rules whose cap is 0 to 100 %: the commissions that the call
-- creates, over all items and all levels of the chain, add up to at most the amount paid, whatever
-- the rates, the chain and the store are.
pub on_order_paid-solvent :
    (l : Ledger) (ev : OrderPaidEvent) (ctx : Ctx) (s : Store) (r : AccrueResult)
    → IsShare l.rules.max_allocatable_bp
    → IsInt64 ev.paid_amount
    → HaveInt64 ev.items
    → (on_order_paid l ev ctx s).0 ≡ ok r
    → total r.commissions ≤ pos_part ev.paid_amount
unfolding on_order_paid
on_order_paid-solvent l ev ctx s r share fits items_fit e =
    let V : AccrueResult → Type 0 = λ r. total r.commissions ≤ pos_part ev.paid_amount in
    value-OfValue V (on_order_paid l ev ctx s).0 r
      (validated-OfValue V (validate_paid ev) s (update ctx (paid_tx l ev) s) (λ passed.
        let payable = validate_paid-IsPayable ev items_fit passed in
        let (amounts, low) =
          bases_of-AreAmounts ev ev.items fits items_fit payable.items_positive payable.positive.1
            payable.covered in
        update-OfValue V ctx (paid_tx l ev) s (
          Returns-weaken _ (paid_tx-AreWithin l ev share amounts)
            (λ r' within. within_paid l ev share amounts r' low within))))
      e
