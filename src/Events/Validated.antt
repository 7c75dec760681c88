-- ===== src/Events/Validated.antt =====
-- What a paid order that passes `validate` satisfies.
use distledger.Base.{
  ℕ, ◌+◌, ◌≤◌, ◌<◌, ◌≡◌, ap, false, List, [], ◌∷◌, length, ltb, arith, if◌then◌else◌,
}
use distledger.Base.Int.{ℤ, pos, pos_part, neg_part, ltb_ℤ, leb_ℤ, ◌==ℤ◌, +ℤ_parts}
use distledger.Base.Text.{Text}
use distledger.Account.Exact.{sum_exact, add-IsInt64}
use distledger.Clock.{is_zero}
use distledger.Errors.{ok, fail_if, >>=-eq-ok, fail_if-passed}
use distledger.Events.{
  OrderItem, OrderPaidEvent, validate_items, validate_paid, paid_order_key, max_order_items,
  has_text,
}
use distledger.Idem.{validate_idem_key_override}
use distledger.Keys.{validate_order_key, is_empty, max_order_item_id_len}
use distledger.Money
use distledger.Money.{Money}
use distledger.Word.{IsInt64}

-- The amounts of the items are int64 values, as their type says.
abbrev pub HaveInt64 : List OrderItem → Type 0
HaveInt64 [] = Unit
HaveInt64 (it ∷ its) = IsInt64 it.amount × HaveInt64 its

-- The items have positive amounts.
abbrev pub ArePositive : List OrderItem → Type 0
ArePositive [] = Unit
ArePositive (it ∷ its) = (0 < pos_part it.amount) × ArePositive its

abbrev pub total_amount : List OrderItem → ℕ
total_amount [] = 0
total_amount (it ∷ its) = pos_part it.amount + total_amount its

positive_part : (x : ℤ) → leb_ℤ x (pos 0) ≡ false → (0 < pos_part x) × (neg_part x ≡ 0)
positive_part x h = ground arith

paid_positive :
    (x : ℤ) → ltb_ℤ x (pos 0) ≡ false → (x ==ℤ pos 0) ≡ false → (0 < pos_part x) × (neg_part x ≡ 0)
paid_positive x h h' = ground arith

sum_covered :
    (x sum : ℤ) (n : ℕ)
    → ltb_ℤ x (pos 0) ≡ false
    → ltb_ℤ x sum ≡ false
    → pos_part sum + 0 ≡ 0 + neg_part sum + n
    → n ≤ pos_part x
sum_covered x sum n h h' e = ground arith

-- The sum of `validate` is exact.
validate_items-exact :
    (its : List OrderItem) (seen : List Text) (sum z : Money)
    → HaveInt64 its
    → IsInt64 sum
    → validate_items its seen sum ≡ ok z
    → ArePositive its × (pos_part z + neg_part sum ≡ pos_part sum + neg_part z + total_amount its)
unfolding validate_items
validate_items-exact [] seen sum z h small e =
    let same : sum ≡ z = cc in (tt, rw same (omega arith))
validate_items-exact (it ∷ its) seen sum z (fits, h) small e =
    let (u1, e1, k1) = >>=-eq-ok (fail_if (is_empty it.item_id) _) _ z e in
    let (u2, e2, k2) =
      >>=-eq-ok (fail_if (ltb max_order_item_id_len (length it.item_id)) _) _ z k1 in
    let (u3, e3, k3) = >>=-eq-ok (fail_if (leb_ℤ it.amount (pos 0)) _) _ z k2 in
    let (u4, e4, k4) = >>=-eq-ok (fail_if (has_text it.item_id seen) _) _ z k3 in
    let (next, e5, k5) = >>=-eq-ok (Money.add sum it.amount) _ z k4 in
    let (positive, sign) = positive_part it.amount (fail_if-passed _ _ e3) in
    let exact = sum_exact sum it.amount next small fits e5 in
    let (rest, total) =
      validate_items-exact its _ next z h (add-IsInt64 sum it.amount next e5) k5 in
    (
      (positive, rest),
      omega (arith, total, sign, +ℤ_parts sum it.amount, ap pos_part exact, ap neg_part exact),
    )

-- What `OrderPaidEvent.validate` promises.
pub record IsPayable (ev : OrderPaidEvent) : Type 0 where
  pub positive : (0 < pos_part ev.paid_amount) × (neg_part ev.paid_amount ≡ 0)
  pub items_positive : ArePositive ev.items
  pub covered : total_amount ev.items ≤ pos_part ev.paid_amount

-- A paid order that passes `validate`, of int64 amounts: it has a positive amount, every item has a
-- positive amount, and their exact sum is at most the amount paid.
pub validate_paid-IsPayable :
    (ev : OrderPaidEvent) → HaveInt64 ev.items → validate_paid ev ≡ ok tt → IsPayable ev
unfolding validate_paid
validate_paid-IsPayable ev h e =
    let (u1, e1, k1) = >>=-eq-ok (validate_order_key (paid_order_key ev)) _ tt e in
    let (u2, e2, k2) =
      >>=-eq-ok (if is_empty ev.idem_key then ok tt else validate_idem_key_override ev.idem_key) _
        tt k1 in
    let (u3, e3, k3) = >>=-eq-ok (fail_if (leb_ℤ ev.buyer_user_id (pos 0)) _) _ tt k2 in
    let (u4, e4, k4) = >>=-eq-ok (fail_if (ltb_ℤ ev.paid_amount (pos 0)) _) _ tt k3 in
    let (u5, e5, k5) = >>=-eq-ok (fail_if (ev.paid_amount ==ℤ pos 0) _) _ tt k4 in
    let (u6, e6, k6) = >>=-eq-ok (fail_if (is_zero ev.paid_at) _) _ tt k5 in
    let (u7, e7, k7) = >>=-eq-ok (fail_if (ltb max_order_items (length ev.items)) _) _ tt k6 in
    let (sum, e8, k8) = >>=-eq-ok (validate_items ev.items [] (pos 0)) _ tt k7 in
    let (positive, total) =
      validate_items-exact ev.items [] (pos 0) sum h (omega arith, omega arith) e8 in
    record {
      positive = paid_positive ev.paid_amount (fail_if-passed _ _ e4) (fail_if-passed _ _ e5);
      items_positive = positive;
      covered =
          sum_covered ev.paid_amount sum _ (fail_if-passed _ _ e4) (fail_if-passed _ _ k8) total;
    }
