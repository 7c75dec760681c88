-- ===== src/Engine/Shares/Bounds.antt =====
-- The bounds of the share of a refund.
use distledger.Base.{
  ◌≡◌, refl, Bool, true, false, Bool-cases, inl, inr, not, List, [], ◌∷◌, arith, if◌then◌else◌,
}
use distledger.Base.Int.{ℤ, pos, ◌≤ℤ◌, ltb_ℤ, leb_ℤ}
use distledger.Base.Text.{Text, text_eqb, text_eqb_iff}
use distledger.Commission.{Commission}
use distledger.Engine.Shares.{
  Shares, no_shares, set_share, base_of, group, item_shares, full_shares, total_base, order_shares,
  clamp_share, raw_share, refund_shares, sorted_item_ids,
}
use distledger.Errors.{Err, Result, ok, err, field_error, ◌>>=◌, >>=-eq-ok}
use distledger.Events.{RefundItem, OrderRefundedEvent, is_nil}
use distledger.Money
use distledger.Money.{Money}

-- Every share is between 0 and the amount that the item accrued on.
pub record AreShares (all : List Commission) (m : Shares) : Type 0 where
  pub each : (id : Text) → (pos 0 ≤ℤ m id) × (m id ≤ℤ base_of (group id all))

-- No item accrued on a negative amount.
abbrev pub HaveBases : List Commission → Type 0
HaveBases all = (id : Text) → pos 0 ≤ℤ base_of (group id all)

-- No item of a refund has a negative amount.
abbrev pub AreRefunds : List RefundItem → Type 0
AreRefunds [] = Unit
AreRefunds (it ∷ its) = (pos 0 ≤ℤ it.amount) × AreRefunds its

clamp_share-bounds :
    (share base : Money)
    → pos 0 ≤ℤ base
    → (pos 0 ≤ℤ clamp_share share base) × (clamp_share share base ≤ℤ base)
clamp_share-bounds share base h = (ground arith, ground arith)

not_above : (x base : ℤ) → ltb_ℤ base x ≡ false → x ≤ℤ base
not_above x base h = ground arith

-- Two guards of a loop that both let it go on.
checks-passed :
    {A : Type 0} (b c : Bool) (x y : Err) (r : Result A) {a : A}
    → (if b then err x else if c then err y else r) ≡ ok a
    → (b ≡ false) × (c ≡ false) × (r ≡ ok a)
checks-passed true c x y r e = cc
checks-passed false true x y r e = cc
checks-passed false false x y r e = (refl, refl, e)

module _ (all : List Commission) (bases : HaveBases all) where
  no_shares-AreShares : AreShares all no_shares
  no_shares-AreShares = record { each = λ id. (omega arith, bases id) }

  set_share-AreShares :
      (id : Text) (v : Money) (m : Shares)
      → pos 0 ≤ℤ v
      → v ≤ℤ base_of (group id all)
      → AreShares all m
      → AreShares all (set_share id v m)
  set_share-AreShares id v m low high h = record {
    each = λ j. elim (Bool-cases (text_eqb id j)) [
      | inl this ↦ let same : id ≡ j = (text_eqb_iff id j).0 this in rw this (low, rw same at high)
      | inr other ↦ rw other (h.each j)
    ];
  }

  full_shares-AreShares :
      (ids : List Text) (m : Shares) → AreShares all m → AreShares all (full_shares all ids m)
  full_shares-AreShares [] m h = h
  full_shares-AreShares (id ∷ ids) m h =
      full_shares-AreShares ids _ (set_share-AreShares id _ m (bases id) (omega arith) h)

  item_shares-AreShares :
      (its : List RefundItem) (m m' : Shares)
      → AreRefunds its
      → AreShares all m
      → item_shares all its m ≡ ok m'
      → AreShares all m'
  unfolding item_shares
  item_shares-AreShares [] m m' positive h e = let same : m ≡ m' = cc in rw same at h
  item_shares-AreShares (it ∷ its) m m' (low, positive) h e =
      let (known, within, rest) =
        checks-passed (is_nil (group it.item_id all))
          (ltb_ℤ (base_of (group it.item_id all)) it.amount) _ _ _ e in
      item_shares-AreShares its _ m' positive
        (set_share-AreShares it.item_id it.amount m low
          (not_above it.amount (base_of (group it.item_id all)) within) h)
        rest

  order_shares-AreShares :
      (amount total : Money) (ids : List Text) (allocated : Money) (m m' : Shares)
      → AreShares all m
      → order_shares all amount total ids allocated m ≡ ok m'
      → AreShares all m'
  unfolding order_shares
  order_shares-AreShares amount total [] allocated m m' h e = let same : m ≡ m' = cc in rw same at h
  order_shares-AreShares amount total (id ∷ ids) allocated m m' h e =
      let base = base_of (group id all) in
      let (raw, e1, k1) = >>=-eq-ok (raw_share amount total base allocated ids) _ m' e in
      let (next, e2, k2) = >>=-eq-ok (Money.add allocated (clamp_share raw base)) _ m' k1 in
      let (low, high) = clamp_share-bounds raw base (bases id) in
      order_shares-AreShares amount total ids next _ m'
        (set_share-AreShares id (clamp_share raw base) m low high h) k2

  whole_shares-AreShares :
      (amount : Money) (total : Result Money) (m : Shares)
      → (total >>= λ total.
          if leb_ℤ total (pos 0)
          then err (field_error "amount")
          else order_shares all amount total (sorted_item_ids all) (pos 0) no_shares)
        ≡ ok m
      → AreShares all m
  whole_shares-AreShares amount (err x) m e = cc
  whole_shares-AreShares amount (ok total) m e = elim (Bool-cases (leb_ℤ total (pos 0))) [
    | inl none_left ↦ let never : err (field_error "amount") ≡ ok m = rw none_left at e in cc
    | inr some_left ↦
        order_shares-AreShares amount total (sorted_item_ids all) (pos 0) no_shares m
          no_shares-AreShares (rw some_left at e)
  ]

  part_shares-AreShares :
      (ev : OrderRefundedEvent) (b : Bool) (whole : Result Shares) (m : Shares)
      → AreRefunds ev.items
      → (whole ≡ ok m → AreShares all m)
      → (if b then item_shares all ev.items no_shares else whole) ≡ ok m
      → AreShares all m
  part_shares-AreShares ev true whole m positive h e =
      item_shares-AreShares ev.items no_shares m positive no_shares-AreShares e
  part_shares-AreShares ev false whole m positive h e = h e

  chosen_shares-AreShares :
      (b : Bool) (part : Result Shares) (m : Shares)
      → (part ≡ ok m → AreShares all m)
      → (if b then ok (full_shares all (sorted_item_ids all) no_shares) else part) ≡ ok m
      → AreShares all m
  chosen_shares-AreShares true part m h e =
      let same : full_shares all (sorted_item_ids all) no_shares ≡ m = cc in
      rw same at (full_shares-AreShares (sorted_item_ids all) no_shares no_shares-AreShares)
  chosen_shares-AreShares false part m h e = h e

-- Of a refund, full, by items of non-negative amounts or of an amount for the order, against accruals
-- on non-negative amounts: each share that `refundShares` returns is between 0 and the amount that its
-- item accrued on, so that one refund never takes back more than was accrued on.
pub refund_shares-AreShares :
    (ev : OrderRefundedEvent) (all : List Commission) (m : Shares)
    → HaveBases all
    → AreRefunds ev.items
    → refund_shares ev all ≡ ok m
    → AreShares all m
unfolding refund_shares
refund_shares-AreShares ev all m bases positive e =
    chosen_shares-AreShares all bases ev.is_full _ m
      (part_shares-AreShares all bases ev (not (is_nil ev.items)) _ m positive (
        whole_shares-AreShares all bases ev.amount (total_base all (sorted_item_ids all) (pos 0))
          m))
      e
