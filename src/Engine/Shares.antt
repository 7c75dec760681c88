-- ===== src/Engine/Shares.antt =====
-- reversal.go: how a refund is shared out over the accrual items of its order.
-- The maps from item ids are functions, read at the sorted ids; a missing id reads as 0.
pub mod Bounds
use distledger.Base.{Bool, true, false, not, List, [], ◌∷◌, ◌++◌, ltb, if◌then◌else◌}
use distledger.Base.Int.{pos, ltb_ℤ, leb_ℤ}
use distledger.Base.Text.{Text, text_eqb}
use distledger.Commission.{Commission, Refund}
use distledger.Errors.{Result, ok, err, field_error, ◌>>=◌}
use distledger.Events.{RefundItem, OrderRefundedEvent, is_nil, RefundResult}
use distledger.Money
use distledger.Money.{Money, round_down}

abbrev pub Shares : Type 0
Shares = Text → Money

-- The commissions of `groupAccrualsByItem`: the accruals, without the reversal records.
abbrev pub accruals : List Commission → List Commission
accruals [] = []
accruals (c ∷ cs) = if leb_ℤ c.amount (pos 0) then accruals cs else c ∷ accruals cs

-- `groups[id]`, of the accruals.
abbrev pub group : Text → List Commission → List Commission
group id [] = []
group id (c ∷ cs) = if text_eqb c.order_item_id id then c ∷ group id cs else group id cs

-- The byte order of Go strings.
abbrev text_less : Text → Text → Bool
text_less s [] = false
text_less [] (y ∷ t) = true
text_less (x ∷ s) (y ∷ t) = if ltb x y then true else if ltb y x then false else text_less s t

abbrev insert_id : Text → List Text → List Text
insert_id id [] = id ∷ []
insert_id id (t ∷ ts) =
    if text_eqb id t then t ∷ ts else if text_less id t then id ∷ t ∷ ts else t ∷ insert_id id ts

-- `sortedItemIDs`
abbrev pub sorted_item_ids : List Commission → List Text
sorted_item_ids [] = []
sorted_item_ids (c ∷ cs) = insert_id c.order_item_id (sorted_item_ids cs)

-- `baseOf`
abbrev pub base_of : List Commission → Money
base_of [] = pos 0
base_of (c ∷ cs) = c.base_amount

abbrev pub no_shares : Shares
no_shares id = pos 0

abbrev pub set_share : Text → Money → Shares → Shares
set_share id v m j = if text_eqb id j then v else m j

-- The loop of `refundShares` over the items of the event.
unfoldable pub item_shares : List Commission → List RefundItem → Shares → Result Shares
item_shares all [] shares = ok shares
item_shares all (it ∷ its) shares =
    let rest = item_shares all its (set_share it.item_id it.amount shares) in
    if is_nil (group it.item_id all)
    then err (field_error "items")
    else if ltb_ℤ (base_of (group it.item_id all)) it.amount
    then err (field_error "items")
    else rest

abbrev full_shares : List Commission → List Text → Shares → Shares
full_shares all [] shares = shares
full_shares all (id ∷ ids) shares =
    full_shares all ids (set_share id (base_of (group id all)) shares)

unfoldable pub total_base : List Commission → List Text → Money → Result Money
total_base all [] sum = ok sum
total_base all (id ∷ ids) sum =
    Money.add sum (base_of (group id all)) >>= λ next. total_base all ids next

-- `if share < 0 { share = 0 }; if share > base { share = base }`
abbrev pub clamp_share : Money → Money → Money
clamp_share share base =
    let low = if ltb_ℤ share (pos 0) then pos 0 else share in if ltb_ℤ base low then base else low

-- The share of one item: the last takes what is left.
abbrev raw_share : Money → Money → Money → Money → List Text → Result Money
raw_share amount total base allocated [] = Money.sub amount allocated
raw_share amount total base allocated (id ∷ ids) = Money.mul_div amount base total round_down

-- The loop of `refundShares` over the whole order.
unfoldable pub order_shares :
    List Commission → Money → Money → List Text → Money → Shares → Result Shares
order_shares all amount total [] allocated shares = ok shares
order_shares all amount total (id ∷ ids) allocated shares = do
  raw ← raw_share amount total (base_of (group id all)) allocated ids
  let share = clamp_share raw (base_of (group id all))
  next ← Money.add allocated share
  order_shares all amount total ids next (set_share id share shares)

-- `refundShares`
unfoldable pub refund_shares : OrderRefundedEvent → List Commission → Result Shares
refund_shares ev all =
    if ev.is_full
    then ok (full_shares all (sorted_item_ids all) no_shares)
    else if not (is_nil ev.items)
    then item_shares all ev.items no_shares
    else (do
      total ← total_base all (sorted_item_ids all) (pos 0)
      if leb_ℤ total (pos 0)
          then err (field_error "amount")
          else order_shares all ev.amount total (sorted_item_ids all) (pos 0) no_shares)

-- The loop of `cumulativeRefunds`.
abbrev pub largest_refunds : List Refund → Shares → Shares
largest_refunds [] m = m
largest_refunds (r ∷ rs) m =
    largest_refunds rs
      (if ltb_ℤ (m r.item_id) r.cumulative then set_share r.item_id r.cumulative m else m)

-- `result.ReversedAmount.Add(delta)`, with the new record.
abbrev pub with_reversal : Money → Commission → RefundResult → Result RefundResult
with_reversal delta reversal r = Money.add r.reversed_amount delta >>= λ next.
    ok (record r { reversed = r.reversed ++ (reversal ∷ []); reversed_amount = next })
