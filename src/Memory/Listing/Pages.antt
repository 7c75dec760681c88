-- ===== src/Memory/Listing/Pages.antt =====
-- The pages that the queries of a ledger answer, against filters of all the records there are.
use distledger.Base.{
  ℕ, zero, suc, ◌+◌, ◌≡◌, refl, ap, ◌∙◌, Bool, true, false, Bool-cases, Option-cases, inl, inr,
  List, [], ◌∷◌, take, filter, ltb, arith, if◌then◌else◌,
}
use distledger.Base.Int.{ℤ, pos, negsuc, ltb_ℤ, leb_ℤ, ◌≤ℤ◌, ◌==ℤ◌}
use distledger.Base.Maps.{Map}
use distledger.Engine.Withdraw.Queries.{withdrawals}
use distledger.Errors.{ok}
use distledger.Memory.Listing.{collect, Page, normalize_limit, withdrawals_by_tenant}
use distledger.Memory.Listing.Bounds.{listed, collect-eq-take}
use distledger.Memory.Reader.{records}
use distledger.Memory.Store.{Ctx, Store}
use distledger.Memory.Store.Clear.{IsClear, view-Gives}
use distledger.Memory.Data.{Data}
use distledger.Memory.Tx.Gives.{Gives, Gives-bind, Gives-gets, Gives-check_ctx, Gives-raise_if}

-- How many records a page may hold: 100 where the caller does not say, and never more than 1000.
abbrev pub page_size : ℤ → ℕ
page_size (negsuc n) = 100
page_size (pos zero) = 100
page_size (pos (suc n)) = if ltb n 1000 then n + 1 else 1000

normalize_limit-eq-page_size : (limit : ℤ) → normalize_limit limit ≡ page_size limit
normalize_limit-eq-page_size (negsuc n) = ground arith
normalize_limit-eq-page_size (pos zero) = ground arith
normalize_limit-eq-page_size (pos (suc n)) = ground arith

-- The records that the ids above an anchor name.
abbrev pub behind_anchor : {V : Type 0} → ℤ → Map ℤ V → List ℤ → List V
behind_anchor after m ids = records m (filter (λ id. ltb_ℤ after id) ids)

module _ {V : Type 0} (after : ℤ) (keep : V → Bool) (m : Map ℤ V) where
  listed-eq-filter :
      (ids : List ℤ) → listed after keep m ids ≡ filter keep (behind_anchor after m ids)
  unfolding listed
  listed-eq-filter [] = refl
  listed-eq-filter (id ∷ ids) =
      let rest = listed-eq-filter ids in
      elim (Bool-cases (leb_ℤ id after)) [
        | inl before ↦
            let kept_out : ltb_ℤ after id ≡ false = ground arith in rw (before, kept_out) rest
        | inr past ↦
            let kept_in : ltb_ℤ after id ≡ true = ground arith in
            elim (Option-cases (m id)) [
              | inl gone ↦ rw (past, kept_in, gone) rest
              | inr (v, found) ↦
                  rw (past, kept_in, found)
                    (elim (Bool-cases (keep v)) [
                      | inl good ↦ rw good (ap (λ vs. v ∷ vs) rest)
                      | inr bad ↦ rw bad rest
                    ])
            ]
      ]

  -- The loop of a listing against the filter.
  page-eq-filter :
      (limit : ℤ) (ids : List ℤ)
      → collect (normalize_limit limit) after keep m ids
        ≡ take (page_size limit) (filter keep (behind_anchor after m ids))
  page-eq-filter limit ids =
      collect-eq-take after keep m (normalize_limit limit) ids
      ∙ rw (normalize_limit-eq-page_size limit, listed-eq-filter ids) refl

withdrawals_by_tenant-Gives :
    (d : Data) (tenant_id : ℤ) (p : Page)
    → pos 0 ≤ℤ tenant_id
    → Gives d (withdrawals_by_tenant tenant_id p) (
        take (page_size p.limit) (
          filter
            (λ w. w.key.tenant_id ==ℤ tenant_id)
            (behind_anchor p.after_id d.withdrawals d.withdrawal_ids)))
unfolding withdrawals_by_tenant
withdrawals_by_tenant-Gives d tenant_id p h =
    rw
      (← page-eq-filter p.after_id (λ w. w.key.tenant_id ==ℤ tenant_id) d.withdrawals p.limit
        d.withdrawal_ids)
      (Gives-bind _ tt _ _ Gives-check_ctx
        (Gives-bind _ tt _ _ (Gives-raise_if _ _ (ground arith)) (Gives-gets _)))

-- Where the store is open and the context lets the call through, `Withdrawals` answers a tenant the
-- first of its own withdrawals behind the anchor, in the order of the store and without
-- a gap: as many as the caller asks for, 100 where it does not say, and at most 1000. The store stays
-- as it was.
pub withdrawals-page :
    (tenant_id : ℤ) (p : Page) (ctx : Ctx) (s : Store)
    → pos 0 ≤ℤ tenant_id
    → IsClear ctx s
    → withdrawals tenant_id p ctx s ≡ (
      ok (
          take (page_size p.limit) (
            filter
              (λ w. w.key.tenant_id ==ℤ tenant_id)
              (behind_anchor p.after_id s.data_of.withdrawals s.data_of.withdrawal_ids))),
      s,
    )
unfolding withdrawals
withdrawals-page tenant_id p ctx s h clear =
    view-Gives ctx (withdrawals_by_tenant tenant_id p) s _ clear
      (withdrawals_by_tenant-Gives s.data_of tenant_id p h)
