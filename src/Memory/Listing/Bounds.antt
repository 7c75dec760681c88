-- ===== src/Memory/Listing/Bounds.antt =====
-- The loop of a listing, and the list that it is the beginning of.
use distledger.Base.{
  ℕ, zero, suc, ◌≡◌, refl, Bool, Bool-cases, inl, inr, Option, none, some, List, [], ◌∷◌, take,
  if◌then◌else◌,
}
use distledger.Base.Int.{ℤ, leb_ℤ}
use distledger.Base.Maps.{Map}
use distledger.Memory.Listing.{collect, kept_if}

module _ {V : Type 0} (after : ℤ) (keep : V → Bool) (m : Map ℤ V) where
  -- All that a listing has behind the anchor, however many.
  unfoldable pub listed : List ℤ → List V
  listed [] = []
  listed (id ∷ ids) =
      let rest = listed ids in
      if leb_ℤ id after
      then rest
      else elim (kept_if keep (m id)) [ none ↦ rest | some v ↦ v ∷ rest ]

  collect-next :
      (n : ℕ) (o : Option V) (ids : List ℤ)
      → collect (suc n) after keep m ids ≡ take (suc n) (listed ids)
      → collect n after keep m ids ≡ take n (listed ids)
      → elim o as (λ _. List V) [
        | none ↦ collect (suc n) after keep m ids
        | some v ↦ v ∷ collect n after keep m ids
      ]
        ≡ take (suc n) (elim o as (λ _. List V) [ none ↦ listed ids | some v ↦ v ∷ listed ids ])
  collect-next n none ids h h' = h
  collect-next n (some v) ids h h' = rw h' refl

  -- A page is what the listing begins with behind the anchor: exactly the first records that pass the
  -- filter, as many as the page may hold, with none left out between them.
  pub collect-eq-take : (n : ℕ) (ids : List ℤ) → collect n after keep m ids ≡ take n (listed ids)
  unfolding collect listed
  collect-eq-take zero ids = refl
  collect-eq-take (suc n) [] = refl
  collect-eq-take (suc n) (id ∷ ids) = elim (Bool-cases (leb_ℤ id after)) [
    | inl before ↦ rw before (collect-eq-take (suc n) ids)
    | inr behind ↦ rw behind (
        collect-next n (kept_if keep (m id)) ids (collect-eq-take (suc n) ids)
          (collect-eq-take n ids))
  ]
