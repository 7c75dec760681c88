-- ===== src/Memory/Listing/Behind.antt =====
-- The pages of a listing whose ids ascend: what stands behind the last record of a page.
use distledger.Base.{
  ℕ, zero, suc, ◌≡◌, refl, sym, ap, ◌∙◌, Bool, true, Bool-cases, inl, inr, some, List, [], ◌∷◌,
  take, arith,
}
use distledger.Base.Int.{ℤ, ◌≤ℤ◌, ◌<ℤ◌, leb_ℤ}
use distledger.Base.Maps.{Map}
use distledger.Memory.Books.{IsIndex}
use distledger.Memory.Listing.Bounds.{listed}
use distledger.Memory.Reader.{records}
use distledger.SelfCheck.Pages.{last_id}
use distledger.SelfCheck.Pages.Total.{drop}

module _ {V : Type 0} (id_of : V → ℤ) (m : Map ℤ V) where
  module _ (keep : V → Bool) (keeps : (v : V) → keep v ≡ true) where
    -- What a listing shows behind an anchor.
    abbrev pub behind : List ℤ → ℤ → List V
    behind ids after = listed after keep m ids

    behind-skip :
        (id after : ℤ) (ids : List ℤ) → id ≤ℤ after → behind (id ∷ ids) after ≡ behind ids after
    unfolding listed
    behind-skip id after ids h = ground arith

    behind-found :
        (id after : ℤ) (ids : List ℤ) (v : V)
        → after <ℤ id
        → m id ≡ some v
        → behind (id ∷ ids) after ≡ v ∷ behind ids after
    unfolding listed
    behind-found id after ids v h found = let kept = keeps v in ground arith

    pub behind-all :
        (a after : ℤ) (ids : List ℤ)
        → IsIndex id_of m a ids
        → after ≤ℤ a
        → behind ids after ≡ records m ids
    unfolding listed
    behind-all a after [] h le = refl
    behind-all a after (id ∷ ids) (lt, (v, (found, named)), h) le =
        behind-found id after ids v (omega arith) found
        ∙ (rw (behind-all id after ids h (omega arith)) (let rest = found in ground arith))

    behind-same :
        (a x y : ℤ) (ids : List ℤ)
        → IsIndex id_of m a ids
        → x ≤ℤ a
        → y ≤ℤ a
        → behind ids x ≡ behind ids y
    behind-same a x y ids h hx hy = behind-all a x ids h hx ∙ sym (behind-all a y ids h hy)

    -- The id of the last of the first `n` records behind an anchor.
    abbrev pub page_end : ℕ → List ℤ → ℤ → ℤ
    page_end n ids after = last_id id_of after (take n (behind ids after))

    end-skip :
        (n : ℕ) (id after : ℤ) (ids : List ℤ)
        → id ≤ℤ after
        → page_end n (id ∷ ids) after ≡ page_end n ids after
    end-skip n id after ids h =
        ap (λ vs. last_id id_of after (take n vs)) (behind-skip id after ids h)

    end-found :
        (n : ℕ) (id after : ℤ) (ids : List ℤ) (v : V)
        → after <ℤ id
        → m id ≡ some v
        → id_of v ≡ id
        → IsIndex id_of m id ids
        → page_end (suc n) (id ∷ ids) after ≡ page_end n ids id
    end-found n id after ids v lt found named h =
        ap (λ vs. last_id id_of after (take (suc n) vs)) (behind-found id after ids v lt found)
        ∙ (ap (λ x. last_id id_of x (take n (behind ids after))) named
            ∙ ap (λ vs. last_id id_of id (take n vs))
                (behind-same id after id ids h (omega arith) (omega arith)))

    end-above :
        (n : ℕ) (a after : ℤ) (ids : List ℤ) → IsIndex id_of m a ids → after ≤ℤ page_end n ids after
    unfolding listed
    end-above zero a after ids h = omega arith
    end-above (suc n) a after [] h = omega arith
    end-above (suc n) a after (id ∷ ids) (lt, (v, (found, named)), h) =
        elim (Bool-cases (leb_ℤ id after)) [
          | inl before ↦
              rw (end-skip (suc n) id after ids (ground arith)) (end-above (suc n) id after ids h)
          | inr past ↦ rw (end-found n id after ids v (ground arith) found named h) (
              let rest = end-above n id id ids h in
              let past' : after <ℤ id = ground arith in omega arith)
        ]

    -- Behind the last of the first records stand the rest of them.
    pub behind-end :
        (n : ℕ) (a after : ℤ) (ids : List ℤ)
        → IsIndex id_of m a ids
        → behind ids (page_end n ids after) ≡ drop n (behind ids after)
    unfolding listed
    behind-end zero a after ids h = refl
    behind-end (suc n) a after [] h = refl
    behind-end (suc n) a after (id ∷ ids) (lt, (v, (found, named)), h) =
        elim (Bool-cases (leb_ℤ id after)) [
          | inl before ↦
              let le : id ≤ℤ after = ground arith in
              let le' = end-above (suc n) id after ids h in
              ap (behind (id ∷ ids)) (end-skip (suc n) id after ids le)
              ∙ (behind-skip id (page_end (suc n) ids after) ids (omega arith)
                  ∙ (behind-end (suc n) id after ids h
                      ∙ sym (ap (λ vs. drop (suc n) vs) (behind-skip id after ids le))))
          | inr past ↦
              let past' : after <ℤ id = ground arith in
              ap (behind (id ∷ ids)) (end-found n id after ids v past' found named h)
              ∙ (behind-skip id (page_end n ids id) ids (end-above n id id ids h)
                  ∙ (behind-end n id id ids h
                      ∙ (ap (λ vs. drop n vs)
                            (behind-same id id after ids h (omega arith) (omega arith))
                          ∙ sym (
                              ap (λ vs. drop (suc n) vs)
                                (behind-found id after ids v past' found)))))
        ]
