-- ===== src/SelfCheck/Pages/Total.antt =====
-- The loop over the pages of a listing reads each record once.
use distledger.Base.{
  ℕ, zero, suc, ◌+◌, ◌<◌, ◌≡◌, refl, sym, ap, true, false, Bool-cases, inl, inr, List, [], ◌∷◌,
  length, take, ltb, ltb→lt, arith,
}
use distledger.Base.Int.{ℤ}
use distledger.Memory.Data.{Data}
use distledger.Memory.Listing.{max_page_limit}
use distledger.Memory.Tx.{Tx}
use distledger.Memory.Tx.Gives.{Gives, Gives-pure, Gives-bind}
use distledger.SelfCheck.Pages.{each_of, after_page, last_id, paged}

abbrev pub drop : {V : Type 0} → ℕ → List V → List V
drop zero vs = vs
drop (suc n) [] = []
drop (suc n) (v ∷ vs) = drop n vs

-- What the loop ends with, where each step gives what `f` says.
abbrev pub folded : {V S : Type 0} → (V → S → S) → List V → S → S
folded f [] s = s
folded f (v ∷ vs) s = folded f vs (f v s)

abbrev pub StepsGive : {V S : Type 0} → Data → (V → S → Tx S) → (V → S → S) → List V → S → Type 0
StepsGive d step f [] s = Unit {0}
StepsGive d step f (v ∷ vs) s = Gives d (step v s) (f v s) × StepsGive d step f vs (f v s)

length-take_short :
    {V : Type 0} (n : ℕ) (vs : List V)
    → length (take n vs) < n
    → (take n vs ≡ vs) × (drop n vs ≡ [])
length-take_short zero vs h = elim h [ ]
length-take_short (suc n) [] h = (refl, refl)
length-take_short (suc n) (v ∷ vs) h =
    let (e, e') = length-take_short n vs (omega arith) in (ap (λ x. v ∷ x) e, e')

length-drop :
    {V : Type 0} (n : ℕ) (vs : List V) → length (take n vs) + length (drop n vs) ≡ length vs
length-drop zero vs = omega arith
length-drop (suc n) [] = omega arith
length-drop (suc n) (v ∷ vs) = omega (arith, length-drop n vs)

module _ {V S : Type 0} (d : Data) (step : V → S → Tx S) (f : V → S → S) where
  steps_split :
      (n : ℕ) (vs : List V) (s : S)
      → StepsGive d step f vs s
      → StepsGive d step f (take n vs) s
        × (StepsGive d step f (drop n vs) (folded f (take n vs) s)
            × (folded f vs s ≡ folded f (drop n vs) (folded f (take n vs) s)))
  steps_split zero vs s h = (tt, (h, refl))
  steps_split (suc n) [] s h = (tt, (tt, refl))
  steps_split (suc n) (v ∷ vs) s (g, h) =
      let (now, later) = steps_split n vs (f v s) h in ((g, now), later)

  each_of-Gives :
      (vs : List V) (s : S) → StepsGive d step f vs s → Gives d (each_of step vs s) (folded f vs s)
  unfolding each_of
  each_of-Gives [] s h = Gives-pure s
  each_of-Gives (v ∷ vs) s (g, h) =
      Gives-bind (step v s) (f v s) (λ s'. each_of step vs s') (folded f vs (f v s)) g
        (each_of-Gives vs (f v s) h)

  after_page-Gives :
      (id_of : V → ℤ) (later : ℤ → S → Tx S) (after : ℤ) (page : List V) (s r : S)
      → StepsGive d step f page s
      → (ltb (length page) max_page_limit ≡ true → folded f page s ≡ r)
      → (ltb (length page) max_page_limit ≡ false
          → Gives d (later (last_id id_of after page) (folded f page s)) r)
      → Gives d (after_page id_of step later after s page) r
  unfolding after_page
  after_page-Gives id_of later after [] s r h short full = rw (short refl) (Gives-pure r)
  after_page-Gives id_of later after (v ∷ vs) s r h short full =
      Gives-bind (each_of step (v ∷ vs) s) (folded f (v ∷ vs) s) _ r (each_of-Gives (v ∷ vs) s h)
        (elim (Bool-cases (ltb (length (v ∷ vs)) max_page_limit)) [
          | inl last ↦ rw (last, short last) (Gives-pure r)
          | inr more ↦ rw more (full more)
        ])

  module _ (read : ℤ → Tx (List V)) (id_of : V → ℤ) (behind : ℤ → List V)
      (reads : (after : ℤ) → Gives d (read after) (take max_page_limit (behind after)))
      (goes_on : (after : ℤ)
        → behind (last_id id_of after (take max_page_limit (behind after)))
          ≡ drop max_page_limit (behind after)) where
    carried_on :
        (n : ℕ) (next : ℤ) (vs : List V) (s r : S)
        → (length (behind next) < n
            → StepsGive d step f (behind next) s
            → Gives d (paged n read id_of step next s) (folded f (behind next) s))
        → behind next ≡ vs
        → length vs < n
        → StepsGive d step f vs s
        → r ≡ folded f vs s
        → Gives d (paged n read id_of step next s) r
    carried_on n next vs s r rest e enough h p = rw (p, sym e) (rest (rw e enough) (rw e h))

    -- Fuel of more than the records that are left is enough to read them all, in order.
    pub paged-Gives :
        (n : ℕ) (after : ℤ) (s : S)
        → length (behind after) < n
        → StepsGive d step f (behind after) s
        → Gives d (paged n read id_of step after s) (folded f (behind after) s)
    unfolding paged
    paged-Gives zero after s enough h = elim enough [ ]
    paged-Gives (suc n) after s enough h =
        Gives-bind (read after) (take max_page_limit (behind after))
          (λ page. after_page id_of step (paged n read id_of step) after s page)
          (folded f (behind after) s) (reads after)
          (let (now, (rest, split)) = steps_split max_page_limit (behind after) s h in
            after_page-Gives id_of (paged n read id_of step) after
              (take max_page_limit (behind after)) s (folded f (behind after) s) now
              (λ short.
                ap (λ vs. folded f vs s)
                  (length-take_short max_page_limit (behind after) (ltb→lt _ _ short)).0)
              (λ full.
                carried_on n (last_id id_of after (take max_page_limit (behind after)))
                  (drop max_page_limit (behind after))
                  (folded f (take max_page_limit (behind after)) s) (folded f (behind after) s)
                  (paged-Gives n (last_id id_of after (take max_page_limit (behind after)))
                    (folded f (take max_page_limit (behind after)) s))
                  (goes_on after)
                  (let total = length-drop max_page_limit (behind after) in ground arith) rest
                  split))
