-- ===== src/Memory/DueWork/Due.antt =====
-- What `DueWork` returns.
use distledger.Base.{
  ℕ, zero, suc, ◌+◌, ◌*◌, ◌/◌, ◌≡◌, refl, true, false, Bool, Bool-cases, inl, inr, not, ◌&&◌, ◌||◌,
  Option, none, some, List, [], ◌∷◌, ◌++◌, length, ltb, eqb, arith, if◌then◌else◌,
}
use distledger.Base.Int.{ℤ, ltb_ℤ, ◌==ℤ◌, ◌≤ℤ◌}
use distledger.Clock.{Time}
use distledger.Commission.{Commission, pending, same_state}
use distledger.Memory.Data.{Data, DueRef}
use distledger.Memory.DueWork.{
  put_index, at_index, exchanged, swap, larger, sift_down, heapify_below, heapify, replace_top,
  worse, add_candidate, due_candidates, is_some, found, insert_sooner, sooner, by_time, due_work,
}
use distledger.Memory.Reader.{due_commission}
use distledger.Memory.Tx.Values.{Returns, Returns-bind, Returns-gets}

-- Every item of a list.
abbrev pub All : {A : Type 0} → (A → Type 0) → List A → Type 0
All P [] = Unit
All P (x ∷ xs) = P x × All P xs

-- What was found, if anything.
abbrev OfSome : {A : Type 0} → (A → Type 0) → Option A → Type 0
OfSome P none = Unit
OfSome P (some x) = P x

All-append :
    {A : Type 0} (P : A → Type 0) (xs : List A) (y : A) → All P xs → P y → All P (xs ++ (y ∷ []))
All-append P [] y h p = (p, tt)
All-append P (x ∷ xs) y (hx, h) p = (hx, All-append P xs y h p)

module _ (P : DueRef → Type 0) where
  at_index-All : (xs : List DueRef) (i : ℕ) → All P xs → OfSome P (at_index xs i)
  at_index-All [] i h = tt
  at_index-All (x ∷ xs) zero (p, h) = p
  at_index-All (x ∷ xs) (suc i) (p, h) = at_index-All xs i h

  put_index-All :
      (xs : List DueRef) (i : ℕ) (y : DueRef) → P y → All P xs → All P (put_index xs i y)
  put_index-All [] i y q h = tt
  put_index-All (x ∷ xs) zero y q (p, h) = (q, h)
  put_index-All (x ∷ xs) (suc i) y q (p, h) = (p, put_index-All xs i y q h)

  exchanged-All :
      (xs : List DueRef) (i j : ℕ) (a b : Option DueRef)
      → OfSome P a
      → OfSome P b
      → All P xs
      → All P (exchanged xs i j a b)
  exchanged-All xs i j none b p q h = h
  exchanged-All xs i j (some a) none p q h = h
  exchanged-All xs i j (some a) (some b) p q h =
      put_index-All (put_index xs i b) j a p (put_index-All xs i b q h)

  if-All : (b : Bool) (xs ys : List DueRef) → All P xs → All P ys → All P (if b then xs else ys)
  if-All true xs ys h h' = h
  if-All false xs ys h h' = h'

  sift_down-All : (n : ℕ) (xs : List DueRef) (i : ℕ) → All P xs → All P (sift_down n xs i)
  unfolding sift_down
  sift_down-All zero xs i h = h
  sift_down-All (suc n) xs i h =
      let largest = larger xs (2 * i + 2) (larger xs (2 * i + 1) i) in
      if-All (eqb largest i) xs _ h (
        sift_down-All n (swap xs i largest) largest
          (exchanged-All xs i largest _ _ (at_index-All xs i h) (at_index-All xs largest h) h))

  heapify_below-All : (i : ℕ) (xs : List DueRef) → All P xs → All P (heapify_below i xs)
  heapify_below-All zero xs h = h
  heapify_below-All (suc i) xs h = heapify_below-All i _ (sift_down-All (length xs) xs i h)

  replace_top-All :
      (ref : DueRef) (xs : List DueRef) → P ref → All P xs → All P (replace_top ref xs)
  replace_top-All ref [] p h = tt
  replace_top-All ref (x ∷ xs) p (q, h) =
      if-All (worse x ref) _ _ (sift_down-All (length (x ∷ xs)) (ref ∷ xs) 0 (p, h)) (q, h)

  add_candidate-All :
      (limit : ℕ) (ref : DueRef) (heap : List DueRef)
      → P ref
      → All P heap
      → All P (add_candidate limit ref heap)
  unfolding add_candidate heapify
  add_candidate-All limit ref heap p h =
      let grown = All-append P heap ref h p in
      if-All (ltb (length heap) limit) _ _
        (if-All (eqb (length (heap ++ (ref ∷ []))) limit) _ _
          (heapify_below-All (length (heap ++ (ref ∷ [])) / 2) (heap ++ (ref ∷ [])) grown) grown)
        (replace_top-All ref heap p h)

-- A reference that is due, to a commission that agrees with it.
record IsDueRef (d : Data) (due_at : Time) (ref : DueRef) : Type 0 where
  due : ref.at ≤ℤ due_at
  agrees : is_some (due_commission d ref) ≡ true

-- A pending commission that is due by then.
pub record IsDue (due_at : Time) (c : Commission) : Type 0 where
  pub is_pending : same_state c.state pending ≡ true
  pub by_then : c.available_at ≤ℤ due_at

not_after : (a b : ℤ) → not (ltb_ℤ b a) ≡ true → a ≤ℤ b
not_after a b h = ground arith

and-both : (b c : Bool) → (b && c) ≡ true → (b ≡ true) × (c ≡ true)
and-both true c h = (refl, h)
and-both false c h = cc

due_candidates-All :
    (limit : ℕ) (d : Data) (due_at : Time) (refs heap : List DueRef)
    → All (IsDueRef d due_at) heap
    → All (IsDueRef d due_at) (due_candidates limit d due_at refs heap)
unfolding due_candidates
due_candidates-All limit d due_at [] heap h = h
due_candidates-All limit d due_at (ref ∷ refs) heap h =
    due_candidates-All limit d due_at refs _
      (elim (Bool-cases (not (ltb_ℤ due_at ref.at) && is_some (due_commission d ref))) [
        | inl fits ↦
            let (due, agrees) = and-both _ _ fits in
            rw fits (
              add_candidate-All (IsDueRef d due_at) limit ref heap
                (record { due = not_after ref.at due_at due; agrees = agrees }) h)
        | inr other ↦ rw other h
      ])

equal_times : (a b c : ℤ) → (a ==ℤ b) ≡ true → b ≤ℤ c → a ≤ℤ c
equal_times a b c h low = ground (arith, h)

both-pass :
    (a b : Bool) (c : Commission)
    → is_some (if not a || not b then none else some c) ≡ true
    → (a ≡ true) × (b ≡ true)
unfolding is_some
both-pass true true c h = (refl, refl)
both-pass true false c h = cc
both-pass false b c h = cc

-- The commission of a reference that agrees with it.
agreed :
    (due_at at : Time) (o : Option Commission)
    → at ≤ℤ due_at
    → is_some (elim o as (λ _. Option Commission) [
      | none ↦ none
      | some c ↦
          if not (same_state c.state pending) || not (c.available_at ==ℤ at) then none else some c
    ])
      ≡ true
    → OfSome (IsDue due_at) o
agreed due_at at none low h = tt
agreed due_at at (some c) low h =
    let (is_pending, same) = both-pass (same_state c.state pending) (c.available_at ==ℤ at) c h in
    record { is_pending = is_pending; by_then = equal_times c.available_at at due_at same low }

found-next :
    (P : Commission → Type 0) (o : Option Commission) (rest : List Commission)
    → OfSome P o
    → All P rest
    → All P (elim o as (λ _. List Commission) [ none ↦ rest | some c ↦ c ∷ rest ])
found-next P none rest p h = h
found-next P (some c) rest p h = (p, h)

found-All :
    (d : Data) (due_at : Time) (refs : List DueRef)
    → All (IsDueRef d due_at) refs
    → All (IsDue due_at) (found d refs)
found-All d due_at [] h = tt
found-All d due_at (ref ∷ refs) (r, h) =
    found-next (IsDue due_at) (d.commissions ref.id) (found d refs)
      (agreed due_at ref.at (d.commissions ref.id) r.due r.agrees) (found-All d due_at refs h)

insert_sooner-All :
    (P : Commission → Type 0) (c : Commission) (xs : List Commission)
    → P c
    → All P xs
    → All P (insert_sooner c xs)
insert_sooner-All P c [] p h = (p, tt)
insert_sooner-All P c (x ∷ xs) p (q, h) = elim (Bool-cases (sooner x c)) [
  | inl e ↦ rw e (q, insert_sooner-All P c xs p h)
  | inr e ↦ rw e (p, (q, h))
]

by_time-All : (P : Commission → Type 0) (xs : List Commission) → All P xs → All P (by_time xs)
by_time-All P [] h = tt
by_time-All P (x ∷ xs) (p, h) = insert_sooner-All P x (by_time xs) p (by_time-All P xs h)

-- Whatever the heap did and however stale the index is: each commission that `DueWork` returns is
-- pending and due by the time asked for.
pub due_work-AreDue :
    (due_at : Time) (limit : ℤ) → Returns (All (IsDue due_at)) (due_work due_at limit)
unfolding due_work
due_work-AreDue due_at limit = Returns-bind _ _ (λ u. Returns-gets _ (λ d.
    by_time-All (IsDue due_at) (found d (due_candidates _ d due_at d.pending_due []))
      (found-All d due_at _ (due_candidates-All _ d due_at d.pending_due [] tt))))
