-- ===== src/Memory/DueWork.antt =====
-- reader.go: `DueWork`, which keeps the soonest due references in a heap with the latest on top. The
-- slice under the heap is a list; an index beyond its end is never read.
pub mod Due
use distledger.Base.{
  ℕ, zero, suc, ◌+◌, ◌*◌, ◌/◌, Bool, true, false, not, ◌&&◌, Option, none, some, List, [], ◌∷◌,
  ◌++◌, length, ltb, eqb, if◌then◌else◌,
}
use distledger.Base.Int.{ℤ, pos, pos_part, ltb_ℤ, leb_ℤ, ◌==ℤ◌}
use distledger.Clock.{Time}
use distledger.Commission.{Commission}
use distledger.Memory.Data.{Data, DueRef}
use distledger.Memory.Reader.{due_commission, default_page_limit}
use distledger.Memory.Tx.{Tx, gets, check_ctx, ◌>>◌}

-- `worst`
abbrev pub worse : DueRef → DueRef → Bool
worse a b = if a.at ==ℤ b.at then ltb_ℤ b.id a.id else ltb_ℤ b.at a.at

abbrev at_index : List DueRef → ℕ → Option DueRef
at_index [] i = none
at_index (x ∷ xs) zero = some x
at_index (x ∷ xs) (suc i) = at_index xs i

abbrev put_index : List DueRef → ℕ → DueRef → List DueRef
put_index [] i y = []
put_index (x ∷ xs) zero y = y ∷ xs
put_index (x ∷ xs) (suc i) y = x ∷ put_index xs i y

-- `i < len(refs) && worse(refs[i], refs[j])`
abbrev worse_or_none : Option DueRef → Option DueRef → Bool
worse_or_none (some a) (some b) = worse a b
worse_or_none _ _ = false

abbrev larger : List DueRef → ℕ → ℕ → ℕ
larger refs i j = if worse_or_none (at_index refs i) (at_index refs j) then i else j

abbrev exchanged : List DueRef → ℕ → ℕ → Option DueRef → Option DueRef → List DueRef
exchanged refs i j (some a) (some b) = put_index (put_index refs i b) j a
exchanged refs i j _ _ = refs

abbrev swap : List DueRef → ℕ → ℕ → List DueRef
swap refs i j = exchanged refs i j (at_index refs i) (at_index refs j)

-- `siftDownWorstFirstFrom`: the index grows in every round, so the length of the list is fuel enough.
unfoldable pub sift_down : ℕ → List DueRef → ℕ → List DueRef
sift_down zero refs i = refs
sift_down (suc n) refs i =
    let largest = larger refs (2 * i + 2) (larger refs (2 * i + 1) i) in
    let rest = sift_down n (swap refs i largest) largest in if eqb largest i then refs else rest

-- The loop of `heapifyWorstFirst` below the index `i`.
abbrev heapify_below : ℕ → List DueRef → List DueRef
heapify_below zero refs = refs
heapify_below (suc i) refs = heapify_below i (sift_down (length refs) refs i)

-- `heapifyWorstFirst`
unfoldable pub heapify : List DueRef → List DueRef
heapify refs = heapify_below (length refs / 2) refs

abbrev replace_top : DueRef → List DueRef → List DueRef
replace_top ref [] = []
replace_top ref (top ∷ refs) =
    if worse top ref then sift_down (length (top ∷ refs)) (ref ∷ refs) 0 else top ∷ refs

-- A candidate of the loop of `DueWork`.
unfoldable pub add_candidate : ℕ → DueRef → List DueRef → List DueRef
add_candidate limit ref heap =
    let grown = heap ++ (ref ∷ []) in
    if ltb (length heap) limit
    then if eqb (length grown) limit then heapify grown else grown
    else replace_top ref heap

is_some : {A : Type 0} → Option A → Bool
is_some none = false
is_some (some a) = true

-- The loop of `DueWork`: what is due, and agrees with its commission, is a candidate.
unfoldable pub due_candidates : ℕ → Data → Time → List DueRef → List DueRef → List DueRef
unfolding is_some
due_candidates limit d due_at [] heap = heap
due_candidates limit d due_at (ref ∷ refs) heap = due_candidates limit d due_at refs (
    if not (ltb_ℤ due_at ref.at) && is_some (due_commission d ref)
    then add_candidate limit ref heap
    else heap)

abbrev found : Data → List DueRef → List Commission
found d [] = []
found d (ref ∷ refs) =
    let rest = found d refs in elim (d.commissions ref.id) [ none ↦ rest | some c ↦ c ∷ rest ]

-- The order of the result: by the time of settlement, then by id.
abbrev sooner : Commission → Commission → Bool
sooner a b =
    if a.available_at ==ℤ b.available_at
    then ltb_ℤ a.id b.id
    else ltb_ℤ a.available_at b.available_at

abbrev insert_sooner : Commission → List Commission → List Commission
insert_sooner c [] = c ∷ []
insert_sooner c (x ∷ xs) = if sooner x c then x ∷ insert_sooner c xs else c ∷ x ∷ xs

abbrev by_time : List Commission → List Commission
by_time [] = []
by_time (c ∷ cs) = insert_sooner c (by_time cs)

-- `DueWork`
unfoldable pub due_work : Time → ℤ → Tx (List Commission)
due_work due_at limit = do
  check_ctx
  let n = if leb_ℤ limit (pos 0) then default_page_limit else pos_part limit
  gets (λ d. by_time (found d (due_candidates n d due_at d.pending_due [])))
