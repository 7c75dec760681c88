-- ===== src/SelfCheck/Sorting.antt =====
-- The keys of a Go map, put in order before they are reported. Such keys are all different, so every
-- way to sort them gives the same list.
use distledger.Base.{Bool, true, false, ◌||◌, List, [], ◌∷◌, ltb, eqb, if◌then◌else◌}
use distledger.Base.Int.{ℤ, ltb_ℤ, ◌==ℤ◌}
use distledger.Base.Text.{Text}

module _ {A : Type 0} where
  abbrev insert_by : (A → A → Bool) → A → List A → List A
  insert_by less x [] = x ∷ []
  insert_by less x (y ∷ ys) = if less x y then x ∷ y ∷ ys else y ∷ insert_by less x ys

  -- `sort.Slice`
  abbrev pub sort_by : (A → A → Bool) → List A → List A
  sort_by less [] = []
  sort_by less (x ∷ xs) = insert_by less x (sort_by less xs)

-- `<` on strings
abbrev pub text_ltb : Text → Text → Bool
text_ltb [] [] = false
text_ltb [] (y ∷ ys) = true
text_ltb (x ∷ xs) [] = false
text_ltb (x ∷ xs) (y ∷ ys) = if eqb x y then text_ltb xs ys else ltb x y

-- The ids of a set, in the order in which they were added.
abbrev pub is_among : ℤ → List ℤ → Bool
is_among id [] = false
is_among id (x ∷ xs) = id ==ℤ x || is_among id xs

abbrev pub with_id : ℤ → List ℤ → List ℤ
with_id id ids = if is_among id ids then ids else id ∷ ids

abbrev pub sorted_ids : List ℤ → List ℤ
sorted_ids ids = sort_by ltb_ℤ ids
