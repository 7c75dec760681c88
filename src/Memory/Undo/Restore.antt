-- ===== src/Memory/Undo/Restore.antt =====
-- Each kind of undo record, and what it restores.
use distledger.Base.{
  ℕ, ◌≤◌, ◌≡◌, true, false, arith, none, some, List, [], ◌∷◌, ◌++◌, length, take, take-append,
  take-length, length-append, Option-cases, inl, inr,
}
use distledger.Base.Maps.{Eq, Map, insert}
use distledger.Memory.Undo.{
  UndoMap, AppendIndex, OrderedUndo, save, restore_map, or_nil, note_append_index,
  restore_append_index, note_append, note_structural, restore,
}

-- The undo map `u` leads from the map `m` back to `m0`.
abbrev pub MapTracks : {K V : Type 0} → UndoMap K V → Map K V → Map K V → Type 0
MapTracks {K} u m0 m = (k : K) → restore_map u m k ≡ m0 k

pub MapTracks-write :
    {K V : Type 0} ⦃e : Eq K⦄ (u : UndoMap K V) (m0 m : Map K V) (j : K) (v : V)
    → MapTracks u m0 m
    → MapTracks (save j m u) m0 (insert j v m)
MapTracks-write ⦃e⦄ u m0 m j v h k = ground (arith, h k, h j, e.beq_iff k j)

pub record IndexTracks {K T : Type 0} (u : Map K AppendIndex) (m0 m : Map K (List T)) : Type 0 where
  pub restored : (k : K) → restore_append_index u m k ≡ m0 k
  pub room : (k : K) (s : AppendIndex) → u k ≡ some s → s.length ≤ length (or_nil (m k))

pub record LengthTracks {T : Type 0} (n : ℕ) (xs0 xs : List T) : Type 0 where
  pub restored : take n xs ≡ xs0
  pub room : n ≤ length xs

pub LengthTracks-push :
    {T : Type 0} (n : ℕ) (xs0 xs : List T) (x : T)
    → LengthTracks n xs0 xs
    → LengthTracks n xs0 (xs ++ x ∷ [])
LengthTracks-push n xs0 xs x h = record {
  restored = rw (take-append n xs (x ∷ []) h.room) h.restored;
  room = omega (arith, h.room, length-append xs (x ∷ []));
}

pub record OrderedTracks {T : Type 0} (u : OrderedUndo T) (xs0 xs : List T) : Type 0 where
  pub restored : restore u xs ≡ xs0
  pub room : u.saved ≡ true → u.full ≡ none → u.length ≤ length xs
  pub fresh : u.saved ≡ false → u.full ≡ none

pub OrderedTracks-push :
    {T : Type 0} (u : OrderedUndo T) (xs0 xs : List T) (x : T)
    → OrderedTracks u xs0 xs
    → OrderedTracks (note_append u xs) xs0 (xs ++ x ∷ [])
OrderedTracks-push u xs0 xs x h = ground (
  arith,
  take-append u.length xs (x ∷ []),
  take-append (length xs) xs (x ∷ []),
  take-length xs,
  length-append xs (x ∷ []),
)

pub OrderedTracks-change :
    {T : Type 0} (u : OrderedUndo T) (xs0 xs ys : List T)
    → OrderedTracks u xs0 xs
    → OrderedTracks (note_structural u xs) xs0 ys
OrderedTracks-change u xs0 xs ys h = ground arith

index_restored :
    {K T : Type 0} ⦃e : Eq K⦄ (u : Map K AppendIndex) (m0 m : Map K (List T)) (j : K) (x : T)
    (k : K)
    → IndexTracks u m0 m
    → restore_append_index (note_append_index j m u) (insert j (or_nil (m j) ++ x ∷ []) m) k ≡ m0 k
index_restored ⦃e⦄ u m0 m j x k h = elim (Option-cases (u j)) [
  | inl new ↦ ground (
    arith,
    h.restored k,
    h.restored j,
    e.beq_iff k j,
    take-length (or_nil (m j)),
    take-append (length (or_nil (m j))) (or_nil (m j)) (x ∷ []),
  )
  | inr (s, old) ↦ ground (
    arith,
    h.restored k,
    h.restored j,
    h.room j s old,
    e.beq_iff k j,
    take-append s.length (or_nil (m j)) (x ∷ []),
  )
]

index_room :
    {K T : Type 0} ⦃e : Eq K⦄ (u : Map K AppendIndex) (m0 m : Map K (List T)) (j : K) (x : T)
    (k : K) (s : AppendIndex)
    → IndexTracks u m0 m
    → note_append_index j m u k ≡ some s
    → s.length ≤ length (or_nil (insert j (or_nil (m j) ++ x ∷ []) m k))
index_room ⦃e⦄ u m0 m j x k s h p =
    ground (arith, h.room k s, h.room j s, e.beq_iff k j, length-append (or_nil (m j)) (x ∷ []))

pub IndexTracks-push :
    {K T : Type 0} ⦃e : Eq K⦄ (u : Map K AppendIndex) (m0 m : Map K (List T)) (j : K) (x : T)
    → IndexTracks u m0 m
    → IndexTracks (note_append_index j m u) m0 (insert j (or_nil (m j) ++ x ∷ []) m)
IndexTracks-push u m0 m j x h = record {
  restored = λ k. index_restored u m0 m j x k h;
  room = λ k s. index_room u m0 m j x k s h;
}
