-- ===== src/Memory/Books/Entries.antt =====
-- An entry that is written behind the others of its user.
use distledger.Base.{◌≡◌, refl, some, List, [], ◌∷◌, ◌++◌, arith}
use distledger.Base.Int.{ℤ, pos, ◌+ℤ◌, ◌≤ℤ◌, int_laws, +ℤ_parts}
use distledger.Base.Maps.{Map, insert}
use distledger.Account.{LedgerEntry, Bucket, delta, after}
use distledger.Keys.{int_eq, user_key_eq}
use distledger.Memory.Books.{sum_of, tail_value, AreInt64Entries, AreUpTo}
use distledger.Memory.Reader.{records}
use distledger.Word.{IsInt64}

pub sum_of-snoc :
    (b : Bucket) (es : List LedgerEntry) (e : LedgerEntry)
    → sum_of b (es ++ (e ∷ [])) ≡ sum_of b es +ℤ delta b e
sum_of-snoc b [] e = omega int_laws
sum_of-snoc b (x ∷ es) e = rw (sum_of-snoc b es e) (omega int_laws)

pub tail_value-snoc :
    (b : Bucket) (es : List LedgerEntry) (e : LedgerEntry)
    → tail_value b (es ++ (e ∷ [])) ≡ after b e
tail_value-snoc b [] e = refl
tail_value-snoc b (x ∷ []) e = refl
tail_value-snoc b (x ∷ y ∷ es) e = tail_value-snoc b (y ∷ es) e

pub AreInt64Entries-snoc :
    (es : List LedgerEntry) (e : LedgerEntry)
    → AreInt64Entries (es ++ (e ∷ []))
    → AreInt64Entries es × ((b : Bucket) → IsInt64 (delta b e))
AreInt64Entries-snoc [] e (h, u) = (tt, h)
AreInt64Entries-snoc (x ∷ es) e (hx, h) =
    let (hs, he) = AreInt64Entries-snoc es e h in ((hx, hs), he)

pub AreUpTo-next : (last : ℤ) (ids : List ℤ) → AreUpTo last ids → AreUpTo (last +ℤ pos 1) ids
AreUpTo-next last [] h = tt
AreUpTo-next last (id ∷ ids) (h, hs) = (omega int_laws, AreUpTo-next last ids hs)

pub AreUpTo-snoc :
    (last : ℤ) (ids : List ℤ)
    → AreUpTo last ids
    → AreUpTo (last +ℤ pos 1) (ids ++ ((last +ℤ pos 1) ∷ []))
AreUpTo-snoc last [] h = (omega arith, tt)
AreUpTo-snoc last (id ∷ ids) (h, hs) = (omega int_laws, AreUpTo-snoc last ids hs)

pub older :
    (last id : ℤ) (m : Map ℤ LedgerEntry) (e : LedgerEntry)
    → id ≤ℤ last
    → insert (last +ℤ pos 1) e m id ≡ m id
older last id m e h = ground (arith, +ℤ_parts last (pos 1))

pub newest :
    (last : ℤ) (m : Map ℤ LedgerEntry) (e : LedgerEntry)
    → insert (last +ℤ pos 1) e m (last +ℤ pos 1) ≡ some e
newest last m e = ground arith

records-next :
    (m m' : Map ℤ LedgerEntry) (id : ℤ) (ids ids' : List ℤ) (es : List LedgerEntry)
    → m' id ≡ m id
    → records m' ids' ≡ records m ids ++ es
    → records m' (id ∷ ids') ≡ records m (id ∷ ids) ++ es
records-next m m' id ids ids' es h hs = ground arith

-- The ids that were given out before still name their entries.
pub records-insert :
    (last : ℤ) (ids : List ℤ) (m : Map ℤ LedgerEntry) (e : LedgerEntry)
    → AreUpTo last ids
    → records (insert (last +ℤ pos 1) e m) ids ≡ records m ids
records-insert last [] m e h = refl
records-insert last (id ∷ ids) m e (h, hs) =
    let same = older last id m e h in let rest = records-insert last ids m e hs in ground arith

pub records-snoc :
    (last : ℤ) (ids : List ℤ) (m : Map ℤ LedgerEntry) (e : LedgerEntry)
    → AreUpTo last ids
    → records (insert (last +ℤ pos 1) e m) (ids ++ ((last +ℤ pos 1) ∷ []))
      ≡ records m ids ++ (e ∷ [])
records-snoc last [] m e h = let this = newest last m e in ground arith
records-snoc last (id ∷ ids) m e (h, hs) =
    records-next m (insert (last +ℤ pos 1) e m) id ids (ids ++ ((last +ℤ pos 1) ∷ [])) (e ∷ [])
      (older last id m e h) (records-snoc last ids m e hs)
