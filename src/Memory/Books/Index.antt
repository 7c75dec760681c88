-- ===== src/Memory/Books/Index.antt =====
-- The ids of a user's entries, which ascend, and each of which names its entry.
use distledger.Base.{◌≡◌, ◌∙◌, List, [], ◌∷◌, ◌++◌}
use distledger.Base.Int.{ℤ, pos, ◌+ℤ◌, ◌≤ℤ◌, int_laws}
use distledger.Base.Maps.{Map, insert}
use distledger.Account.{LedgerEntry}
use distledger.Keys.{int_eq}
use distledger.Memory.Books.{IsIndex, AreUpTo}
use distledger.Memory.Books.Entries.{older, newest}

abbrev IsEntryIndex : Map ℤ LedgerEntry → ℤ → List ℤ → Type 0
IsEntryIndex m a ids = IsIndex (λ (e : LedgerEntry). e.id) m a ids

pub IsIndex-insert :
    (last a : ℤ) (ids : List ℤ) (m : Map ℤ LedgerEntry) (e : LedgerEntry)
    → AreUpTo last ids
    → IsEntryIndex m a ids
    → IsEntryIndex (insert (last +ℤ pos 1) e m) a ids
IsIndex-insert last a [] m e h i = tt
IsIndex-insert last a (id ∷ ids) m e (h, hs) (lt, (v, (found, named)), i) =
    (lt, (v, (older last id m e h ∙ found, named)), IsIndex-insert last id ids m e hs i)

pub IsIndex-snoc :
    (last a : ℤ) (ids : List ℤ) (m : Map ℤ LedgerEntry) (e : LedgerEntry)
    → e.id ≡ last +ℤ pos 1
    → a ≤ℤ last
    → AreUpTo last ids
    → IsEntryIndex m a ids
    → IsEntryIndex (insert (last +ℤ pos 1) e m) a (ids ++ ((last +ℤ pos 1) ∷ []))
IsIndex-snoc last a [] m e id le h i = (omega int_laws, (e, (newest last m e, id)), tt)
IsIndex-snoc last a (x ∷ ids) m e id le (h, hs) (lt, (v, (found, named)), i) =
    (lt, (v, (older last x m e h ∙ found, named)), IsIndex-snoc last x ids m e id h hs i)
