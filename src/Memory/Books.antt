-- ===== src/Memory/Books.antt =====
-- The books of the store: each account beside the entries of its user. What an account holds is the
-- sum of what its entries record, and its last entry says the same.
pub mod Entries
pub mod Index
pub mod Pending
use distledger.Base.{ℕ, ◌≡◌, refl, take, Option, some, List, [], ◌∷◌}
use distledger.Base.Int.{ℤ, pos, ◌+ℤ◌, ◌≤ℤ◌, ◌<ℤ◌}
use distledger.Base.Maps.{Map}
use distledger.Account.{Account, LedgerEntry, Bucket, value, delta, after}
use distledger.Account.Exact.{HasInt64}
use distledger.Keys.{UserKey}
use distledger.Memory.Data.{Data}
use distledger.Memory.Reader.{account_or_zero, records}
use distledger.Memory.Undo.{or_nil}
use distledger.Word.{IsInt64}

-- The exact sum of the changes of a bucket.
abbrev pub sum_of : Bucket → List LedgerEntry → ℤ
sum_of b [] = pos 0
sum_of b (e ∷ es) = delta b e +ℤ sum_of b es

-- What the last entry says that a bucket holds.
abbrev pub tail_value : Bucket → List LedgerEntry → ℤ
tail_value b [] = pos 0
tail_value b (e ∷ []) = after b e
tail_value b (e ∷ x ∷ es) = tail_value b (x ∷ es)

-- The changes that the entries record are int64 values, as they are in Go.
abbrev pub AreInt64Entries : List LedgerEntry → Type 0
AreInt64Entries [] = Unit {0}
AreInt64Entries (e ∷ es) = ((b : Bucket) → IsInt64 (delta b e)) × AreInt64Entries es

-- The changes that the first of the entries add up to, however many, are int64 values.
abbrev pub AreRunningInt64 : List LedgerEntry → Type 0
AreRunningInt64 es = (n : ℕ) (b : Bucket) → IsInt64 (sum_of b (take n es))

pub record Balances (a : Account) (es : List LedgerEntry) : Type 0 where
  pub fits : HasInt64 a
  pub sums : AreInt64Entries es → (b : Bucket) → value b a ≡ sum_of b es
  pub tail : (b : Bucket) → tail_value b es ≡ value b a
  pub running : AreInt64Entries es → AreRunningInt64 es

-- The ids ascend from above an anchor, and each names a record that holds it.
abbrev pub IsIndex : {V : Type 0} → (V → ℤ) → Map ℤ V → ℤ → List ℤ → Type 0
IsIndex id_of m a [] = Unit {0}
IsIndex {V} id_of m a (id ∷ ids) =
    (a <ℤ id) × ((v : V) × ((m id ≡ some v) × (id_of v ≡ id))) × IsIndex id_of m id ids

abbrev pub AreUpTo : ℤ → List ℤ → Type 0
AreUpTo last [] = Unit {0}
AreUpTo last (id ∷ ids) = (id ≤ℤ last) × AreUpTo last ids

-- The entries of a user, in the order in which they were written.
abbrev pub entries_of : Map ℤ LedgerEntry → Map UserKey (List ℤ) → UserKey → List LedgerEntry
entries_of ledger by_user key = records ledger (or_nil (by_user key))

pub record AreBalanced (accounts : Map UserKey Account) (ledger : Map ℤ LedgerEntry)
    (by_user : Map UserKey (List ℤ)) (last : ℤ) : Type 0 where
  pub each :
      (key : UserKey)
      → Balances (account_or_zero key (accounts key)) (entries_of ledger by_user key)
  pub started : pos 0 ≤ℤ last
  pub given : (key : UserKey) → AreUpTo last (or_nil (by_user key))
  pub indexed : (key : UserKey) → IsIndex (λ e. e.id) ledger (pos 0) (or_nil (by_user key))

-- The books of a store balance.
abbrev pub IsBalanced : Data → Type 0
IsBalanced d = AreBalanced d.accounts d.ledger d.ledger_by_user d.next_id
