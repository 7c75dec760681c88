-- ===== src/Memory/Books/Pending.antt =====
-- A movement half way: the account of one user has changed, and the entry is not written yet.
use distledger.Base.{
  ◌≡◌, refl, ◌∙◌, ap, false, Option, some, List, [], ◌∷◌, ◌++◌, length, length-append, take-append,
  take-all, leb, leb→le, arith, Bool-cases, inl, inr,
}
use distledger.Base.Int.{ℤ, pos, ◌+ℤ◌, ◌≤ℤ◌, int_laws}
use distledger.Base.Maps.{Map, insert, ◌==◌}
use distledger.Account.{Account, AccountDelta, LedgerEntry, Bucket, value, delta, after}
use distledger.Account.Delta.{delta_value}
use distledger.Account.Exact.{HasInt64, AreSums, AreSums-HasInt64, AreSums-value, value-IsInt64}
use distledger.Keys.{UserKey, user_key_eq, int_eq, user_key_eqb_iff}
use distledger.Memory.Books.{
  sum_of, AreInt64Entries, Balances, AreUpTo, AreRunningInt64, IsIndex, entries_of, AreBalanced,
}
use distledger.Memory.Books.Index.{IsIndex-insert, IsIndex-snoc}
use distledger.Memory.Books.Entries.{
  sum_of-snoc, tail_value-snoc, AreInt64Entries-snoc, AreUpTo-next, AreUpTo-snoc, records-insert,
  records-snoc,
}
use distledger.Memory.Reader.{account_or_zero}
use distledger.Memory.Undo.{or_nil}
use distledger.Word.{IsInt64}

-- The account is ahead of its entries by a change of its buckets.
pub record IsAhead (change : Bucket → ℤ) (a : Account) (es : List LedgerEntry) : Type 0 where
  pub fits : HasInt64 a
  pub sums :
      AreInt64Entries es
      → ((b : Bucket) → IsInt64 (change b))
      → (b : Bucket) → value b a ≡ sum_of b es +ℤ change b
  pub running : AreInt64Entries es → AreRunningInt64 es

pub record IsPending (key : UserKey) (change : Bucket → ℤ) (a : Account)
    (accounts : Map UserKey Account) (ledger : Map ℤ LedgerEntry) (by_user : Map UserKey (List ℤ))
    (last : ℤ) : Type 0 where
  pub stored : accounts key ≡ some a
  pub this : IsAhead change a (entries_of ledger by_user key)
  pub others :
      (k : UserKey)
      → (k == key) ≡ false
      → Balances (account_or_zero k (accounts k)) (entries_of ledger by_user k)
  pub started : pos 0 ≤ℤ last
  pub given : (k : UserKey) → AreUpTo last (or_nil (by_user k))
  pub indexed : (k : UserKey) → IsIndex (λ e. e.id) ledger (pos 0) (or_nil (by_user k))

-- The entry records the change and what the account holds after it.
pub record IsRecord (key : UserKey) (change : Bucket → ℤ) (a : Account) (e : LedgerEntry)
    : Type 0 where
  pub owner : e.key ≡ key
  pub deltas : (b : Bucket) → delta b e ≡ change b
  pub afters : (b : Bucket) → after b e ≡ value b a

pub with_id-IsRecord :
    (key : UserKey) (change : Bucket → ℤ) (a : Account) (e : LedgerEntry) (id : ℤ)
    → IsRecord key change a e
    → IsRecord key change a (record e { id = id })
with_id-IsRecord key change a e id h = record {
  owner = h.owner;
  deltas = λ b. let was = h.deltas b in ground arith;
  afters = λ b. let was = h.afters b in ground arith;
}

running_snoc :
    (es : List LedgerEntry) (e : LedgerEntry)
    → AreRunningInt64 es
    → ((b : Bucket) → IsInt64 (sum_of b (es ++ (e ∷ []))))
    → AreRunningInt64 (es ++ (e ∷ []))
running_snoc es e h now n b = elim (Bool-cases (leb n (length es))) [
  | inl within ↦ rw (take-append n es (e ∷ []) (leb→le n (length es) within)) (h n b)
  | inr past ↦
      let all = length-append es (e ∷ []) in rw (take-all n (es ++ (e ∷ [])) (ground arith)) (now b)
]

IsAhead-Balances :
    (key : UserKey) (change : Bucket → ℤ) (a : Account) (es : List LedgerEntry) (e : LedgerEntry)
    → IsAhead change a es
    → IsRecord key change a e
    → Balances a (es ++ (e ∷ []))
IsAhead-Balances key change a es e h r = record {
  fits = h.fits;
  sums = λ all b.
      let (before, this) = AreInt64Entries-snoc es e all in
      let now = h.sums before (λ c. rw (← r.deltas c) (this c)) b in
      now ∙ rw (sum_of-snoc b es e, r.deltas b);
  tail = λ b. tail_value-snoc b es e ∙ r.afters b;
  running = λ all.
      (let (before, this) = AreInt64Entries-snoc es e all in
        running_snoc es e (h.running before) (λ b.
          rw (sum_of-snoc b es e, r.deltas b, ← (h.sums before (λ c. rw (← r.deltas c) (this c)) b))
            (value-IsInt64 a b h.fits)));
}

-- The entry closes the movement.
pub IsPending-AreBalanced :
    (key : UserKey) (change : Bucket → ℤ) (a : Account) (e : LedgerEntry)
    (accounts : Map UserKey Account) (ledger : Map ℤ LedgerEntry) (by_user : Map UserKey (List ℤ))
    (last : ℤ)
    → IsRecord key change a e
    → e.id ≡ last +ℤ pos 1
    → IsPending key change a accounts ledger by_user last
    → AreBalanced accounts
        (insert (last +ℤ pos 1) e ledger)
        (insert key (or_nil (by_user key) ++ ((last +ℤ pos 1) ∷ [])) by_user)
        (last +ℤ pos 1)
IsPending-AreBalanced key change a e accounts ledger by_user last r id h = record {
  each = λ k. elim (Bool-cases (k == key)) [
    | inl this ↦
        rw
          (
            this,
            (user_key_eqb_iff k key).0 this,
            h.stored,
            records-snoc last (or_nil (by_user key)) ledger e (h.given key),
          )
          (IsAhead-Balances key change a _ e h.this r)
    | inr other ↦
        rw (other, records-insert last (or_nil (by_user k)) ledger e (h.given k)) (h.others k other)
  ];
  given = λ k. elim (Bool-cases (k == key)) [
    | inl this ↦ rw this (AreUpTo-snoc last (or_nil (by_user key)) (h.given key))
    | inr other ↦ rw other (AreUpTo-next last (or_nil (by_user k)) (h.given k))
  ];
  started = (let started = h.started in omega int_laws);
  indexed = λ k. elim (Bool-cases (k == key)) [
    | inl this ↦ rw this (
        IsIndex-snoc last (pos 0) (or_nil (by_user key)) ledger e id h.started (h.given key)
          (h.indexed key))
    | inr other ↦
        rw other
          (IsIndex-insert last (pos 0) (or_nil (by_user k)) ledger e (h.given k) (h.indexed k))
  ];
}

pub IsPending-same :
    (key key' : UserKey) (change change' : Bucket → ℤ) (a : Account)
    (accounts : Map UserKey Account) (ledger : Map ℤ LedgerEntry) (by_user : Map UserKey (List ℤ))
    (last : ℤ)
    → key ≡ key'
    → ((b : Bucket) → change b ≡ change' b)
    → IsPending key change a accounts ledger by_user last
    → IsPending key' change' a accounts ledger by_user last
IsPending-same key key' change change' a accounts ledger by_user last same_key same h =
    rw (← same_key) (record {
      stored = h.stored;
      this = record {
        fits = h.this.fits;
        sums = λ all fits b.
            h.this.sums all (λ c. rw (same c) (fits c)) b
            ∙ ap (λ z. sum_of b (entries_of ledger by_user key) +ℤ z) (same b);
        running = h.this.running;
      };
      others = h.others;
      started = h.started;
      given = h.given;
      indexed = h.indexed;
    })

-- The account that `IncrementAccount` starts from, and the one that it stores.
abbrev pub keyed : UserKey → Account → Account
keyed key a = record a { key = key }

abbrev pub next_version : Account → Account
next_version a = record a { version = a.version +ℤ pos 1 }

value-keyed : (key : UserKey) (a : Account) (b : Bucket) → value b (keyed key a) ≡ value b a
value-keyed key a b = ground arith

value-next_version : (a : Account) (b : Bucket) → value b (next_version a) ≡ value b a
value-next_version a b = ground arith

keyed-HasInt64 : (key : UserKey) (a : Account) → HasInt64 a → HasInt64 (keyed key a)
keyed-HasInt64 key a h = h

next_version-HasInt64 : (a : Account) → HasInt64 a → HasInt64 (next_version a)
next_version-HasInt64 a h = h

next-IsAhead :
    (d : AccountDelta) (a updated : Account) (es : List LedgerEntry)
    → Balances a es
    → AreSums d (keyed d.key a) updated
    → IsAhead (λ b. delta_value b d) (next_version updated) es
next-IsAhead d a updated es h sums = record {
  fits = next_version-HasInt64 updated (AreSums-HasInt64 d (keyed d.key a) updated sums);
  sums = λ all fits b.
      let start = value-IsInt64 (keyed d.key a) b (keyed-HasInt64 d.key a h.fits) in
      value-next_version updated b
      ∙ AreSums-value d (keyed d.key a) updated b start (fits b) sums
      ∙ rw (value-keyed d.key a b, h.sums all b);
  running = h.running;
}

-- A change of an account opens a movement.
pub AreBalanced-IsPending :
    (d : AccountDelta) (cur : Option Account) (updated : Account) (accounts : Map UserKey Account)
    (ledger : Map ℤ LedgerEntry) (by_user : Map UserKey (List ℤ)) (last : ℤ)
    → AreBalanced accounts ledger by_user last
    → accounts d.key ≡ cur
    → AreSums d (keyed d.key (account_or_zero d.key cur)) updated
    → IsPending d.key
        (λ b. delta_value b d)
        (next_version updated)
        (insert d.key (next_version updated) accounts)
        ledger
        by_user
        last
AreBalanced-IsPending d cur updated accounts ledger by_user last h e sums = record {
  stored = rw ((user_key_eqb_iff d.key d.key).1 refl);
  this =
      next-IsAhead d (account_or_zero d.key cur) updated (entries_of ledger by_user d.key)
        (rw (← e) (h.each d.key)) sums;
  others = λ k other. rw other (h.each k);
  started = h.started;
  given = h.given;
  indexed = h.indexed;
}
