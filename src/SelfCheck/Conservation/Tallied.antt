-- ===== src/SelfCheck/Conservation/Tallied.antt =====
-- The sums that the check of an account carries over its entries, against the exact integers.
use distledger.Base.{ℕ, suc, take, ◌+◌, ◌≡◌, refl, List, [], ◌∷◌, length, ◌∙◌, arith}
use distledger.Base.Int.{ℤ, ◌+ℤ◌, +ℤ_zero, int_laws}
use distledger.Account.{
  Account, Bucket, bucket_frozen, bucket_available, bucket_withdrawing, bucket_withdrawn, unknown,
  LedgerEntry, value, set, delta, after, all_buckets,
}
use distledger.Errors.{ok}
use distledger.Memory.Books.{AreInt64Entries, AreRunningInt64, sum_of, tail_value}
use distledger.Memory.Tx.{TxState, lift, ◌>>=◌}
use distledger.Money
use distledger.SafeMath.Exact.{add_exact}
use distledger.SelfCheck.Conservation.{Tally, no_tally, add_deltas, tally_entry}
use distledger.SelfCheck.Pages.{each_of}
use distledger.Word.{IsInt64}

-- The sums with an entry added to each bucket, exactly.
abbrev pub plus : LedgerEntry → Account → Account
plus e a = record a {
  frozen = a.frozen +ℤ delta bucket_frozen e;
  available = a.available +ℤ delta bucket_available e;
  withdrawing = a.withdrawing +ℤ delta bucket_withdrawing e;
  withdrawn = a.withdrawn +ℤ delta bucket_withdrawn e;
}

abbrev pub tallied : List LedgerEntry → Tally → Tally
tallied [] t = t
tallied (e ∷ es) t = tallied es (record { sums = plus e t.sums; tail = e; entries = t.entries + 1 })

abbrev pub AreInt64Sums : Account → Type 0
AreInt64Sums a = (b : Bucket) → IsInt64 (value b a)

-- The changes of the entries are int64 values, and so are the sums after each of them.
abbrev pub AreSummable : Account → List LedgerEntry → Type 0
AreSummable a [] = AreInt64Sums a
AreSummable a (e ∷ es) =
    AreInt64Sums a × ((b : Bucket) → IsInt64 (delta b e)) × AreSummable (plus e a) es

pub summable_now : (a : Account) (es : List LedgerEntry) → AreSummable a es → AreInt64Sums a
summable_now a [] h = h
summable_now a (e ∷ es) h = h.0

add_assoc : (x y z : ℤ) → x +ℤ y +ℤ z ≡ x +ℤ (y +ℤ z)
add_assoc x y z = omega int_laws

value-plus :
    (b : Bucket) (e : LedgerEntry) (a : Account) → value b (plus e a) ≡ value b a +ℤ delta b e
value-plus bucket_frozen e a = refl
value-plus bucket_available e a = refl
value-plus bucket_withdrawing e a = refl
value-plus bucket_withdrawn e a = refl
value-plus (unknown n) e a = omega int_laws

sum_fits : (x y : ℤ) → IsInt64 x → IsInt64 y → IsInt64 (x +ℤ y) → Money.add x y ≡ ok (x +ℤ y)
unfolding Money.add
sum_fits x y hx hy h = rw (add_exact x y hx hy) (ground arith)

add_deltas-next :
    (e : LedgerEntry) (b : Bucket) (bs : List Bucket) (a : Account) (sum : ℤ)
    → Money.add (value b a) (delta b e) ≡ ok sum
    → add_deltas e (b ∷ bs) a ≡ add_deltas e bs (set b a sum)
unfolding add_deltas
add_deltas-next e b bs a sum h = rw (h, add_deltas) refl

add_deltas-plus :
    (e : LedgerEntry) (a : Account)
    → AreInt64Sums a
    → ((b : Bucket) → IsInt64 (delta b e))
    → AreInt64Sums (plus e a)
    → add_deltas e all_buckets a ≡ ok (plus e a)
unfolding add_deltas
add_deltas-plus e a ha he h =
    let total : (b : Bucket) → IsInt64 (value b a +ℤ delta b e) =
      λ b. let eq = value-plus b e a in let fits = h b in ground arith in
    let added : Bucket → ℤ = λ b. value b a +ℤ delta b e in
    let fits : (b : Bucket) → Money.add (value b a) (delta b e) ≡ ok (added b) =
      λ b. sum_fits (value b a) (delta b e) (ha b) (he b) (total b) in
    let a1 = set bucket_frozen a (added bucket_frozen) in
    let a2 = set bucket_available a1 (added bucket_available) in
    let a3 = set bucket_withdrawing a2 (added bucket_withdrawing) in
    add_deltas-next e bucket_frozen (bucket_available ∷ bucket_withdrawing ∷ bucket_withdrawn ∷ [])
      a (added bucket_frozen) (fits bucket_frozen)
    ∙ (add_deltas-next e bucket_available (bucket_withdrawing ∷ bucket_withdrawn ∷ []) a1
          (added bucket_available) (fits bucket_available)
        ∙ (add_deltas-next e bucket_withdrawing (bucket_withdrawn ∷ []) a2
              (added bucket_withdrawing) (fits bucket_withdrawing)
            ∙ add_deltas-next e bucket_withdrawn [] a3 (added bucket_withdrawn)
                (fits bucket_withdrawn)))

pub tally_entry-plus :
    (e : LedgerEntry) (t : Tally)
    → AreInt64Sums t.sums
    → ((b : Bucket) → IsInt64 (delta b e))
    → AreInt64Sums (plus e t.sums)
    → tally_entry e t ≡ ok (record { sums = plus e t.sums; tail = e; entries = t.entries + 1 })
unfolding tally_entry
tally_entry-plus e t ht he h = rw (add_deltas-plus e t.sums ht he h, tally_entry) refl

-- The loop ends with the exact sums.
pub each_of-tallied :
    (es : List LedgerEntry) (t : Tally) (st : TxState)
    → AreSummable t.sums es
    → each_of (λ e t. lift (tally_entry e t)) es t st ≡ (ok (tallied es t), st)
unfolding each_of ◌>>=◌
each_of-tallied [] t st h = refl
each_of-tallied (e ∷ es) t st (ht, he, h) =
    rw (tally_entry-plus e t ht he (summable_now (plus e t.sums) es h))
      (each_of-tallied es (record { sums = plus e t.sums; tail = e; entries = t.entries + 1 }) st h)

pub value-tallied :
    (b : Bucket) (es : List LedgerEntry) (t : Tally)
    → value b (tallied es t).sums ≡ value b t.sums +ℤ sum_of b es
value-tallied b [] t = omega int_laws
value-tallied b (e ∷ es) t =
    rw (value-tallied b es (record { sums = plus e t.sums; tail = e; entries = t.entries + 1 }))
      (rw (value-plus b e t.sums) (omega int_laws))

pub tail-tallied :
    (b : Bucket) (e : LedgerEntry) (es : List LedgerEntry) (t : Tally)
    → after b (tallied (e ∷ es) t).tail ≡ tail_value b (e ∷ es)
tail-tallied b e [] t = refl
tail-tallied b e (x ∷ es) t =
    tail-tallied b x es (record { sums = plus e t.sums; tail = e; entries = t.entries + 1 })

pub entries-tallied :
    (es : List LedgerEntry) (t : Tally) → (tallied es t).entries ≡ t.entries + length es
entries-tallied [] t = omega arith
entries-tallied (e ∷ es) t =
    rw (entries-tallied es (record { sums = plus e t.sums; tail = e; entries = t.entries + 1 }))
      (omega arith)

-- Entries whose running sums fit can be added up, from nothing.
pub running-AreSummable :
    (es : List LedgerEntry) (a : Account)
    → AreInt64Entries es
    → ((n : ℕ) (b : Bucket) → IsInt64 (value b a +ℤ sum_of b (take n es)))
    → AreSummable a es
running-AreSummable [] a h run = λ b. rw (← +ℤ_zero (value b a)) (run 0 b)
running-AreSummable (e ∷ es) a (he, h) run = (
  λ b. rw (← +ℤ_zero (value b a)) (run 0 b),
  he,
  running-AreSummable es (plus e a) h (λ n b.
      rw (value-plus b e a, add_assoc (value b a) (delta b e) (sum_of b (take n es)))
        (run (suc n) b)),
)

pub from_zero : (b : Bucket) (s : ℤ) → value b no_tally.sums +ℤ s ≡ s
from_zero bucket_frozen s = omega int_laws
from_zero bucket_available s = omega int_laws
from_zero bucket_withdrawing s = omega int_laws
from_zero bucket_withdrawn s = omega int_laws
from_zero (unknown n) s = omega int_laws

pub AreSummable-from_zero :
    (es : List LedgerEntry) → AreInt64Entries es → AreRunningInt64 es → AreSummable no_tally.sums es
AreSummable-from_zero es h run =
    running-AreSummable es no_tally.sums h
      (λ n b. rw (from_zero b (sum_of b (take n es))) (run n b))
