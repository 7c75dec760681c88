-- ===== src/SelfCheck/Conservation/Judged.antt =====
-- The judgement on an account, against its entries.
use distledger.Base.{
  ℕ, suc, ◌≡◌, refl, sym, ◌∙◌, ◌↔◌, ◌⊎◌, inl, inr, Bool, Bool-cases, true, ◌&&◌, List, [], ◌∷◌,
  length, arith,
}
use distledger.Base.Int.{pos, ◌≤ℤ◌, int_laws}
use distledger.Account.{
  Account, Bucket, bucket_frozen, bucket_available, bucket_withdrawing, bucket_withdrawn, unknown,
  LedgerEntry, value, after, all_buckets, settleable,
}
use distledger.Account.Delta.{settleable_iff, IsCovered}
use distledger.SelfCheck.Conservation.{
  conservation_violations, each_bucket, check_negative, check_negatives, check_empty, check_sum,
  is_available, no_tally,
}
use distledger.Memory.Books.{sum_of, tail_value}
use distledger.SelfCheck.Conservation.Tallied.{
  from_zero, tallied, value-tallied, tail-tallied, entries-tallied,
}
use distledger.SelfCheck.Results.{InvariantResult}

-- A bucket that a debt may make negative.
abbrev may_owe : Bool → Bucket → Bool
may_owe allow b = allow && is_available b

abbrev pub IsPermitted : Bool → Account → Bucket → Type 0
IsPermitted allow a b = (may_owe allow b ≡ true) ⊎ (pos 0 ≤ℤ value b a)

abbrev ForAll : (Bucket → Type 0) → List Bucket → Type 0
ForAll P [] = Unit {0}
ForAll P (b ∷ bs) = P b × ForAll P bs

-- A loop whose rounds each keep a result exactly where the bucket is as it should be.
each_bucket-is_ok :
    (P : Bucket → Type 0) (f : Bucket → InvariantResult → InvariantResult)
    → ((b : Bucket) (r : InvariantResult) → ((f b r).is_ok ≡ true) ↔ ((r.is_ok ≡ true) × P b))
    → (bs : List Bucket) (r : InvariantResult)
    → ((each_bucket f bs r).is_ok ≡ true) ↔ ((r.is_ok ≡ true) × ForAll P bs)
each_bucket-is_ok P f h [] r = (λ p. (p, tt), λ p. p.0)
each_bucket-is_ok P f h (b ∷ bs) r =
    let (to, from) = each_bucket-is_ok P f h bs (f b r) in
    let (one, back) = h b r in
    (
      λ p. (let q = to p in let q' = one q.0 in (q'.0, (q'.1, q.1))),
      λ (p, (pb, ps)). from (back (p, pb), ps),
    )

check_negative-is_ok :
    (allow : Bool) (a : Account) (b : Bucket) (r : InvariantResult)
    → ((check_negative allow a b r).is_ok ≡ true) ↔ ((r.is_ok ≡ true) × IsPermitted allow a b)
check_negative-is_ok allow a b r = ground arith

check_empty-is_ok :
    (a : Account) (b : Bucket) (r : InvariantResult)
    → ((check_empty a b r).is_ok ≡ true) ↔ ((r.is_ok ≡ true) × (value b a ≡ pos 0))
check_empty-is_ok a b r = ground arith

check_sum-is_ok :
    (a sums : Account) (tail : LedgerEntry) (b : Bucket) (r : InvariantResult)
    → ((check_sum a sums tail b r).is_ok ≡ true)
      ↔ ((r.is_ok ≡ true) × ((value b sums ≡ value b a) × (after b tail ≡ value b a)))
check_sum-is_ok a sums tail b r = ground arith

covered-IsPermitted :
    (allow : Bool) (a : Account) → IsCovered a → ForAll (IsPermitted allow a) all_buckets
covered-IsPermitted allow a (f, v, w, p) = (inr f, (inr v, (inr w, (inr p, tt))))

check_negatives-is_ok :
    (allow : Bool) (a : Account) (r : InvariantResult)
    → ((check_negatives allow a r).is_ok ≡ true)
      ↔ ((r.is_ok ≡ true) × ForAll (IsPermitted allow a) all_buckets)
check_negatives-is_ok allow a r = elim (Bool-cases (settleable a)) [
  | inl covered ↦
      rw covered (λ p. (p, covered-IsPermitted allow a ((settleable_iff a).0 covered)), λ p. p.0)
  | inr short ↦ rw short (
      each_bucket-is_ok (IsPermitted allow a) (check_negative allow a)
        (check_negative-is_ok allow a) all_buckets r)
]

every :
    (P : Bucket → Type 0) → ((n : ℕ) → P (unknown n)) → ForAll P all_buckets → (b : Bucket) → P b
every P other (f, (v, (w, (p, _)))) bucket_frozen = f
every P other (f, (v, (w, (p, _)))) bucket_available = v
every P other (f, (v, (w, (p, _)))) bucket_withdrawing = w
every P other (f, (v, (w, (p, _)))) bucket_withdrawn = p
every P other ps (unknown n) = other n

each_of_four : (P : Bucket → Type 0) → ((b : Bucket) → P b) → ForAll P all_buckets
each_of_four P p =
    (p bucket_frozen, (p bucket_available, (p bucket_withdrawing, (p bucket_withdrawn, tt))))

-- What an account must be to pass: no bucket below zero but where a debt is permitted, and each
-- bucket the sum of the entries and what the last of them says.
pub record IsReconciled (allow : Bool) (a : Account) (es : List LedgerEntry) : Type 0 where
  pub permitted : (b : Bucket) → IsPermitted allow a b
  pub sums : (b : Bucket) → value b a ≡ sum_of b es
  pub tail : (b : Bucket) → tail_value b es ≡ value b a

sum_of-unknown : (n : ℕ) (es : List LedgerEntry) → sum_of (unknown n) es ≡ pos 0
sum_of-unknown n [] = refl
sum_of-unknown n (e ∷ es) = rw (sum_of-unknown n es) (omega int_laws)

tail_value-unknown : (n : ℕ) (es : List LedgerEntry) → tail_value (unknown n) es ≡ pos 0
tail_value-unknown n [] = refl
tail_value-unknown n (e ∷ []) = refl
tail_value-unknown n (e ∷ x ∷ es) = tail_value-unknown n (x ∷ es)

judged_empty :
    (allow : Bool) (a sums : Account) (tail : LedgerEntry) (r : InvariantResult)
    → ((conservation_violations allow a sums tail 0 r).is_ok ≡ true)
      ↔ ((r.is_ok ≡ true) × IsReconciled allow a [])
unfolding conservation_violations
judged_empty allow a sums tail r =
    let (to, from) =
      each_bucket-is_ok (λ b. value b a ≡ pos 0) (check_empty a) (check_empty-is_ok a) all_buckets
        (check_negatives allow a r) in
    let (to', from') = check_negatives-is_ok allow a r in
    (
      λ p.
          (let (q, zeros) = to p in
            let (q', permitted) = to' q in
            (
              q',
              record {
                permitted = every (IsPermitted allow a) (λ n. inr (omega arith)) permitted;
                sums = every (λ b. value b a ≡ pos 0) (λ n. refl) zeros;
                tail = λ b. sym (every (λ b. value b a ≡ pos 0) (λ n. refl) zeros b);
              },
            )),
      λ (p, h). from (
        from' (p, each_of_four (IsPermitted allow a) h.permitted),
        each_of_four (λ b. value b a ≡ pos 0) h.sums,
      ),
    )

judged_some :
    (allow : Bool) (a sums : Account) (tail : LedgerEntry) (n : ℕ) (r : InvariantResult)
    (es : List LedgerEntry)
    → ((b : Bucket) → value b sums ≡ sum_of b es)
    → ((b : Bucket) → after b tail ≡ tail_value b es)
    → ((conservation_violations allow a sums tail (suc n) r).is_ok ≡ true)
      ↔ ((r.is_ok ≡ true) × IsReconciled allow a es)
unfolding conservation_violations
judged_some allow a sums tail n r es summed last =
    let Agrees : Bucket → Type 0 = λ b. (value b sums ≡ value b a) × (after b tail ≡ value b a) in
    let (to, from) =
      each_bucket-is_ok Agrees (check_sum a sums tail) (check_sum-is_ok a sums tail) all_buckets
        (check_negatives allow a r) in
    let (to', from') = check_negatives-is_ok allow a r in
    let unused : (n : ℕ) → Agrees (unknown n) =
      λ n. (summed (unknown n) ∙ sum_of-unknown n es, last (unknown n) ∙ tail_value-unknown n es) in
    (
      λ p.
          (let (q, agree) = to p in
            let (q', permitted) = to' q in
            (
              q',
              record {
                permitted = every (IsPermitted allow a) (λ n. inr (omega arith)) permitted;
                sums = λ b. sym (every Agrees unused agree b).0 ∙ summed b;
                tail = λ b. sym (last b) ∙ (every Agrees unused agree b).1;
              },
            )),
      λ (p, h). from (
        from' (p, each_of_four (IsPermitted allow a) h.permitted),
        each_of_four Agrees (λ b. (summed b ∙ sym (h.sums b), last b ∙ h.tail b)),
      ),
    )

-- The judgement at the end of the loop over the entries of an account.
pub judged :
    (allow : Bool) (a : Account) (es : List LedgerEntry) (r : InvariantResult)
    → ((conservation_violations allow a
          (tallied es no_tally).sums
          (tallied es no_tally).tail
          (tallied es no_tally).entries
          r).is_ok
        ≡ true)
      ↔ ((r.is_ok ≡ true) × IsReconciled allow a es)
judged allow a [] r = judged_empty allow a no_tally.sums no_tally.tail r
judged allow a (e ∷ es) r =
    let t = tallied (e ∷ es) no_tally in
    let counted : t.entries ≡ suc (length es) =
      (let counted = entries-tallied (e ∷ es) no_tally in omega arith) in
    rw counted (
      judged_some allow a t.sums t.tail (length es) r (e ∷ es)
        (λ b. value-tallied b (e ∷ es) no_tally ∙ from_zero b (sum_of b (e ∷ es)))
        (λ b. tail-tallied b e es no_tally))
