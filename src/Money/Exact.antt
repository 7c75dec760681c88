-- ===== src/Money/Exact.antt =====
-- `Money.MulDiv` and `Money.Apply` against the exact quotient.
use distledger.Base.{
  ℕ, ◌-◌, ◌+◌, ◌*◌, ◌%◌, ◌^◌, ◌≤◌, ◌<◌, ◌≡◌, refl, ap, ◌↔◌, ◌⊎◌, ◌∙◌, sym, ltb, ◌||◌, Bool, true,
  false, Option, some, none, inl, inr, Bool-cases, arith, if◌then◌else◌,
}
use distledger.Base.Int.{ℤ, pos, negsuc, pos_part, neg_part, eq_of_parts, ltb_ℤ, ◌==ℤ◌, ◌-ℤ◌, ◌+ℤ◌}
use distledger.Word.{IsInt64, wrap64, neg64}
use distledger.SafeMath.Quotient.{IsRounded, mul_div_iff}
use distledger.SafeMath
use distledger.Errors.{Err, Result, ok, err, overflow}
use distledger.Money.{
  Money, Rounding, rounding_valid, abs_uint64, apply, mul_div, differ, signed_quotient, is_round_up,
  is_round_half_up,
}

abbrev pub magnitude : ℤ → ℕ
magnitude z = pos_part z + neg_part z

pub abs_uint64-eq-magnitude : (v : ℤ) → IsInt64 v → abs_uint64 v ≡ magnitude v
unfolding abs_uint64 wrap64 ◌-ℤ◌ ◌+ℤ◌
abs_uint64-eq-magnitude (pos n) h = ground arith
abs_uint64-eq-magnitude (negsuc n) h = ground arith

neg64_small : (q : ℕ) → q < 2 ^ 63 → (pos_part (neg64 (pos q)) ≡ 0) × (neg_part (neg64 (pos q)) ≡ q)
unfolding wrap64 ◌-ℤ◌
neg64_small q h = ground arith

-- The sign of a quotient of operands of the given signs.
abbrev pub HasSign : Bool → ℤ → Type 0
HasSign true z = pos_part z ≡ 0
HasSign false z = neg_part z ≡ 0

signed_quotient_iff :
    (negative : Bool) (o : Option ℕ) (z : ℤ)
    → (signed_quotient negative o ≡ ok z)
      ↔ ((o ≡ some (magnitude z)) × HasSign negative z × (magnitude z < 2 ^ 63))
signed_quotient_iff negative none z = (λ h. cc, λ h. cc)
signed_quotient_iff true (some q) z = (
  λ h. ground (arith, neg64_small q),
  λ h. ground (arith, neg64_small q, eq_of_parts (neg64 (pos q)) z),
)
signed_quotient_iff false (some q) z =
    (λ h. ground arith, λ h. ground (arith, eq_of_parts (pos q) z))

-- `z` is `m * n / d` rounded as `mode` says, and not the smallest int64: its magnitude is the rounded
-- quotient of the magnitudes and below 2^63, its sign that of the product.
pub record IsQuotient (mode : Rounding) (m n : ℤ) (d : ℕ) (z : ℤ) : Type 0 where
  pub near :
      IsRounded
        (is_round_up mode)
        (is_round_half_up mode)
        (magnitude m * magnitude n)
        d
        (magnitude z)
  pub sign : HasSign (differ (ltb_ℤ m (pos 0)) (ltb_ℤ n (pos 0))) z
  pub fits : magnitude z < 2 ^ 63

IsRounded-zero : (up half : Bool) (d q : ℕ) → 0 < d → IsRounded up half 0 d q ↔ (q ≡ 0)
IsRounded-zero true half d q h = (λ k. grind arith, λ k. rw k (omega arith))
IsRounded-zero false true d q h = (λ k. grind arith, λ k. rw k (omega arith))
IsRounded-zero false false d q h = (λ k. grind arith, λ k. rw k (omega arith))

quotient_iff :
    (a b d : ℕ) (up half negative : Bool) (z : ℤ)
    → 0 < d
    → (signed_quotient negative (SafeMath.mul_div a b d up half) ≡ ok z)
      ↔ (IsRounded up half (a * b) d (magnitude z) × HasSign negative z × (magnitude z < 2 ^ 63))
quotient_iff a b d up half negative z h =
    let by_sign = signed_quotient_iff negative (SafeMath.mul_div a b d up half) z in
    let by_value = mul_div_iff a b d up half (magnitude z) h in
    (
      λ e. let (some_q, sign, fits) = by_sign.0 e in ((by_value.0 some_q).0, sign, fits),
      λ (near, sign, fits). by_sign.1 (by_value.1 (near, omega arith), sign, fits),
    )

product_zero : (m n : ℤ) → ((m ==ℤ pos 0) || (n ==ℤ pos 0)) ≡ true → magnitude m * magnitude n ≡ 0
product_zero m n h = grind arith

HasSign-zero : (b : Bool) → HasSign b (pos 0)
HasSign-zero true = refl
HasSign-zero false = refl

-- Where one operand is 0 the quotient is 0.
zero_iff :
    (mode : Rounding) (m n : ℤ) (d : ℕ) (z : ℤ)
    → 0 < d
    → magnitude m * magnitude n ≡ 0
    → (◌≡◌ {A = Result Money} (ok (pos 0)) (ok z)) ↔ IsQuotient mode m n d z
zero_iff mode m n d z h e =
    let rounded = IsRounded-zero (is_round_up mode) (is_round_half_up mode) d (magnitude z) h in
    (
      λ p.
          let zero : z ≡ pos 0 = cc in
          record {
            near = rw e (rounded.1 (rw zero));
            sign = rw zero (HasSign-zero _);
            fits = rw zero (omega arith);
          },
      λ q. ap ok (
          eq_of_parts (pos 0) z
            (let f : magnitude z ≡ 0 = rounded.0 (rw e at q.near) in omega arith)),
    )

-- Both entry points are this, once their arguments have passed the guards.
abbrev checked_quotient : Rounding → ℤ → ℤ → ℕ → Result Money
checked_quotient mode m n d =
    if (m ==ℤ pos 0) || (n ==ℤ pos 0)
    then ok (pos 0)
    else signed_quotient (differ (ltb_ℤ m (pos 0)) (ltb_ℤ n (pos 0)))
        (SafeMath.mul_div (magnitude m) (magnitude n) d (is_round_up mode) (is_round_half_up mode))

checked_quotient_iff :
    (mode : Rounding) (m n : ℤ) (d : ℕ) (z : ℤ)
    → 0 < d
    → (checked_quotient mode m n d ≡ ok z) ↔ IsQuotient mode m n d z
checked_quotient_iff mode m n d z h = elim (Bool-cases ((m ==ℤ pos 0) || (n ==ℤ pos 0))) [
  | inl e ↦ rw e (zero_iff mode m n d z h (product_zero m n e))
  | inr e ↦ rw e (
      let q =
        quotient_iff (magnitude m) (magnitude n) d (is_round_up mode) (is_round_half_up mode)
          (differ (ltb_ℤ m (pos 0)) (ltb_ℤ n (pos 0))) z h in
      (
        λ p. let (near, sign, fits) = q.0 p in record { near = near; sign = sign; fits = fits },
        λ r. q.1 (r.near, r.sign, r.fits),
      ))
]

signed_quotient-cases :
    (negative : Bool) (o : Option ℕ)
    → ((z : ℤ) × (signed_quotient negative o ≡ ok z)) ⊎ (signed_quotient negative o ≡ err overflow)
signed_quotient-cases negative none = inr refl
signed_quotient-cases negative (some q) = elim (Bool-cases (ltb (2 ^ 63 - 1) q)) [
  | inl large ↦ inr (rw large refl)
  | inr small ↦ inl (if negative then neg64 (pos q) else pos q, rw small refl)
]

checked_quotient-cases :
    (mode : Rounding) (m n : ℤ) (d : ℕ)
    → ((z : ℤ) × (checked_quotient mode m n d ≡ ok z))
      ⊎ (checked_quotient mode m n d ≡ err overflow)
checked_quotient-cases mode m n d = elim (Bool-cases ((m ==ℤ pos 0) || (n ==ℤ pos 0))) [
  | inl e ↦ inl (pos 0, rw e refl)
  | inr e ↦ rw e (
      signed_quotient-cases (differ (ltb_ℤ m (pos 0)) (ltb_ℤ n (pos 0)))
        (SafeMath.mul_div (magnitude m) (magnitude n) d (is_round_up mode) (is_round_half_up mode)))
]

small_mod : (d : ℕ) → d < 2 ^ 63 → d % 2 ^ 64 ≡ d
small_mod d h = omega arith

mul_div_value :
    (m n : ℤ) (d : ℕ) (mode : Rounding)
    → IsInt64 m
    → IsInt64 n
    → 0 < d
    → d < 2 ^ 63
    → rounding_valid mode ≡ true
    → mul_div m n (pos d) mode ≡ checked_quotient mode m n d
unfolding mul_div
mul_div_value m n d mode hm hn h hd valid =
    rw (abs_uint64-eq-magnitude m hm, abs_uint64-eq-magnitude n hn, small_mod d hd, valid)
      (ground arith)

apply_value :
    (m : ℤ) (r : ℕ) (mode : Rounding)
    → IsInt64 m
    → r ≤ 10000
    → rounding_valid mode ≡ true
    → apply m (pos r) mode ≡ checked_quotient mode m (pos r) 10000
unfolding apply
apply_value m r mode hm h valid =
    rw (abs_uint64-eq-magnitude m hm, small_mod r (omega arith), valid) (ground arith)

ok_not_err : {z : ℤ} {e : Err} → ¬ (◌≡◌ {A = Result Money} (ok z) (err e))
ok_not_err p = cc

-- An overflow says that there is no quotient.
overflow_iff :
    (mode : Rounding) (m n : ℤ) (d : ℕ)
    → 0 < d
    → (checked_quotient mode m n d ≡ err overflow) ↔ (¬ ((z : ℤ) × IsQuotient mode m n d z))
overflow_iff mode m n d h = (
  λ e (z, q). ok_not_err (sym ((checked_quotient_iff mode m n d z h).1 q) ∙ e),
  λ none_is. elim (checked_quotient-cases mode m n d) [
    | inl (z, e) ↦ absurd (none_is (z, (checked_quotient_iff mode m n d z h).0 e))
    | inr e ↦ e
  ],
)

-- For int64 operands, a positive denominator and a known mode, `MulDiv` returns `z` exactly when
-- `z` is the exact quotient `m * n / d`, rounded as the mode says, and an int64 other than the
-- smallest one. It reports an overflow exactly when there is no such `z`, also where the rounded
-- quotient is the smallest int64.
pub mul_div_exact :
    (m n : ℤ) (d : ℕ) (mode : Rounding) (z : ℤ)
    → IsInt64 m
    → IsInt64 n
    → 0 < d
    → d < 2 ^ 63
    → rounding_valid mode ≡ true
    → ((mul_div m n (pos d) mode ≡ ok z) ↔ IsQuotient mode m n d z)
      × ((mul_div m n (pos d) mode ≡ err overflow) ↔ (¬ ((y : ℤ) × IsQuotient mode m n d y)))
mul_div_exact m n d mode z hm hn h hd valid =
    rw (mul_div_value m n d mode hm hn h hd valid)
      (checked_quotient_iff mode m n d z h, overflow_iff mode m n d h)

-- For an int64 amount, a rate of 0 to 100 % and a known mode, `Apply` returns `z` exactly when `z`
-- is the exact `m * r / 10000`, rounded as the mode says, and an int64 other than the smallest one.
-- It reports an overflow exactly when there is no such `z`, also where the rounded share is the
-- smallest int64.
pub apply_exact :
    (m : ℤ) (r : ℕ) (mode : Rounding) (z : ℤ)
    → IsInt64 m
    → r ≤ 10000
    → rounding_valid mode ≡ true
    → ((apply m (pos r) mode ≡ ok z) ↔ IsQuotient mode m (pos r) 10000 z)
      × ((apply m (pos r) mode ≡ err overflow) ↔ (¬ ((y : ℤ) × IsQuotient mode m (pos r) 10000 y)))
apply_exact m r mode z hm h valid = rw (apply_value m r mode hm h valid) (
  checked_quotient_iff mode m (pos r) 10000 z (omega arith),
  overflow_iff mode m (pos r) 10000 (omega arith),
)
