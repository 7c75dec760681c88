-- ===== src/SafeMath/Quotient.antt =====
-- `MulDiv` against the exact quotient.
use native.Mathlib.Decide.{dec_lt}
use native.Mathlib.Nat.{div-add-mod', mod-lt, le-div_iff_mul-le}
use distledger.Base.{
  ℕ, suc, ◌+◌, ◌-◌, ◌*◌, ◌/◌, ◌%◌, ◌^◌, ◌≤◌, ◌<◌, ◌≡◌, ◌↔◌, ◌&&◌, Bool, true, false, Option, none,
  some, ◌⊎◌, ◌≢◌, sym, ◌∙◌, inl, inr, arith, leb, eqb, if◌then◌else◌,
}
use distledger.SafeMath.{mul_div, step_up}

-- `q` is `n / d` under the flags: the least number not below it, the nearest (a half goes up), or
-- the greatest not above it.
abbrev pub IsRounded : Bool → Bool → ℕ → ℕ → ℕ → Type 0
IsRounded true half n d q = (n ≤ q * d) × (q * d < n + d)
IsRounded false true n d q = (2 * (q * d) ≤ 2 * n + d) × (2 * n < 2 * (q * d) + d)
IsRounded false false n d q = (q * d ≤ n) × (n < q * d + d)

mul_step : (p q d : ℕ) → q < p → q * d + d ≤ p * d
mul_step p q d h = grind arith

-- What `MulDiv` does once the quotient and the remainder are known.
abbrev choose : Bool → Bool → ℕ → ℕ → ℕ → Option ℕ
choose up half d q r =
    if eqb r 0
    then some q
    else if up
    then step_up q
    else if half && leb (d - r) r
    then step_up q
    else some q

half_value :
    (d q r p : ℕ)
    → r < d
    → choose false true d q r ≡ some p
    → ((p ≡ q) × (2 * r < d)) ⊎ ((p ≡ suc q) × (d ≤ 2 * r) × (q ≢ 2 ^ 64 - 1))
half_value d q r p hr h = ground arith

up_value :
    (half : Bool) (d q r p : ℕ)
    → choose true half d q r ≡ some p
    → ((p ≡ q) × (r ≡ 0)) ⊎ ((p ≡ suc q) × (0 < r) × (q ≢ 2 ^ 64 - 1))
up_value half d q r p h = ground arith

choose_sound :
    (up half : Bool) (n d q r p : ℕ)
    → n ≡ q * d + r
    → r < d
    → q < 2 ^ 64
    → choose up half d q r ≡ some p
    → IsRounded up half n d p × (p < 2 ^ 64)
choose_sound true half n d q r p e hr hq h = elim (up_value half d q r p h) [
  | inl (same, exact) ↦ rw (same, e) (omega arith)
  | inr (next, more, room) ↦ rw (next, e) (omega arith)
]
choose_sound false true n d q r p e hr hq h = elim (half_value d q r p hr h) [
  | inl (same, low) ↦ rw (same, e) (omega arith)
  | inr (next, high, room) ↦ rw (next, e) (omega arith)
]
choose_sound false false n d q r p e hr hq h = grind arith

choose_complete :
    (up half : Bool) (n d q r p : ℕ)
    → n ≡ q * d + r
    → r < d
    → IsRounded up half n d p
    → p < 2 ^ 64
    → choose up half d q r ≡ some p
choose_complete true half n d q r p e hr h hp =
    grind (arith, mul_step p q d, mul_step q p d, mul_step p (suc q) d)
choose_complete false true n d q r p e hr h hp =
    grind (arith, mul_step p q d, mul_step q p d, mul_step p (suc q) d)
choose_complete false false n d q r p e hr h hp = grind (arith, mul_step p q d, mul_step q p d)

two_limbs : (n : ℕ) → n / 2 ^ 64 * 2 ^ 64 + n % 2 ^ 64 ≡ n
two_limbs n = omega arith

-- The high limb reaches the divisor exactly when the quotient leaves 64 bits.
high_limb : (n d : ℕ) → 0 < d → (d ≤ n / 2 ^ 64) ↔ (2 ^ 64 ≤ n / d)
high_limb n d h = (
  λ k. (le-div_iff_mul-le {x = 2 ^ 64} {y = n} h).1 (omega arith),
  λ k. let m : 2 ^ 64 * d ≤ n = (le-div_iff_mul-le {x = 2 ^ 64} {y = n} h).0 k in omega arith,
)

rounded_at_least :
    (up half : Bool) (n d q r p : ℕ) → n ≡ q * d + r → r < d → IsRounded up half n d p → q ≤ p
rounded_at_least true half n d q r p e hr h = grind (arith, mul_step q p d)
rounded_at_least false true n d q r p e hr h = grind (arith, mul_step q p d)
rounded_at_least false false n d q r p e hr h = grind (arith, mul_step q p d)

-- The code on the product `n`, with the limbs put together.
module _ (n d : ℕ) (up half : Bool) (h : 0 < d) where
  guarded : Option ℕ
  guarded =
      if eqb d 0
      then none
      else if leb d (n / 2 ^ 64)
      then none
      else choose up half d (n / d) (n % d)

  guarded_small : n / d < 2 ^ 64 → guarded ≡ choose up half d (n / d) (n % d)
  unfolding guarded
  guarded_small k = ground (arith, high_limb n d h)

  guarded_large : 2 ^ 64 ≤ n / d → guarded ≡ none
  unfolding guarded
  guarded_large k = ground (arith, high_limb n d h)

  guarded_iff : (q : ℕ) → (guarded ≡ some q) ↔ (IsRounded up half n d q × (q < 2 ^ 64))
  guarded_iff q = elim (dec_lt (n / d) (2 ^ 64)) [
    | yes small ↦ (
      λ e.
          choose_sound up half n d (n / d) (n % d) q whole (mod-lt n h) small
            (sym (guarded_small small) ∙ e),
      λ k.
          guarded_small small
          ∙ choose_complete up half n d (n / d) (n % d) q whole (mod-lt n h) k.0 k.1,
    )
    | no big ↦ (
      λ e. cc (guarded_large (omega arith)),
      λ k. absurd (
          omega
            (arith, rounded_at_least up half n d (n / d) (n % d) q whole (mod-lt n h) k.0, k.1)),
    )
  ]
    where
      whole : n ≡ n / d * d + n % d
      whole = sym (div-add-mod' n d)

-- For a positive divisor, `MulDiv` returns `q` exactly when `q` is the product divided by the
-- divisor, rounded as the flags say, and a uint64; so it reports an overflow only when it must.
pub mul_div_iff :
    (a b d : ℕ) (up half : Bool) (q : ℕ)
    → 0 < d
    → (mul_div a b d up half ≡ some q) ↔ (IsRounded up half (a * b) d q × (q < 2 ^ 64))
unfolding mul_div guarded
mul_div_iff a b d up half q h = rw (two_limbs (a * b)) (guarded_iff (a * b) d up half h q)
