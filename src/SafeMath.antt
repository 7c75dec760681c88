-- ===== src/SafeMath.antt =====
-- internal/safemath/safemath.go. A pair `(value, ok)` is an option; `bits.Mul64` and `bits.Div64`
-- are the 128-bit product and its division.
pub mod Exact
pub mod Quotient
use distledger.Base.{
  ℕ, ◌+◌, ◌-◌, ◌*◌, ◌/◌, ◌%◌, ◌^◌, Bool, ◌&&◌, ◌||◌, Option, none, some, ltb, leb, eqb,
  if◌then◌else◌,
}
use distledger.Base.Int.{ℤ, pos, ltb_ℤ, ◌==ℤ◌}
use distledger.Word.{min_int64, wrap64, add64, sub64, neg64}

abbrev pub max_uint64 : ℕ
max_uint64 = 2 ^ 64 - 1

-- `q + 1`, unless `q` is the largest uint64.
abbrev step_up : ℕ → Option ℕ
step_up q = if eqb q max_uint64 then none else some (q + 1)

unfoldable pub mul_div : ℕ → ℕ → ℕ → Bool → Bool → Option ℕ
mul_div a b d round_up half_up =
    let hi = a * b / 2 ^ 64 in
    let lo = a * b % 2 ^ 64 in
    let q = (hi * 2 ^ 64 + lo) / d in
    let r = (hi * 2 ^ 64 + lo) % d in
    if eqb d 0
    then none
    else if leb d hi
    then none
    else if eqb r 0
    then some q
    else if round_up
    then step_up q
    else if half_up && leb (d - r) r
    then step_up q
    else some q

unfoldable pub add : ℤ → ℤ → Option ℤ
add a b =
    let s = add64 a b in
    if ltb_ℤ (pos 0) b && ltb_ℤ s a || ltb_ℤ b (pos 0) && ltb_ℤ a s then none else some s

unfoldable pub sub : ℤ → ℤ → Option ℤ
sub a b =
    let d = sub64 a b in
    if ltb_ℤ b (pos 0) && ltb_ℤ d a || ltb_ℤ (pos 0) b && ltb_ℤ a d then none else some d

unfoldable pub neg : ℤ → Option ℤ
neg a = if a ==ℤ min_int64 then none else some (neg64 a)
