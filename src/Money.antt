-- ===== src/Money.antt =====
-- money.go: rates, rounding modes and overflow-checked amounts. `Rate` and `Money` are integers, an
-- int32 and an int64 in Go.
pub mod Exact
pub mod Print
pub mod Parse
pub mod Compare
use distledger.Base.{
  ℕ, ◌+◌, ◌-◌, ◌%◌, ◌^◌, Bool, true, false, not, ◌&&◌, ◌||◌, Option, none, some, ltb, if◌then◌else◌,
}
use distledger.Base.Int.{ℤ, pos, negsuc, ltb_ℤ, leb_ℤ, ◌==ℤ◌}
use distledger.Word.{add64, neg64}
use distledger.SafeMath
use distledger.Errors.{Err, field_error, overflow, Result, ok, err}

abbrev pub Rate : Type 0
Rate = ℤ

abbrev pub Money : Type 0
Money = ℤ

abbrev pub rate_scale : ℕ
rate_scale = 10000

abbrev pub max_rate_bp : Rate
max_rate_bp = pos rate_scale

-- `Rate.Valid`
abbrev pub rate_valid : Rate → Bool
rate_valid r = leb_ℤ (pos 0) r && leb_ℤ r max_rate_bp

-- A `uint8`: `unknown n` is n + 3.
pub data Rounding : Type 0 where
  round_down round_half_up round_up : Rounding
  unknown : ℕ → Rounding

-- `Rounding.Valid`
abbrev pub rounding_valid : Rounding → Bool
rounding_valid (unknown n) = false
rounding_valid _ = true

-- `mode == RoundUp`
abbrev pub is_round_up : Rounding → Bool
is_round_up round_up = true
is_round_up _ = false

-- `mode == RoundHalfUp`
abbrev pub is_round_half_up : Rounding → Bool
is_round_half_up round_half_up = true
is_round_half_up _ = false

-- The checked operations of safemath, with `ErrOverflow`.
abbrev pub or_overflow : Option ℤ → Result Money
or_overflow none = err overflow
or_overflow (some z) = ok z

unfoldable pub add : Money → Money → Result Money
add m o = or_overflow (SafeMath.add m o)

unfoldable pub sub : Money → Money → Result Money
sub m o = or_overflow (SafeMath.sub m o)

unfoldable pub neg : Money → Result Money
neg m = or_overflow (SafeMath.neg m)

-- `uint64(v)`
abbrev pub to_uint64 : ℤ → ℕ
to_uint64 (pos n) = n % 2 ^ 64
to_uint64 (negsuc n) = 2 ^ 64 - 1 - n % 2 ^ 64

-- `absUint64`
unfoldable pub abs_uint64 : ℤ → ℕ
abs_uint64 v =
    if ltb_ℤ v (pos 0) then (to_uint64 (neg64 (add64 v (pos 1))) + 1) % 2 ^ 64 else to_uint64 v

-- The end of `Apply` and of `MulDiv`: `res := int64(q)`, with the sign put back.
abbrev pub signed_quotient : Bool → Option ℕ → Result Money
signed_quotient negative none = err overflow
signed_quotient negative (some q) =
    if ltb (2 ^ 63 - 1) q then err overflow else ok (if negative then neg64 (pos q) else pos q)

unfoldable pub apply : Money → Rate → Rounding → Result Money
apply m r mode =
    let q =
      SafeMath.mul_div (abs_uint64 m) (to_uint64 r) rate_scale (is_round_up mode)
        (is_round_half_up mode) in
    if not (rate_valid r)
    then err (field_error "rate")
    else if not (rounding_valid mode)
    then err (field_error "rounding")
    else if (m ==ℤ pos 0) || (r ==ℤ pos 0)
    then ok (pos 0)
    else signed_quotient (ltb_ℤ m (pos 0)) q

-- `a != b` on Booleans
abbrev pub differ : Bool → Bool → Bool
differ true b = not b
differ false b = b

unfoldable pub mul_div : Money → Money → Money → Rounding → Result Money
mul_div m numerator denominator mode =
    let negative = differ (ltb_ℤ m (pos 0)) (ltb_ℤ numerator (pos 0)) in
    let q =
      SafeMath.mul_div (abs_uint64 m) (abs_uint64 numerator) (to_uint64 denominator)
        (is_round_up mode) (is_round_half_up mode) in
    if leb_ℤ denominator (pos 0)
    then err (field_error "denominator")
    else if not (rounding_valid mode)
    then err (field_error "rounding")
    else if (m ==ℤ pos 0) || (numerator ==ℤ pos 0)
    then ok (pos 0)
    else signed_quotient negative q
