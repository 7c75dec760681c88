-- ===== src/SafeMath/Exact.antt =====
-- `Add`, `Sub` and `Neg` against the exact integers.
use distledger.Base.{◌≡◌, Option, none, some, arith, if◌then◌else◌}
use distledger.Base.Int.{ℤ, pos, negsuc, ◌+ℤ◌, ◌-ℤ◌}
use distledger.Word.{IsInt64, fits_int64, wrap64}
use distledger.SafeMath.{add, sub, neg}

-- The exact result, where it is an int64.
abbrev pub checked : ℤ → Option ℤ
checked z = if fits_int64 z then some z else none

-- For two int64 values `Add` returns the exact sum when that is an int64, and reports an
-- overflow otherwise.
pub add_exact : (a b : ℤ) → IsInt64 a → IsInt64 b → add a b ≡ checked (a +ℤ b)
unfolding add wrap64 ◌+ℤ◌
add_exact (pos a) (pos b) ha hb = ground arith
add_exact (pos a) (negsuc b) ha hb = ground arith
add_exact (negsuc a) (pos b) ha hb = ground arith
add_exact (negsuc a) (negsuc b) ha hb = ground arith

-- For two int64 values `Sub` returns the exact difference when that is an int64, and reports an
-- overflow otherwise.
pub sub_exact : (a b : ℤ) → IsInt64 a → IsInt64 b → sub a b ≡ checked (a -ℤ b)
unfolding sub wrap64 ◌-ℤ◌
sub_exact (pos a) (pos b) ha hb = ground arith
sub_exact (pos a) (negsuc b) ha hb = ground arith
sub_exact (negsuc a) (pos b) ha hb = ground arith
sub_exact (negsuc a) (negsuc b) ha hb = ground arith

-- For an int64 value `Neg` returns the exact negation when that is an int64, and reports an overflow
-- otherwise.
pub neg_exact : (a : ℤ) → IsInt64 a → neg a ≡ checked (pos 0 -ℤ a)
unfolding neg wrap64 ◌-ℤ◌
neg_exact (pos a) ha = ground arith
neg_exact (negsuc a) ha = ground arith
