-- ===== src/Clock.antt =====
-- time.Time as the Go code uses it: nanoseconds since the zero time, in UTC, so that `UTC()` is the
-- identity and `AddDate(0, 0, n)` adds n times 24 hours.
use distledger.Base.{ℕ, ◌*◌, Bool}
use distledger.Base.Int.{ℤ, pos, pos_part, neg_part, ◌+ℤ◌, sub_ℕ, ltb_ℤ, ◌==ℤ◌}

abbrev pub Time : Type 0
Time = ℤ

-- `time.Time{}`
abbrev pub zero_time : Time
zero_time = pos 0

abbrev pub is_zero : Time → Bool
is_zero t = t ==ℤ pos 0

-- `a.Before(b)`
abbrev pub before : Time → Time → Bool
before a b = ltb_ℤ a b

abbrev day : ℕ
day = 86_400_000_000_000

unfoldable pub add_days : Time → ℤ → Time
add_days t n = t +ℤ sub_ℕ (pos_part n * day) (neg_part n * day)
