-- ===== src/Rules/Limits.antt =====
-- The bounds that rule.go fixes.
use distledger.Base.Int.{ℤ, pos}

abbrev pub max_levels : ℤ
max_levels = pos 3

abbrev pub max_freeze_days : ℤ
max_freeze_days = pos 3650

abbrev pub max_bind_expire_days : ℤ
max_bind_expire_days = pos 36500
