-- ===== src/Money/Compare.antt =====
-- money.go: the comparisons of amounts.
use distledger.Base.{Bool, if◌then◌else◌}
use distledger.Base.Int.{ℤ, pos, negsuc, ltb_ℤ, ◌==ℤ◌}
use distledger.Money.{Money}

abbrev is_zero : Money → Bool
is_zero m = m ==ℤ pos 0

abbrev is_positive : Money → Bool
is_positive m = ltb_ℤ (pos 0) m

abbrev is_negative : Money → Bool
is_negative m = ltb_ℤ m (pos 0)

abbrev sign : Money → ℤ
sign m = if ltb_ℤ m (pos 0) then negsuc 0 else if ltb_ℤ (pos 0) m then pos 1 else pos 0

abbrev cmp : Money → Money → ℤ
cmp m o = if ltb_ℤ m o then negsuc 0 else if ltb_ℤ o m then pos 1 else pos 0
