-- ===== src/Base/Maps.antt =====
-- Go maps as functions into `Option`, over keys with a Boolean equality.
use distledger.Base.Tests.{if◌then◌else◌}
use mathlib.Core.Path.{◌≡◌}
use mathlib.Core.Logic.{◌↔◌}
use mathlib.Core.Bool.{Bool, true}
use mathlib.Core.Option.{Option, none, some}

-- The equality of keys.
pub record Eq (K : Type 0) : Type 0 where
  pub beq : K → K → Bool
  pub beq_iff : (j k : K) → (beq j k ≡ true) ↔ (j ≡ k)

abbrev pub Map : Type 0 → Type 0 → Type 0
Map K V = K → Option V

module _ {K V : Type 0} where
  abbrev pub empty_map : Map K V
  empty_map k = none

module _ {K : Type 0} ⦃e : Eq K⦄ where
  infix 50 ◌==◌
  abbrev pub ◌==◌ : K → K → Bool
  j == k = e.beq j k

module _ {K V : Type 0} ⦃e : Eq K⦄ where
  -- `m[k] = v`
  abbrev pub insert : K → V → Map K V → Map K V
  insert k v m j = if j == k then some v else m j
