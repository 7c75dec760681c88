-- ===== src/Engine/Config/Consistent.antt =====
-- The rules of a ledger that `New` has built.
use distledger.Base.{◌≡◌, ◌↔◌, ◌∙◌, sym, ap, refl, true, some}
use distledger.Engine.Config.{Ledger, Config, new_ledger, ledger_of}
use distledger.Errors.{Result, ok, err}
use distledger.Rules.{Rules, normalize, validate}
use distledger.Rules.Validated.{IsConsistent, validate-IsConsistent}
use distledger.Rules.Validated.Complete.{IsConsistent-validate}

ledger_of-IsConsistent :
    (cfg : Config) (rules : Rules) (v : Result (Unit {0})) (l : Ledger)
    → validate rules ≡ v
    → ledger_of cfg rules v ≡ ok l
    → IsConsistent l.rules
ledger_of-IsConsistent cfg rules (err e) l h p = cc
ledger_of-IsConsistent cfg rules (ok tt) l h p =
    let same : rules ≡ l.rules = cc in rw same at (validate-IsConsistent rules h)

-- `New` with a store, on rules whose missing fields have been filled in.
new_ledger-normalized :
    (cfg : Config) (r : Rules)
    → cfg.has_store ≡ true
    → normalize cfg.rules ≡ some r
    → new_ledger cfg ≡ some (ledger_of cfg r (validate r))
unfolding new_ledger
new_ledger-normalized cfg r h n = rw (h, n) refl

validated :
    (cfg : Config) (r : Rules) (v : Result (Unit {0}))
    → v ≡ ok tt
    → (l : Ledger) × ((ledger_of cfg r v ≡ ok l) × (l.rules ≡ r))
validated cfg r (err e) h = cc
validated cfg r (ok u) h = (_, (refl, refl))

some-injective : {A : Type 0} {x y : A} → some x ≡ some y → x ≡ y
some-injective p = cc

-- Where a configuration has a store, and `Normalize` fills its rules in to `r`, `New` returns a ledger
-- with these rules exactly when they have one to three levels, a rate of 0 to 100 % for each, a known
-- rounding mode, days of freezing and of a binding within their limits, and rates that sum to at most
-- the cap, which is above 0 and at most 100 %, whatever the fee rate and the least withdrawal are.
pub new_ledger_iff :
    (cfg : Config) (r : Rules)
    → cfg.has_store ≡ true
    → normalize cfg.rules ≡ some r
    → ((l : Ledger) × (new_ledger cfg ≡ some (ok l)) × (l.rules ≡ r)) ↔ IsConsistent r
new_ledger_iff cfg r h n =
    let built = new_ledger-normalized cfg r h n in
    (
      λ (l, e, same).
          rw (← same)
            (ledger_of-IsConsistent cfg r (validate r) l refl (some-injective (sym built ∙ e))),
      λ c. (
        (validated cfg r (validate r) (IsConsistent-validate r c)).0,
        built ∙ ap some (validated cfg r (validate r) (IsConsistent-validate r c)).1.0,
        (validated cfg r (validate r) (IsConsistent-validate r c)).1.1,
      ),
    )
