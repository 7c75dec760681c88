-- ===== src/Engine/Config.antt =====
-- ledger.go and rule.go: what a `Ledger` is built from and what it holds. The clock is the instant that
-- `Now` reports during a call and the digest is SHA-256; both come from outside the repository, as
-- do a rate resolver and an eligibility checker of the caller's own.
pub mod Consistent
use distledger.Base.{
  ℕ, Bool, true, false, not, ◌&&◌, Option, none, some, List, [], ◌∷◌, ◌++◌, if◌then◌else◌,
}
use distledger.Base.Int.{ℤ, pos, pos_part, ltb_ℤ, ◌==ℤ◌, ◌-ℤ◌}
use distledger.Base.Text.{Text, text}
use distledger.Agent.{Agent, status_text, is_active}
use distledger.Clock.{Time}
use distledger.Errors.{Result, ok, err, field_error, invalid_config}
use distledger.Keys.{OrderKey}
use distledger.Money.{Rate}
use distledger.Rules.{Rules, normalize, validate}
use distledger.Rules.Snapshot.{rules_version}

pub record RateInput : Type 0 where
  pub order : OrderKey
  pub layer : ℤ
  pub agent : Agent
  pub rules : Rules

pub record EligibilityInput : Type 0 where
  pub agent : Agent
  pub order : OrderKey
  pub buyer_user_id : ℤ

abbrev pub RateResolver : Type 0
RateResolver = RateInput → Result Rate

abbrev pub EligibilityChecker : Type 0
EligibilityChecker = EligibilityInput → Bool × Text

pub record Ledger : Type 0 where
  pub rules : Rules
  pub now : Time
  pub digest : List ℕ → List ℕ
  pub rates : RateResolver
  pub elig : EligibilityChecker
  pub rule_version : ℤ

-- The rate at a position.
abbrev pub rate_at : List Rate → ℕ → Option Rate
rate_at [] i = none
rate_at (r ∷ rs) ℕ.zero = some r
rate_at (r ∷ rs) (ℕ.suc i) = rate_at rs i

abbrev configured_rate : Rules → ℤ → Result Rate
configured_rate rules layer =
    if ltb_ℤ layer (pos 1)
    then err (field_error "layer")
    else elim (rate_at rules.rate_bp (pos_part (layer -ℤ pos 1))) [
      | none ↦ err (field_error "layer")
      | some r ↦ ok r
    ]

-- `defaultRateResolver.ResolveRate`
unfoldable pub default_rates : RateResolver
default_rates inp = elim inp.agent.rate_override_bp [
  | some r ↦ ok r
  | none ↦ configured_rate inp.rules inp.layer
]

-- `defaultEligibility.Eligible`
unfoldable pub default_elig : EligibilityChecker
default_elig inp =
    if not (is_active inp.agent.status)
    then (false, text "agent status is " ++ status_text inp.agent.status)
    else if not (inp.buyer_user_id ==ℤ pos 0) && (inp.agent.key.user_id ==ℤ inp.buyer_user_id)
    then (false, text "self-purchase is not eligible by default")
    else (true, [])

pub record Config : Type 0 where
  pub has_store : Bool
  pub rules : Rules
  pub now : Time
  pub digest : List ℕ → List ℕ
  pub rate_resolver : Option RateResolver
  pub eligibility : Option EligibilityChecker

abbrev resolver_or_default : Option RateResolver → RateResolver
resolver_or_default none = default_rates
resolver_or_default (some r) = r

abbrev checker_or_default : Option EligibilityChecker → EligibilityChecker
checker_or_default none = default_elig
checker_or_default (some c) = c

abbrev ledger_of : Config → Rules → Result (Unit {0}) → Result Ledger
ledger_of cfg rules (err e) = err invalid_config
ledger_of cfg rules (ok u) = ok (record {
  rules = rules;
  now = cfg.now;
  digest = cfg.digest;
  rates = resolver_or_default cfg.rate_resolver;
  elig = checker_or_default cfg.eligibility;
  rule_version = rules_version cfg.digest rules;
})

-- `New`; `none` is a panic of `Normalize`.
unfoldable pub new_ledger : Config → Option (Result Ledger)
new_ledger cfg =
    if not cfg.has_store then some (err (field_error "store")) else elim (normalize cfg.rules) [
      | none ↦ none
      | some rules ↦ some (ledger_of cfg rules (validate rules))
    ]
