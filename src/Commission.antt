-- ===== src/Commission.antt =====
-- model.go and state.go: commissions, the records of refunds, and the table of legal transitions.
pub mod Transitions
use distledger.Base.{
  ℕ, ◌+◌, ◌≡◌, ◌↔◌, arith, Bool, true, false, not, ◌&&◌, ◌||◌, List, [], ◌∷◌, ◌++◌, eqb,
  if◌then◌else◌,
}
use distledger.Base.Int.{ℤ, pos, ltb_ℤ, leb_ℤ, ◌==ℤ◌}
use distledger.Base.Text.{Text, text}
use distledger.Idem.{i64s}
use distledger.Word.{sub64}
use distledger.Clock.{Time, is_zero, before}
use distledger.Errors.{field_error, transition_error, Result, ok, err}
use distledger.Keys.{OrderKey}
use distledger.Money.{Money, Rate}

-- A `uint8`: `retired` is the value 2, and `unknown n` is n + 6.
pub data CommissionState : Type 0 where
  pending settled retired reversed frozen void : CommissionState
  unknown : ℕ → CommissionState

abbrev pub state_code : CommissionState → ℕ
state_code pending = 0
state_code settled = 1
state_code retired = 2
state_code reversed = 3
state_code frozen = 4
state_code void = 5
state_code (unknown n) = n + 6

-- `==` on states
abbrev pub same_state : CommissionState → CommissionState → Bool
same_state a b = eqb (state_code a) (state_code b)

pub same_state_iff : (a b : CommissionState) → (same_state a b ≡ true) ↔ (a ≡ b)
same_state_iff a b = ground arith

-- `CommissionState.String`
abbrev pub state_text : CommissionState → Text
state_text pending = text "pending"
state_text settled = text "settled"
state_text reversed = text "reversed"
state_text frozen = text "frozen"
state_text void = text "void"
state_text retired = text "CommissionState(2)"
state_text (unknown n) = text "CommissionState(" ++ (i64s (pos (n + 6)) ++ text ")")

-- `CommissionState.Valid`
abbrev pub commission_state_valid : CommissionState → Bool
commission_state_valid retired = false
commission_state_valid (unknown n) = false
commission_state_valid _ = true

-- `CommissionState.Terminal`
unfoldable pub commission_terminal : CommissionState → Bool
commission_terminal reversed = true
commission_terminal void = true
commission_terminal _ = false

-- `commissionTransitions`
abbrev commission_transitions : CommissionState → List CommissionState
commission_transitions pending = settled ∷ reversed ∷ frozen ∷ void ∷ []
commission_transitions settled = reversed ∷ []
commission_transitions frozen = pending ∷ void ∷ reversed ∷ []
commission_transitions _ = []

-- The loop of `CanTransitionCommission`.
abbrev listed : CommissionState → List CommissionState → Bool
listed to [] = false
listed to (allowed ∷ rest) = same_state allowed to || listed to rest

unfoldable pub can_transition_commission : CommissionState → CommissionState → Bool
can_transition_commission from to =
    if not (commission_state_valid from) || not (commission_state_valid to)
    then false
    else listed to (commission_transitions from)

unfoldable pub validate_commission_transition :
    CommissionState → CommissionState → Result (Unit {0})
validate_commission_transition from to =
    if not (commission_state_valid from)
    then err (field_error "state")
    else if not (commission_state_valid to)
    then err (field_error "state")
    else if not (can_transition_commission from to)
    then err (transition_error "commission")
    else ok tt

pub record Commission : Type 0 where
  pub id : ℤ
  pub key : OrderKey
  pub idem_key : Text
  pub order_item_id : Text
  pub buyer_user_id : ℤ
  pub agent_user_id : ℤ
  pub layer : ℤ
  pub base_amount : Money
  pub rate : Rate
  pub amount : Money
  pub state : CommissionState
  pub freeze_days : ℤ
  pub available_at : Time
  pub rule_version : ℤ
  pub rule_snapshot : Text
  pub accrued_at : Time
  pub settled_at : Time
  pub reversed_amount : Money
  pub reverse_of : ℤ
  pub version : ℤ

-- `Commission.OutstandingAmount`, raw int64 arithmetic.
unfoldable pub outstanding_amount : Commission → Money
outstanding_amount c = sub64 c.amount c.reversed_amount

-- `Commission.MaxReversible`
unfoldable pub max_reversible : Commission → Money
max_reversible c = if leb_ℤ c.amount (pos 0) then pos 0 else c.amount

-- `Commission.FullyReversed`
unfoldable pub fully_reversed : Commission → Bool
fully_reversed c = ltb_ℤ (pos 0) c.amount && leb_ℤ c.amount c.reversed_amount

-- `Commission.DueAt`
unfoldable pub due_at : Commission → Time → Bool
due_at c at = if is_zero c.available_at then false else not (before at c.available_at)

pub record Refund : Type 0 where
  pub id : ℤ
  pub key : OrderKey
  pub item_id : Text
  pub amount : Money
  pub cumulative : Money
  pub idem_key : Text
  pub refunded_at : Time
