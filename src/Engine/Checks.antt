-- ===== src/Engine/Checks.antt =====
-- The checks that the handlers of ledger.go, payout.go and risk.go make on their arguments.
use distledger.Base.{
  ℕ, Bool, true, false, not, ◌&&◌, ◌||◌, Option, none, some, [], ◌∷◌, length, eqb, leb, ltb,
  if◌then◌else◌,
}
use distledger.Base.Int.{ℤ, pos, ltb_ℤ, leb_ℤ, ◌==ℤ◌}
use distledger.Base.Text.{Text, text}
use distledger.Events.{BindAgentRequest, BindBuyerRequest}
use distledger.Agent.{join_type_valid, agent_status_valid, bind_source_valid}
use distledger.Engine.Config.{Ledger}
use distledger.Errors.{Result, ok, field_error, ◌>>=◌, ◌>>◌, fail_if}
use distledger.Keys.{is_empty, max_idem_key_len, max_order_item_id_len, UserKey, validate_user_key}
use distledger.Money
use distledger.Money.{Money, Rate, Rounding, rate_valid}

pub record WithdrawRequest : Type 0 where
  pub tenant_id : ℤ
  pub user_id : ℤ
  pub amount : Money
  pub idem_key : Text
  pub channel : Text
  pub account_info : Text

abbrev pub max_channel_len : ℕ
max_channel_len = 64

abbrev pub max_reason_len : ℕ
max_reason_len = 128

-- `unicode.IsSpace` on ASCII.
abbrev is_space : ℕ → Bool
is_space c = eqb c 32 || leb 9 c && leb c 13

abbrev starts_with_space : Text → Bool
starts_with_space [] = false
starts_with_space (c ∷ s) = is_space c

abbrev ends_with_space : Text → Bool
ends_with_space [] = false
ends_with_space (c ∷ []) = is_space c
ends_with_space (c ∷ d ∷ s) = ends_with_space (d ∷ s)

-- `strings.TrimSpace(s) == ""`
abbrev pub is_blank : Text → Bool
is_blank [] = true
is_blank (c ∷ s) = is_space c && is_blank s

-- `validateIdemKey`
unfoldable pub validate_idem_key : Text → Result (Unit {0})
validate_idem_key key =
    fail_if (is_empty key) (field_error "idem_key")
    >> fail_if (ltb max_idem_key_len (length key)) (field_error "idem_key")
    >> fail_if (starts_with_space key || ends_with_space key) (field_error "idem_key")

-- `validateReason`
unfoldable pub validate_reason : Text → Result (Unit {0})
validate_reason reason = fail_if (ltb max_reason_len (length reason)) (field_error "reason")

-- The checks of `RejectWithdraw` on its reason.
unfoldable pub validate_rejection : Text → Result (Unit {0})
validate_rejection reason =
    validate_reason reason >> fail_if (is_blank reason) (field_error "reason")

-- `withdrawFee`
unfoldable pub withdraw_fee : Money → Rate → Rounding → Result Money
withdraw_fee amount rate rounding =
    let charged = do
      fee ← Money.apply amount rate rounding
      fail_if (leb_ℤ amount fee) (field_error "fee_rate_bp")
      ok fee
    in if rate ==ℤ pos 0 then ok (pos 0) else charged

-- `channel := req.Channel`, or the name of the manual channel.
abbrev pub channel_or_manual : Text → Text
channel_or_manual channel = if is_empty channel then text "manual" else channel

-- What `RequestWithdraw` does before its transaction; the value is the fee.
unfoldable pub check_request : Ledger → WithdrawRequest → Result Money
check_request l req = do
  fail_if (ltb_ℤ req.tenant_id (pos 0)) (field_error "tenant_id")
  fail_if (leb_ℤ req.user_id (pos 0)) (field_error "user_id")
  fail_if (leb_ℤ req.amount (pos 0)) (field_error "amount")
  validate_idem_key req.idem_key
  fail_if (ltb max_channel_len (length (channel_or_manual req.channel))) (field_error "channel")
  fail_if (ltb_ℤ req.amount l.rules.min_withdraw) (field_error "amount")
  withdraw_fee req.amount l.rules.fee_rate_bp l.rules.rounding

-- `loadScopedWithdrawal`, `loadWithdrawal` and `loadScopedCommission`, on the ids.
unfoldable pub check_scope : ℤ → ℤ → Result (Unit {0})
check_scope tenant_id id =
    fail_if (ltb_ℤ tenant_id (pos 0)) (field_error "tenant_id")
    >> fail_if (leb_ℤ id (pos 0)) (field_error "id")

abbrev rate_or_none_valid : Option Rate → Bool
rate_or_none_valid none = true
rate_or_none_valid (some r) = rate_valid r

-- The guards of `BindAgent`.
abbrev pub check_agent : BindAgentRequest → Result (Unit {0})
check_agent req =
    fail_if (ltb_ℤ req.tenant_id (pos 0)) (field_error "tenant_id")
    >> fail_if (leb_ℤ req.user_id (pos 0)) (field_error "user_id")
    >> fail_if (ltb_ℤ req.parent_id (pos 0)) (field_error "parent_id")
    >> fail_if (req.parent_id ==ℤ req.user_id) (field_error "parent_id")
    >> fail_if (not (join_type_valid req.join_type)) (field_error "join_type")
    >> fail_if (not (agent_status_valid req.status)) (field_error "status")
    >> fail_if (not (rate_or_none_valid req.rate_override_bp)) (field_error "rate_override_bp")

abbrev pub agent_request_key : BindAgentRequest → UserKey
agent_request_key req = record { tenant_id = req.tenant_id; user_id = req.user_id }

abbrev pub buyer_key : BindBuyerRequest → UserKey
buyer_key req = record { tenant_id = req.tenant_id; user_id = req.buyer_user_id }

-- The guards of `BindBuyer`.
abbrev pub check_buyer : BindBuyerRequest → Result (Unit {0})
check_buyer req =
    validate_user_key (buyer_key req)
    >> fail_if (leb_ℤ req.agent_user_id (pos 0)) (field_error "agent_user_id")
    >> fail_if (not (bind_source_valid req.source)) (field_error "source")
    >> fail_if (ltb max_order_item_id_len (length req.source_ref)) (field_error "source_ref")
