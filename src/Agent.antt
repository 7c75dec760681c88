-- ===== src/Agent.antt =====
-- model.go: agents, and the bindings of buyers to agents.
use distledger.Base.{◌+◌, ℕ, Bool, true, false, not, Option, ◌++◌, if◌then◌else◌}
use distledger.Base.Int.{ℤ, pos}
use distledger.Base.Text.{Text, text}
use distledger.Clock.{Time, is_zero, before}
use distledger.Idem.{i64s}
use distledger.Keys.{UserKey}
use distledger.Money.{Rate}

-- `uint8` types: `unknown n` is n + 3 of the first two, and any other value of a source.
pub data JoinType : Type 0 where
  free reviewed paid : JoinType
  unknown : ℕ → JoinType

pub data AgentStatus : Type 0 where
  inactive active disabled : AgentStatus
  unknown : ℕ → AgentStatus

pub data BindSource : Type 0 where
  link invite_code manual salesperson : BindSource
  unknown : ℕ → BindSource

-- The `Valid` methods.
abbrev pub join_type_valid : JoinType → Bool
join_type_valid (unknown n) = false
join_type_valid _ = true

abbrev pub agent_status_valid : AgentStatus → Bool
agent_status_valid (unknown n) = false
agent_status_valid _ = true

abbrev pub bind_source_valid : BindSource → Bool
bind_source_valid (unknown n) = false
bind_source_valid _ = true

pub record Agent : Type 0 where
  pub key : UserKey
  pub parent_id : ℤ
  pub depth : ℤ
  pub status : AgentStatus
  pub join_type : JoinType
  pub rate_override_bp : Option Rate
  pub created_at : Time
  pub updated_at : Time
  pub version : ℤ

pub record Binding : Type 0 where
  pub id : ℤ
  pub buyer : UserKey
  pub agent_user_id : ℤ
  pub source : BindSource
  pub source_ref : Text
  pub bound_at : Time
  pub expire_at : Time
  pub active : Bool
  pub rebound_from : ℤ
  pub version : ℤ

-- `Binding.Effective`
unfoldable pub effective : Binding → Time → Bool
effective b at =
    if not b.active then false else if is_zero b.expire_at then true else before at b.expire_at

-- `AgentStatus.String`
abbrev pub status_text : AgentStatus → Text
status_text inactive = text "inactive"
status_text active = text "active"
status_text disabled = text "disabled"
status_text (unknown n) = text "AgentStatus(" ++ (i64s (pos (n + 3)) ++ text ")")

abbrev pub is_active : AgentStatus → Bool
is_active active = true
is_active _ = false
