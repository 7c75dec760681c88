-- ===== src/Keys.antt =====
-- keys.go: the composite keys, their validation, and key equality as the Go maps use it.
use distledger.Base.{ℕ, ◌≡◌, ◌↔◌, Bool, true, ◌&&◌, ltb, eqb, length, arith}
use distledger.Base.Int.{ℤ, pos, ltb_ℤ, leb_ℤ, ◌==ℤ◌, ==ℤ_iff}
use distledger.Base.Maps.{Eq}
use distledger.Base.Text.{Text, text_eqb, text_eqb_iff}
use distledger.Errors.{field_error, Result, ◌>>◌, fail_if}

abbrev pub max_order_id_len : ℕ
max_order_id_len = 64

abbrev pub max_order_item_id_len : ℕ
max_order_item_id_len = 128

abbrev pub max_idem_key_len : ℕ
max_idem_key_len = 64

abbrev pub max_remark_len : ℕ
max_remark_len = 256

pub record UserKey : Type 0 where
  pub tenant_id : ℤ
  pub user_id : ℤ

pub record OrderKey : Type 0 where
  pub tenant_id : ℤ
  pub order_id : Text

-- `s == ""`
abbrev pub is_empty : Text → Bool
is_empty s = eqb (length s) 0

-- `UserKey.Validate`
abbrev pub validate_user_key : UserKey → Result (Unit {0})
validate_user_key k =
    fail_if (ltb_ℤ k.tenant_id (pos 0)) (field_error "tenant_id")
    >> fail_if (leb_ℤ k.user_id (pos 0)) (field_error "user_id")

-- `OrderKey.Validate`
abbrev pub validate_order_key : OrderKey → Result (Unit {0})
validate_order_key k =
    fail_if (ltb_ℤ k.tenant_id (pos 0)) (field_error "tenant_id")
    >> fail_if (is_empty k.order_id) (field_error "order_id")
    >> fail_if (ltb max_order_id_len (length k.order_id)) (field_error "order_id")

abbrev user_key_eqb : UserKey → UserKey → Bool
user_key_eqb a b = (a.tenant_id ==ℤ b.tenant_id) && (a.user_id ==ℤ b.user_id)

pub user_key_eqb_iff : (a b : UserKey) → (user_key_eqb a b ≡ true) ↔ (a ≡ b)
user_key_eqb_iff a b = ground (arith, ==ℤ_iff a.tenant_id b.tenant_id, ==ℤ_iff a.user_id b.user_id)

abbrev order_key_eqb : OrderKey → OrderKey → Bool
order_key_eqb a b = (a.tenant_id ==ℤ b.tenant_id) && text_eqb a.order_id b.order_id

pub order_key_eqb_iff : (a b : OrderKey) → (order_key_eqb a b ≡ true) ↔ (a ≡ b)
order_key_eqb_iff a b =
    ground (arith, ==ℤ_iff a.tenant_id b.tenant_id, text_eqb_iff a.order_id b.order_id)

instance abbrev pub int_eq : Eq ℤ
int_eq = record { beq = ◌==ℤ◌; beq_iff = ==ℤ_iff }

instance abbrev pub text_eq : Eq Text
text_eq = record { beq = text_eqb; beq_iff = text_eqb_iff }

instance abbrev pub user_key_eq : Eq UserKey
user_key_eq = record { beq = user_key_eqb; beq_iff = user_key_eqb_iff }

instance abbrev pub order_key_eq : Eq OrderKey
order_key_eq = record { beq = order_key_eqb; beq_iff = order_key_eqb_iff }
