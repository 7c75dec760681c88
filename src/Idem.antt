-- ===== src/Idem.antt =====
-- idem.go: idempotency keys. `digest` is SHA-256, which is a parameter.
pub mod Encoding
use Prim.Native.String.{String}
use distledger.Base.{
  true, false, not, ℕ, zero, suc, ◌+◌, ◌/◌, ◌%◌, ◌^◌, ◌*◌, Bool, ◌&&◌, ◌||◌, List, [], ◌∷◌, ◌++◌,
  length, take, ltb, leb, eqb, if◌then◌else◌, ◌-◌,
}
use distledger.Base.Int.{ℤ, pos, negsuc, ltb_ℤ, ◌==ℤ◌}
use distledger.Base.Text.{Text, text}
use distledger.Errors.{Result, ok, err, field_error, fail_if, ◌>>◌}
use distledger.Keys.{OrderKey, is_empty, max_idem_key_len}
use distledger.Money.{Money, abs_uint64}

-- The loop of `i64s`: the digits of `u`, put in front of those already written. A uint64 has at
-- most 20 digits, the size of the buffer.
unfoldable pub digits_from : ℕ → ℕ → Text → Text
digits_from zero u out = out
digits_from (suc n) u out =
    let rest = digits_from n (u / 10) ((b'0' + u % 10) ∷ out) in if eqb u 0 then out else rest

-- `i64s`, and `strconv.FormatInt(v, 10)` alike.
unfoldable pub i64s : ℤ → Text
unfolding digits_from
i64s v =
    if v ==ℤ pos 0
    then text "0"
    else if ltb_ℤ v (pos 0)
    then b'-' ∷ digits_from 20 (abs_uint64 v) []
    else digits_from 20 (abs_uint64 v) []

-- The `n` lowest bytes of a number, the highest first.
abbrev big_endian : ℕ → ℕ → List ℕ
big_endian zero v = []
big_endian (suc n) v = (v / 256 ^ n % 256) ∷ big_endian n v

-- What `hashParts` feeds to the hash: each part behind its length in 8 bytes.
unfoldable pub encode_parts : List Text → List ℕ
encode_parts [] = []
encode_parts (p ∷ ps) = big_endian 8 (length p) ++ (p ++ encode_parts ps)

abbrev hex_digit : ℕ → ℕ
hex_digit n = if ltb n 10 then b'0' + n else b'a' + (n - 10)

-- `hex.EncodeToString`
abbrev hex : List ℕ → Text
hex [] = []
hex (b ∷ bs) = hex_digit (b / 16) ∷ hex_digit (b % 16) ∷ hex bs

module _ (digest : List ℕ → List ℕ) where
  -- `hashParts`
  unfoldable pub hash_parts : List Text → Text
  hash_parts parts = hex (take 16 (digest (encode_parts parts)))

  unfoldable pub accrue_idem_key : OrderKey → Text → ℤ → ℤ → Text → Text
  accrue_idem_key order item_id agent_user_id layer override =
      if is_empty override
      then hash_parts (
          text "v1"
          ∷ text "accrue"
          ∷ i64s order.tenant_id
          ∷ order.order_id
          ∷ item_id
          ∷ i64s agent_user_id
          ∷ i64s layer
          ∷ [])
      else hash_parts (
          text "v1"
          ∷ text "user"
          ∷ i64s order.tenant_id
          ∷ override
          ∷ order.order_id
          ∷ item_id
          ∷ i64s agent_user_id
          ∷ i64s layer
          ∷ [])

  unfoldable pub reverse_idem_key : OrderKey → Text → ℤ → ℤ → Money → Text
  reverse_idem_key order item_id agent_user_id layer target = hash_parts (
      text "v1"
      ∷ text "reverse"
      ∷ i64s order.tenant_id
      ∷ order.order_id
      ∷ item_id
      ∷ i64s agent_user_id
      ∷ i64s layer
      ∷ i64s target
      ∷ [])

  unfoldable pub withdraw_idem_key : ℤ → Text → Text
  withdraw_idem_key tenant_id caller_key =
      hash_parts (text "v1" ∷ text "withdraw" ∷ i64s tenant_id ∷ caller_key ∷ [])

  unfoldable pub refund_idem_key : OrderKey → Text → Text → Text
  refund_idem_key order item_id caller_key = hash_parts (
      text "v1" ∷ text "refund" ∷ i64s order.tenant_id ∷ order.order_id ∷ item_id ∷ caller_key ∷ [])

-- The bytes that a caller's key may hold.
abbrev is_key_byte : ℕ → Bool
is_key_byte c =
    leb b'a' c && leb c b'z'
    || (leb b'A' c && leb c b'Z'
        || (leb b'0' c && leb c b'9' || (eqb c b'-' || (eqb c b'_' || (eqb c b'.' || eqb c b':')))))

abbrev all_key_bytes : Text → Bool
all_key_bytes [] = true
all_key_bytes (c ∷ s) = is_key_byte c && all_key_bytes s

-- `validateIdemKeyOverride`
unfoldable pub validate_idem_key_override : Text → Result (Unit {0})
validate_idem_key_override raw =
    fail_if (is_empty raw) (field_error "idem_key")
    >> fail_if (ltb max_idem_key_len (length raw)) (field_error "idem_key")
    >> fail_if (not (all_key_bytes raw)) (field_error "idem_key")
