-- ===== src/Engine/Clawback.antt =====
-- reversal.go: how much of a commission is reversed, and the movement that reverses it.
use distledger.Base.{Bool, true, false, not, ◌&&◌, ◌||◌, ◌++◌, if◌then◌else◌}
use distledger.Base.Int.{ℤ, pos, ltb_ℤ, leb_ℤ}
use distledger.Base.Text.{Text, text, text_eqb}
use distledger.Account.{
  Account, AccountDelta, Bucket, bucket_frozen, bucket_available, reverse, void, add_to_delta,
  new_ledger_entry,
}
use distledger.Clock.{Time, zero_time}
use distledger.Commission.{
  Commission, CommissionState, pending, frozen, settled, reversed, void, same_state, fully_reversed,
}
use distledger.Engine.Config.{Ledger}
use distledger.Errors.{
  Result, ok, err, insufficient_balance, is_insufficient_balance, transition_error,
}
use distledger.Idem.{i64s, reverse_idem_key}
use distledger.Keys.{UserKey}
use distledger.Memory.Tx.{Tx, Done, pure, raise, lift, recover, ◌>>=◌, ◌>>◌}
use distledger.Memory.Writer.{
  increment_account, append_commission, append_ledger, set_commission_reversed_amount,
  transition_commission,
}
use distledger.Money.{Money, round_down, mul_div}
use distledger.Money.Print.{money_text}
use distledger.Word.{sub64, neg64}

-- What a reversal adds, and the total that is reversed after it. The source's skip reason is
-- `skipped`.
pub data Reversal : Type 0 where
  skipped : Reversal
  step : Money → Money → Reversal

abbrev is_closed_state : CommissionState → Bool
is_closed_state c = same_state c reversed || same_state c void

-- The amount that stands reversed afterwards: all of it when the commission is voided, else the
-- refunded share, at most all of it.
abbrev pub wanted : Commission → Money → Money → CommissionState → Result Money
wanted c cumulative base terminal =
    if same_state terminal void
    then ok c.amount
    else elim (mul_div c.amount cumulative base round_down) [
      | err e ↦ err e
      | ok want ↦ ok (if ltb_ℤ c.amount want then c.amount else want)
    ]

abbrev from_wanted : Commission → Result Money → Reversal
from_wanted c (err e) = step (pos 0) (pos 0)
from_wanted c (ok want) =
    if leb_ℤ want c.reversed_amount
    then step (pos 0) (pos 0)
    else step (sub64 want c.reversed_amount) want

-- `reversalDelta`
unfoldable pub reversal_delta : Commission → Money → Money → CommissionState → Reversal
reversal_delta c cumulative base terminal =
    if is_closed_state c.state
    then skipped
    else if same_state terminal void && leb_ℤ c.amount (pos 0)
    then step (pos 0) (pos 0)
    else from_wanted c (wanted c cumulative base terminal)

-- `reversalBucket`
abbrev pub reversal_bucket : CommissionState → Result Bucket
reversal_bucket pending = ok bucket_frozen
reversal_bucket frozen = ok bucket_frozen
reversal_bucket settled = ok bucket_available
reversal_bucket _ = err (transition_error "commission clawback")

abbrev is_available : Bucket → Bool
is_available bucket_available = true
is_available _ = false

abbrev pub reason_refund : Text
reason_refund = text "refund"

abbrev pub reason_void : Text
reason_void = text "void"

-- The delta of `debitBucket`, guarded or not.
abbrev pub clawback_delta : UserKey → Bucket → Money → Time → Bool → AccountDelta
clawback_delta key bucket delta at guarded = add_to_delta bucket (neg64 delta) (record {
  key = key;
  frozen = pos 0;
  available = pos 0;
  withdrawing = pos 0;
  withdrawn = pos 0;
  total_earned = pos 0;
  total_reversed = delta;
  at = at;
  require_non_negative = guarded;
})

-- The second attempt of `debitBucket`, after the guarded one found the balance too small; the
-- Boolean says that a debt was taken.
unfoldable pub take_debt : Ledger → UserKey → Bucket → Money → Time → Tx (Account × Bool)
take_debt l key bucket delta at =
    if not l.rules.allow_negative || not (is_available bucket)
    then raise insufficient_balance
    else increment_account (clawback_delta key bucket delta at false) >>= λ a. pure (a, true)

abbrev debt_reason : Text → Bool → Text
debt_reason reason true = reason ++ text " (uncovered: money already paid out)"
debt_reason reason false = reason

-- The account that a commission belongs to.
abbrev pub agent_key : Commission → UserKey
agent_key c = record { tenant_id = c.key.tenant_id; user_id = c.agent_user_id }

-- `debitBucket`
unfoldable pub debit_bucket :
    Ledger → Commission → Bucket → Money → Text → ℤ → Money → Money → Time → Tx Done
debit_bucket l original bucket delta reason reversal_id target original_amount at = do
  let key = agent_key original
  (saved, debt) ←
      recover is_insufficient_balance
        (increment_account (clawback_delta key bucket delta at true) >>= λ a. pure (a, false))
        (λ e. take_debt l key bucket delta at)
  let why = debt_reason reason debt
  append_ledger (
      new_ledger_entry key (if text_eqb why reason_void then void else reverse) (i64s reversal_id)
        (why
          ++ (text " order "
              ++ (original.key.order_id
                  ++ (text " layer "
                      ++ (i64s original.layer
                          ++ (text " (reversed "
                              ++ (money_text target
                                  ++ (text " of "
                                      ++ (money_text original_amount ++ text ")")))))))))
        at saved bucket (neg64 delta))
  pure tt

-- The negative record that `clawBack` appends.
abbrev reversal_record : Ledger → Commission → Money → Money → Time → Commission
reversal_record l original delta target at = record {
  id = pos 0;
  key = original.key;
  idem_key =
      reverse_idem_key l.digest original.key original.order_item_id original.agent_user_id
        original.layer target;
  order_item_id = original.order_item_id;
  buyer_user_id = original.buyer_user_id;
  agent_user_id = original.agent_user_id;
  layer = original.layer;
  base_amount = original.base_amount;
  rate = original.rate;
  amount = neg64 delta;
  state = reversed;
  freeze_days = pos 0;
  available_at = zero_time;
  rule_version = original.rule_version;
  rule_snapshot = original.rule_snapshot;
  accrued_at = at;
  settled_at = zero_time;
  reversed_amount = pos 0;
  reverse_of = original.id;
  version = pos 0;
}

-- `clawBack`
unfoldable pub claw_back :
    Ledger → Commission → Money → Money → CommissionState → Text → Time → Tx Commission
claw_back l original delta target terminal reason at = do
  reversal ← append_commission (reversal_record l original delta target at)
  cur ← set_commission_reversed_amount original.id target original.version
  cur ←
      if fully_reversed cur && not (same_state cur.state terminal)
      then transition_commission cur.id cur.state terminal cur.version
      else pure cur
  bucket ← lift (reversal_bucket original.state)
  debit_bucket l original bucket delta reason reversal.id target cur.amount at
  pure reversal
