-- ===== src/Engine/Settle.antt =====
-- settle.go: a round of settlement, which moves due commissions to the available balance.
use distledger.Base.{ℕ, ◌+◌, Bool, true, false, ◌||◌, List, [], ◌∷◌, ◌++◌, if◌then◌else◌}
use distledger.Base.Int.{ℤ, pos, leb_ℤ}
use distledger.Base.Text.{text}
use distledger.Account.{AccountDelta, settle, bucket_frozen, bucket_available}
use distledger.Clock.{Time}
use distledger.Commission.{Commission, pending, settled, outstanding_amount}
use distledger.Engine.Clawback.{agent_key}
use distledger.Engine.Movement.{move}
use distledger.Errors.{Result, ok, err, is_conflict}
use distledger.Idem.{i64s}
use distledger.Keys.{UserKey}
use distledger.Memory.Reader.{due_commissions}
use distledger.Memory.Store.{Ctx, Store, update}
use distledger.Memory.Tx.{Tx, pure, lift, recover, ◌>>=◌, ◌>>◌}
use distledger.Memory.Writer.{transition_commission}
use distledger.Money.{Money, add}
use distledger.Word.{neg64}

abbrev pub settle_delta : UserKey → Money → Time → AccountDelta
settle_delta key outstanding now = record {
  key = key;
  frozen = neg64 outstanding;
  available = outstanding;
  withdrawing = pos 0;
  withdrawn = pos 0;
  total_earned = pos 0;
  total_reversed = pos 0;
  at = now;
  require_non_negative = true;
}

-- `settleOne`
unfoldable pub settle_one : Commission → Money → Time → Tx Bool
settle_one c outstanding now = do
  transition_commission c.id pending settled c.version
  move (settle_delta (agent_key c) outstanding now) settle (i64s c.id)
      (text "settle order " ++ (c.key.order_id ++ (text " layer " ++ i64s c.layer))) bucket_frozen
      (neg64 outstanding) bucket_available outstanding
  pure true

-- The counters of one round of `maintainTenant`.
pub record Round : Type 0 where
  pub count : ℕ
  pub amount : Money
  pub quarantined : List ℤ

abbrev no_round : Round
no_round = record { count = 0; amount = pos 0; quarantined = [] }

abbrev pub counted : Round → Money → Bool → Result Round
counted r outstanding false = ok r
counted r outstanding true = elim (add r.amount outstanding) [
  | err e ↦ err e
  | ok total ↦ ok (record r { count = r.count + 1; amount = total })
]

-- One commission of the batch. A conflict, which another settlement has won, is no progress.
unfoldable pub settle_due : Time → Commission → Round → Tx Round
settle_due now c r =
    if leb_ℤ c.amount (pos 0) || leb_ℤ (outstanding_amount c) (pos 0)
    then pure (record r { quarantined = r.quarantined ++ (c.id ∷ []) })
    else (do
      done ← recover is_conflict (settle_one c (outstanding_amount c) now) (λ e. pure false)
      lift (counted r (outstanding_amount c) done))

unfoldable pub settle_batch : Time → List Commission → Round → Tx Round
settle_batch now [] r = pure r
settle_batch now (c ∷ cs) r = do r ← settle_due now c r; settle_batch now cs r

-- The transaction of one round: at most `limit` due commissions of the tenant.
unfoldable pub maintain_tx : ℤ → Time → ℤ → Tx Round
maintain_tx tenant_id now limit = do
  due ← due_commissions tenant_id now limit
  settle_batch now due no_round

-- One round, in its own transaction.
unfoldable pub maintain_round : ℤ → Time → ℤ → Ctx → Store → Result Round × Store
maintain_round tenant_id now limit ctx s = update ctx (maintain_tx tenant_id now limit) s
