-- ===== src/Engine/Atomic.antt =====
-- The undo log as an instance of Engine/Writes.
use distledger.Base.{refl}
use distledger.Account.{Bucket}
use distledger.Clock.{Time}
use distledger.Commission.{Commission}
use distledger.Engine.Accrual.{credit_accrual}
use distledger.Engine.Clawback.{take_debt}
use distledger.Engine.Config.{Ledger}
use distledger.Engine.Writes.{Writes}
use distledger.Engine.Writes.Single.{Singles, move-Keeps, debit_bucket-Keeps}
use distledger.Keys.{UserKey}
use distledger.Memory.Atomic.{
  atomic_rules, append_commission-Tracks, set_commission_reversed_amount-Tracks,
  transition_commission-Tracks, append_ledger-Tracks, append_withdrawal-Tracks,
  transition_withdrawal-Tracks, increment_account-Tracks, set_commission_available_at-Tracks,
  append_refund-Tracks, put_agent-Tracks, put_binding-Tracks,
}
use distledger.Memory.Data.{Data}
use distledger.Memory.Rollback.{Tracks}
use distledger.Memory.Tx.Rules.{Keeps, any_error}
use distledger.Money.{Money}

take_debt-Tracks :
    (d0 : Data) (l : Ledger) (key : UserKey) (bucket : Bucket) (delta : Money) (at : Time)
    → Keeps (Tracks d0) any_error (take_debt l key bucket delta at)
unfolding take_debt
take_debt-Tracks d0 l key bucket delta at = search atomic_rules depth 40

credit_accrual-Tracks :
    (d0 : Data) (c : Commission) (now : Time) → Keeps (Tracks d0) any_error (credit_accrual c now)
unfolding credit_accrual
credit_accrual-Tracks d0 c now = search atomic_rules depth 40

Tracks-Singles : (l : Ledger) (d0 : Data) → Singles l (Tracks d0)
Tracks-Singles l d0 = record {
  recorded = append_ledger-Tracks d0;
  incremented = λ delta guarded. increment_account-Tracks d0 delta;
  indebted = take_debt-Tracks d0 l;
}

pub Tracks-Writes : (l : Ledger) (d0 : Data) → Writes l (Tracks d0) any_error
Tracks-Writes l d0 = record {
  handled = λ e h. refl;
  appended = append_commission-Tracks d0;
  reversed = set_commission_reversed_amount-Tracks d0;
  transitioned = transition_commission-Tracks d0;
  requested = append_withdrawal-Tracks d0;
  decided = transition_withdrawal-Tracks d0;
  moved = λ delta biz_type biz_id remark from debit to credit guarded t.
      move-Keeps (Tracks-Singles l d0) delta biz_type biz_id remark from debit to credit guarded;
  debited = debit_bucket-Keeps (Tracks-Singles l d0);
  credited = λ c now positive. credit_accrual-Tracks d0 c now;
  dated = set_commission_available_at-Tracks d0;
  refunded = append_refund-Tracks d0;
  enrolled = put_agent-Tracks d0;
  attributed = put_binding-Tracks d0;
}
