-- ===== src/Engine/Balanced.antt =====
-- Books that balance, as an instance of Engine/Writes. They do so after a success and after the errors
-- that a handler catches; behind any other error the transaction is rolled back.
use distledger.Base.{◌≡◌, refl, Bool, true, false, Option, [], arith}
use distledger.Base.Int.{ℤ, pos, ◌+ℤ◌, ◌-ℤ◌, int_laws}
use distledger.Base.Text.{Text}
use distledger.Account.{
  Account, AccountDelta, Bucket, bucket_frozen, unknown, LedgerBizType, accrue, LedgerEntry,
  add_delta, apply_delta, new_ledger_entry, delta, zero_account,
}
use distledger.Clock.{Time, zero_time}
use distledger.Commission.{Commission}
use distledger.Engine.Accrual.{credit_delta, credit_accrual}
use distledger.Engine.Clawback.{agent_key, clawback_delta, take_debt, debit_bucket}
use distledger.Engine.Config.{Ledger}
use distledger.Engine.Movement.{move}
use distledger.Engine.Movement.Transfer.{IsTransfer, recorded, no_key}
use distledger.Money.{Money}
use distledger.Word.{neg64, wrap64-IsInt64}
use distledger.Account.Entry.{delta-new_ledger_entry}
use distledger.Account.Delta.{delta_value}
use distledger.Account.Exact.{apply_delta-AreSums}
use distledger.Engine.Writes.{Writes}
use distledger.Errors.{
  Err, Stop, err, ok, is_handled, is_insufficient_balance, insufficient_balance,
}
use distledger.Keys.{UserKey, validate_user_key, user_key_eq}
use distledger.Memory.Books.{AreBalanced}
use distledger.Memory.Books.Entries.{AreUpTo-next}
use distledger.Memory.Books.Pending.{
  IsPending, IsPending-same, IsRecord, with_id-IsRecord, IsPending-AreBalanced,
  AreBalanced-IsPending, keyed, next_version,
}
use distledger.Memory.Elsewhere.{
  Books, OfBooks, Grows, insert_account_id-OfBooks, append_commission-OfBooks,
  set_commission_reversed_amount-OfBooks, transition_commission-OfBooks, append_withdrawal-OfBooks,
  transition_withdrawal-OfBooks, set_commission_available_at-OfBooks, append_refund-OfBooks,
  put_agent-OfBooks, put_binding-OfBooks,
}
use distledger.Memory.Tx.{
  pure, ◌>>=◌, fresh_id, set_account, set_ledger, push_ledger_id, push_ledger_by_user,
  push_ledger_by_tenant,
}
use distledger.Memory.Tx.Leads.{
  Leads, Falls, Leads-bind, Leads-bind-lift, Leads-bind-quiet, Leads-bind-gets, Leads-bind-raise_if,
  Leads-bind-quiet_if, Leads-bind-check_ctx, Leads-pure, Leads-raise, Leads-Keeps, Leads-if,
  Leads-recover, Leads-weaken, Keeps-Leads,
}
use distledger.Memory.Tx.Rules.{Kept, Keeps, Keeps-if, Keeps-pure}
use distledger.Memory.Writer.{increment_account, append_ledger, write_entry}
use distledger.Memory.Reader.{account_or_zero}

pub AreBalanced-Grows : Grows AreBalanced
AreBalanced-Grows = record {
  at = λ accounts ledger by_user id h. record {
    each = h.each;
    started = (let started = h.started in omega int_laws);
    given = λ key. AreUpTo-next id _ (h.given key);
    indexed = h.indexed;
  };
}

abbrev Balanced : Kept
Balanced = OfBooks AreBalanced

-- The account of the key has changed by the delta, and its entry is to come.
abbrev Opened : AccountDelta → Account → Kept
Opened d a = OfBooks (IsPending d.key (λ b. delta_value b d) a)

-- Balanced, and the account of the key is known.
abbrev Known : UserKey → Option Account → Books
Known key cur accounts ledger by_user last =
    AreBalanced accounts ledger by_user last × (accounts key ≡ cur)

stopped-unhandled : (e : Stop) → is_handled (Err.stopped e) ≡ false
stopped-unhandled e = refl

falls-same : (P : Kept) → Falls P P
falls-same P u d h = h

Known-Balanced : (key : UserKey) (cur : Option Account) → Falls (OfBooks (Known key cur)) Balanced
Known-Balanced key cur u d h = record { on = h.on.0 }

set_account-Opened :
    (d : AccountDelta) (cur : Option Account) (updated : Account)
    → apply_delta d (keyed d.key (account_or_zero d.key cur)) ≡ ok updated
    → Leads
        (OfBooks (Known d.key cur))
        is_handled
        Balanced
        (λ u. Opened d (next_version updated))
        (set_account d.key (next_version updated))
unfolding set_account
set_account-Opened d cur updated e = record {
  at = λ s h. record {
    on =
        AreBalanced-IsPending d cur updated s.store.accounts s.store.ledger s.store.ledger_by_user
          s.store.next_id h.on.0 h.on.1
          (apply_delta-AreSums d (keyed d.key (account_or_zero d.key cur)) updated e);
  };
}

gets-Known :
    (key : UserKey) (cur : Option Account)
    → Falls (λ u d. Balanced u d × (d.accounts key ≡ cur)) (OfBooks (Known key cur))
gets-Known key cur u d h = record { on = (h.0.on, h.1) }

increment_account-Opened :
    (d : AccountDelta) → Leads Balanced is_handled Balanced (λ a. Opened d a) (increment_account d)
unfolding increment_account
increment_account-Opened d = Leads-bind-check_ctx _ stopped-unhandled (
    Leads-bind-lift _ _ (falls-same Balanced) (λ valid e. Leads-bind-gets _ _ (λ cur.
      Leads-weaken _ (gets-Known d.key cur) (
        Leads-bind-lift _ _ (Known-Balanced d.key cur) (λ updated sum.
          Leads-bind-raise_if _ _ _ (Known-Balanced d.key cur) (
            Leads-bind (λ u. OfBooks (Known d.key cur)) _ _
              (Leads-Keeps _
                (Keeps-if _ _ _ (λ p. Keeps-pure tt) (λ p. insert_account_id-OfBooks d.key))
                (Known-Balanced d.key cur))
              (λ u.
                Leads-bind (λ u. Opened d (next_version updated)) _ _
                  (set_account-Opened d cur updated sum)
                  (λ u. Leads-pure (next_version updated) (falls-same _)))))))))

valid_key-unhandled :
    (key : UserKey) (e : Err) → validate_user_key key ≡ err e → is_handled e ≡ false
valid_key-unhandled key e h = ground arith

write_entry-Balanced :
    (change : Bucket → ℤ) (a : Account) (e : LedgerEntry)
    → IsRecord e.key change a e
    → Leads (OfBooks (IsPending e.key change a)) is_handled Balanced (λ e. Balanced) (write_entry e)
unfolding write_entry fresh_id set_ledger push_ledger_id push_ledger_by_user push_ledger_by_tenant
    ◌>>=◌ pure
write_entry-Balanced change a e r = record {
  at = λ s h. record {
    on =
        IsPending-AreBalanced e.key change a (record e { id = s.store.next_id +ℤ pos 1 })
          s.store.accounts s.store.ledger s.store.ledger_by_user s.store.next_id
          (with_id-IsRecord e.key change a e _ r) refl h.on;
  };
}

own_key :
    (key : UserKey) (change : Bucket → ℤ) (a : Account) (e : LedgerEntry)
    → IsRecord key change a e
    → Falls (OfBooks (IsPending key change a)) (OfBooks (IsPending e.key change a))
own_key key change a e r u d h = record { on = rw r.owner h.on }

append_ledger-Balanced :
    (key : UserKey) (change : Bucket → ℤ) (a : Account) (e : LedgerEntry)
    → IsRecord key change a e
    → Leads (OfBooks (IsPending key change a)) is_handled Balanced (λ e. Balanced) (append_ledger e)
unfolding append_ledger
append_ledger-Balanced key change a e r = Leads-weaken _ (own_key key change a e r) (
    Leads-bind-check_ctx _ stopped-unhandled (
      Leads-bind-quiet _ _ (valid_key-unhandled e.key) (λ valid. Leads-bind-quiet_if _ _ _ refl (
        Leads-bind-quiet_if _ _ _ refl (
          write_entry-Balanced change a e
            (record { owner = refl; deltas = r.deltas; afters = r.afters }))))))

-- The entry of a movement between two buckets.
transfer-IsRecord :
    (d : AccountDelta) (biz_type : LedgerBizType) (biz_id remark : Text) (from : Bucket)
    (debit : Money) (to : Bucket) (credit : Money) (a : Account)
    → IsTransfer d from debit to credit
    → IsRecord d.key
        (λ b. delta_value b d)
        a
        (add_delta to credit (new_ledger_entry d.key biz_type biz_id remark d.at a from debit))
transfer-IsRecord d biz_type biz_id remark from debit to credit a t = record {
  owner = ground arith;
  deltas = λ b. rw (t.each b) (ground arith);
  afters = λ b. ground arith;
}

move-Balanced :
    (d : AccountDelta) (biz_type : LedgerBizType) (biz_id remark : Text) (from : Bucket)
    (debit : Money) (to : Bucket) (credit : Money)
    → IsTransfer d from debit to credit
    → Keeps Balanced is_handled (move d biz_type biz_id remark from debit to credit)
unfolding move
move-Balanced d biz_type biz_id remark from debit to credit t = Keeps-Leads _ (
    Leads-bind (Opened d) _ _ (increment_account-Opened d) (λ saved.
      Leads-bind (λ e. Balanced) _ _
        (append_ledger-Balanced d.key (λ b. delta_value b d) saved _
          (transfer-IsRecord d biz_type biz_id remark from debit to credit saved t))
        (λ e. Leads-pure tt (falls-same Balanced))))

credit-IsRecord :
    (c : Commission) (now : Time) (biz_id remark : Text) (a : Account)
    → IsRecord
        (agent_key c)
        (λ b. delta_value b (credit_delta c now))
        a
        (new_ledger_entry (agent_key c) accrue biz_id remark now a bucket_frozen c.amount)
credit-IsRecord c now biz_id remark a = record {
  owner = refl;
  deltas = λ b. ground arith;
  afters = λ b. ground arith;
}

credit_accrual-Balanced :
    (c : Commission) (now : Time) → Keeps Balanced is_handled (credit_accrual c now)
unfolding credit_accrual
credit_accrual-Balanced c now = Keeps-Leads _ (
    Leads-bind (Opened (credit_delta c now)) _ _ (increment_account-Opened (credit_delta c now))
      (λ saved.
        Leads-bind (λ e. Balanced) _ _
          (append_ledger-Balanced (agent_key c) _ saved _ (credit-IsRecord c now _ _ saved))
          (λ e. Leads-pure tt (falls-same Balanced))))

-- A clawback changes one bucket, guarded or not.
clawback_delta-key :
    (key : UserKey) (bucket : Bucket) (delta : Money) (at : Time) (guarded : Bool)
    → (clawback_delta key bucket delta at guarded).key ≡ key
clawback_delta-key key bucket delta at guarded = ground arith

abbrev clawed : Bucket → Money → Bucket → ℤ
clawed bucket delta b = recorded bucket (neg64 delta) (unknown 0) (pos 0) b

clawback_delta-value :
    (key : UserKey) (bucket : Bucket) (delta : Money) (at : Time) (guarded : Bool) (b : Bucket)
    → delta_value b (clawback_delta key bucket delta at guarded) ≡ clawed bucket delta b
clawback_delta-value key bucket delta at guarded b =
    delta-new_ledger_entry no_key accrue [] [] zero_time (zero_account no_key) bucket (neg64 delta)
      _ b (wrap64-IsInt64 (pos 0 -ℤ delta)) (refl, refl, refl, refl)

insufficient-is_handled : (e : Err) → is_insufficient_balance e ≡ true → is_handled e ≡ true
insufficient-is_handled e h = ground arith

module _ (key : UserKey) (bucket : Bucket) (delta : Money) where
  abbrev Clawed : Account → Kept
  Clawed a = OfBooks (IsPending key (clawed bucket delta) a)

  increment-Clawed :
      (at : Time) (guarded debt : Bool)
      → Leads Balanced is_handled Balanced
          (λ (p : Account × Bool). Clawed p.0)
          (increment_account (clawback_delta key bucket delta at guarded) >>= λ a. pure (a, debt))
  increment-Clawed at guarded debt =
      let d = clawback_delta key bucket delta at guarded in
      Leads-bind (Opened d) _ _ (increment_account-Opened d) (λ a.
        Leads-pure (a, debt)
          (λ u s h. record {
            on =
                IsPending-same d.key key _ _ a _ _ _ _
                  (clawback_delta-key key bucket delta at guarded)
                  (clawback_delta-value key bucket delta at guarded) h.on;
          }))

  take_debt-Clawed :
      (l : Ledger) (at : Time)
      → Leads Balanced is_handled Balanced
          (λ (p : Account × Bool). Clawed p.0)
          (take_debt l key bucket delta at)
  unfolding take_debt
  take_debt-Clawed l at =
      Leads-if _ _ _ (Leads-raise insufficient_balance (falls-same Balanced))
        (increment-Clawed at false true)

  clawback-IsRecord :
      (biz_type : LedgerBizType) (biz_id remark : Text) (at : Time) (a : Account)
      → IsRecord key
          (clawed bucket delta)
          a
          (new_ledger_entry key biz_type biz_id remark at a bucket (neg64 delta))
  clawback-IsRecord biz_type biz_id remark at a = record {
    owner = ground arith;
    deltas = λ b. ground arith;
    afters = λ b. ground arith;
  }

debit_bucket-Balanced :
    (l : Ledger) (original : Commission) (bucket : Bucket) (delta : Money) (reason : Text)
    (reversal_id : ℤ) (target original_amount : Money) (at : Time)
    → Keeps Balanced is_handled
        (debit_bucket l original bucket delta reason reversal_id target original_amount at)
unfolding debit_bucket
debit_bucket-Balanced l original bucket delta reason reversal_id target original_amount at =
    let key = agent_key original in
    Keeps-Leads _ (
      Leads-bind (λ (p : Account × Bool). Clawed key bucket delta p.0) _ _
        (Leads-recover is_insufficient_balance _ _ (λ e h. insufficient-is_handled e h)
          (increment-Clawed key bucket delta at true false)
          (λ e. take_debt-Clawed key bucket delta l at))
        (λ p.
          Leads-bind (λ e. Balanced) _ _
            (append_ledger-Balanced key (clawed bucket delta) p.0 _
              (clawback-IsRecord key bucket delta _ _ _ at p.0))
            (λ e. Leads-pure tt (falls-same Balanced))))

pub AreBalanced-Writes : (l : Ledger) → Writes l (OfBooks AreBalanced) is_handled
AreBalanced-Writes l = record {
  handled = λ e h. h;
  appended = append_commission-OfBooks AreBalanced-Grows;
  reversed = set_commission_reversed_amount-OfBooks AreBalanced-Grows;
  transitioned = transition_commission-OfBooks AreBalanced-Grows;
  requested = append_withdrawal-OfBooks AreBalanced-Grows;
  decided = transition_withdrawal-OfBooks AreBalanced-Grows;
  moved = λ delta biz_type biz_id remark from debit to credit guarded t.
      move-Balanced delta biz_type biz_id remark from debit to credit t;
  debited = debit_bucket-Balanced l;
  credited = λ c now positive. credit_accrual-Balanced c now;
  dated = set_commission_available_at-OfBooks AreBalanced-Grows;
  refunded = append_refund-OfBooks AreBalanced-Grows;
  enrolled = put_agent-OfBooks AreBalanced-Grows;
  attributed = put_binding-OfBooks AreBalanced-Grows;
}
