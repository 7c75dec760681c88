-- ===== src/Engine/Covered.antt =====
-- Accounts without a negative bucket, as an instance of Engine/Writes.
use distledger.Base.{
  ◌≡◌, refl, true, false, Bool, ◌&&◌, Option, none, some, arith, Bool-cases, inl, inr,
}
use distledger.Base.Int.{ℤ, pos, ltb_ℤ, ◌+ℤ◌, ◌≤ℤ◌}
use distledger.Base.Maps.{Map, insert, ◌==◌}
use distledger.Account.{Account, AccountDelta, Bucket, negative_buckets, apply_delta}
use distledger.Account.Exact.{
  AreInt64, HasInt64, AreSums-HasInt64, apply_delta-AreSums, add-positive, add-zero,
}
use distledger.Account.Delta.{IsCovered}
use distledger.Clock.{Time}
use distledger.Commission.{Commission}
use distledger.Engine.Accrual.{credit_delta, credit_accrual}
use distledger.Engine.Clawback.{take_debt}
use distledger.Engine.Config.{Ledger}
use distledger.Engine.Writes.{Writes}
use distledger.Engine.Writes.Single.{Singles, move-Keeps, debit_bucket-Keeps}
use distledger.Errors.{Err, ok, insufficient_balance}
use distledger.Keys.{UserKey, user_key_eq}
use distledger.Memory.Elsewhere.{
  OfAccounts, OfAccounts-Grows, append_commission-OfBooks, set_commission_reversed_amount-OfBooks,
  transition_commission-OfBooks, append_ledger-OfAccounts, append_withdrawal-OfBooks,
  transition_withdrawal-OfBooks, insert_account_id-OfBooks, set_commission_available_at-OfBooks,
  append_refund-OfBooks, put_agent-OfBooks, put_binding-OfBooks,
}
use distledger.Memory.Tx.{set_account}
use distledger.Memory.Tx.Rules.{
  Keeps, any_error, Keeps-bind, Keeps-bind-lift, Keeps-bind-raise_if, Keeps-bind-gets,
  Keeps-check_ctx, Keeps-lift, Keeps-if, Keeps-pure, Keeps-raise,
}
use distledger.Memory.Writer.{increment_account, has_buckets}
use distledger.Money
use distledger.Money.{Money}
use distledger.Word.{IsInt64}
use distledger.Memory.Reader.{account_or_zero}

-- No stored account has a negative bucket, and every amount is an int64.
pub record IsSound (a : Account) : Type 0 where
  pub covered : IsCovered a
  pub fits : HasInt64 a

pub record AreCovered (accounts : Map UserKey Account) : Type 0 where
  pub each : (key : UserKey) (a : Account) → accounts key ≡ some a → IsSound a

pub AreCovered-insert :
    (accounts : Map UserKey Account) (key : UserKey) (v : Account)
    → AreCovered accounts
    → IsSound v
    → AreCovered (insert key v accounts)
AreCovered-insert accounts key v h c = record {
  each = λ k a e. elim (Bool-cases (k == key)) [
    | inl this ↦ let same : v ≡ a = cc (rw this at e) in rw same at c
    | inr other ↦ h.each k a (rw other at e)
  ];
}

module _ {C : Err → Bool} where
  set_account-AreCovered :
      (key : UserKey) (v : Account)
      → IsSound v
      → Keeps (OfAccounts AreCovered) C (set_account key v)
  unfolding set_account
  set_account-AreCovered key v c = record {
    at = λ s h. record { on = AreCovered-insert s.store.accounts key v h.on c };
  }

-- The account that `increment_account` starts from.
abbrev start_of : UserKey → Option Account → Account
start_of key cur = record (account_or_zero key cur) { key = key }

-- Six int64 amounts, of any account.
all_fit :
    {f v w p e r : ℤ}
    → IsInt64 f
    → IsInt64 v
    → IsInt64 w
    → IsInt64 p
    → IsInt64 e
    → IsInt64 r
    → AreInt64 f v w p e r
all_fit hf hv hw hp he hr = record {
  frozen_fits = hf;
  available_fits = hv;
  withdrawing_fits = hw;
  withdrawn_fits = hp;
  earned_fits = he;
  reversed_fits = hr;
}

zero_fits : IsInt64 (pos 0)
zero_fits = (omega arith, omega arith)

with_version-IsSound :
    (a : Account) → IsSound a → IsSound (record a { version = a.version +ℤ pos 1 })
with_version-IsSound a h = record { covered = h.covered; fits = h.fits }

start_of-IsSound :
    (key : UserKey) (cur : Option Account)
    → ((a : Account) → cur ≡ some a → IsSound a)
    → IsSound (start_of key cur)
start_of-IsSound key none h = record {
  covered = (omega arith, omega arith, omega arith, omega arith);
  fits = all_fit zero_fits zero_fits zero_fits zero_fits zero_fits zero_fits;
}
start_of-IsSound key (some a) h =
    let sound = h a refl in record { covered = sound.covered; fits = sound.fits }

module _ (delta : AccountDelta) where
  -- A step that passes its guard leaves a sound account.
  abbrev LeavesSound : Type 0
  LeavesSound =
      (a updated : Account)
      → IsSound a
      → apply_delta delta a ≡ ok updated
      → (delta.require_non_negative && has_buckets (negative_buckets updated)) ≡ false
      → IsSound updated

  increment_account-AreCovered :
      LeavesSound → Keeps (OfAccounts AreCovered) any_error (increment_account delta)
  unfolding increment_account
  increment_account-AreCovered sound = Keeps-bind _ _ Keeps-check_ctx (λ _.
      Keeps-bind _ _ (Keeps-lift _) (λ _. Keeps-bind-gets _ _ (λ u d h.
        Keeps-bind-lift _ _ (λ updated e. Keeps-bind-raise_if _ _ _ (λ room.
          Keeps-bind _ _
            (Keeps-if _ _ _ (λ p. Keeps-pure tt) (λ p. insert_account_id-OfBooks delta.key))
            (λ _.
              Keeps-bind _ _
                (set_account-AreCovered delta.key _ (
                  with_version-IsSound updated (
                    sound _ updated (start_of-IsSound delta.key _ (λ a e. h.on.each delta.key a e))
                      e room)))
                (λ _. Keeps-pure _)))))))

guard-IsCovered :
    (b : Bool) (a : Account)
    → b ≡ true
    → (b && has_buckets (negative_buckets a)) ≡ false
    → IsCovered a
guard-IsCovered b a h p = ground arith

guarded-LeavesSound : (delta : AccountDelta) → delta.require_non_negative ≡ true → LeavesSound delta
guarded-LeavesSound delta g a updated h e room = record {
  covered = guard-IsCovered _ updated g room;
  fits = AreSums-HasInt64 delta a updated (apply_delta-AreSums delta a updated e);
}

kept_covered : (x z : ℤ) → IsInt64 x → Money.add x (pos 0) ≡ ok z → pos 0 ≤ℤ x → pos 0 ≤ℤ z
kept_covered x z hx e h = rw (add-zero x z hx e) h

-- A credit adds to the frozen bucket and to nothing else.
credit_delta-LeavesSound :
    (c : Commission) (now : Time) → ltb_ℤ (pos 0) c.amount ≡ true → LeavesSound (credit_delta c now)
credit_delta-LeavesSound c now positive a updated h e room =
    let sums = apply_delta-AreSums (credit_delta c now) a updated e in
    let (frozen, available, withdrawing, withdrawn) = h.covered in
    record {
      covered = (
        add-positive a.frozen c.amount updated.frozen positive sums.frozen_sum frozen,
        kept_covered _ _ h.fits.available_fits sums.available_sum available,
        kept_covered _ _ h.fits.withdrawing_fits sums.withdrawing_sum withdrawing,
        kept_covered _ _ h.fits.withdrawn_fits sums.withdrawn_sum withdrawn,
      );
      fits = AreSums-HasInt64 (credit_delta c now) a updated sums;
    }

credit_accrual-AreCovered :
    (c : Commission) (now : Time)
    → ltb_ℤ (pos 0) c.amount ≡ true
    → Keeps (OfAccounts AreCovered) any_error (credit_accrual c now)
unfolding credit_accrual
credit_accrual-AreCovered c now positive =
    Keeps-bind _ _ (increment_account-AreCovered _ (credit_delta-LeavesSound c now positive))
      (λ saved. Keeps-bind _ _ (append_ledger-OfAccounts _) (λ entry. Keeps-pure tt))

take_debt-AreCovered :
    (l : Ledger)
    → l.rules.allow_negative ≡ false
    → (key : UserKey) (bucket : Bucket) (delta : Money) (at : Time)
    → Keeps (OfAccounts AreCovered) any_error (take_debt l key bucket delta at)
unfolding take_debt
take_debt-AreCovered l no_debt key bucket delta at = rw no_debt (Keeps-raise insufficient_balance)

AreCovered-Singles :
    (l : Ledger) → l.rules.allow_negative ≡ false → Singles l (OfAccounts AreCovered)
AreCovered-Singles l no_debt = record {
  recorded = append_ledger-OfAccounts;
  incremented =
      λ delta guarded. increment_account-AreCovered delta (guarded-LeavesSound delta guarded);
  indebted = take_debt-AreCovered l no_debt;
}

pub AreCovered-Writes :
    (l : Ledger) → l.rules.allow_negative ≡ false → Writes l (OfAccounts AreCovered) any_error
AreCovered-Writes l no_debt =
    let grows = OfAccounts-Grows AreCovered in
    record {
      handled = λ e h. refl;
      appended = append_commission-OfBooks grows;
      reversed = set_commission_reversed_amount-OfBooks grows;
      transitioned = transition_commission-OfBooks grows;
      requested = append_withdrawal-OfBooks grows;
      decided = transition_withdrawal-OfBooks grows;
      moved = λ delta biz_type biz_id remark from debit to credit guarded t.
          move-Keeps (AreCovered-Singles l no_debt) delta biz_type biz_id remark from debit to
            credit guarded;
      debited = debit_bucket-Keeps (AreCovered-Singles l no_debt);
      credited = credit_accrual-AreCovered;
      dated = set_commission_available_at-OfBooks grows;
      refunded = append_refund-OfBooks grows;
      enrolled = put_agent-OfBooks grows;
      attributed = put_binding-OfBooks grows;
    }
