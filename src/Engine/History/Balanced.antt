-- ===== src/Engine/History/Balanced.antt =====
-- The books in every history.
use distledger.Base.{ℕ, zero, suc, [], take, ◌≡◌, arith}
use distledger.Word.{IsInt64}
use distledger.Account.{Bucket, value}
use distledger.Engine.Calls.Balanced.{perform-IsBalanced, Step-IsBalanced}
use distledger.Engine.Calls.Steps.{maintain_round-Step}
use distledger.Engine.History.{Event, called, beaten, after, Reached, fresh, next}
use distledger.Engine.Maintain.Kept.{maintain-kept}
use distledger.Keys.{UserKey}
use distledger.Memory.Books.{IsBalanced, AreInt64Entries, entries_of, sum_of, tail_value}
use distledger.Memory.Data.{new_data}
use distledger.Memory.Reader.{account_or_zero}
use distledger.Memory.Store.{Store}

nothing_yet : (n : ℕ) (b : Bucket) → IsInt64 (sum_of b (take n []))
nothing_yet zero b = (omega arith, omega arith)
nothing_yet (suc n) b = (omega arith, omega arith)

new_data-IsBalanced : IsBalanced new_data
new_data-IsBalanced = record {
  each = λ key. record {
    fits = record {
      frozen_fits = (omega arith, omega arith);
      available_fits = (omega arith, omega arith);
      withdrawing_fits = (omega arith, omega arith);
      withdrawn_fits = (omega arith, omega arith);
      earned_fits = (omega arith, omega arith);
      reversed_fits = (omega arith, omega arith);
    };
    sums = λ all b. ground arith;
    tail = λ b. ground arith;
    running = λ all n b. nothing_yet n b;
  };
  started = omega arith;
  given = λ key. tt;
  indexed = λ key. tt;
}

pub after-IsBalanced :
    (e : Event) (s : Store) → IsBalanced s.data_of → IsBalanced (after e s).data_of
after-IsBalanced (called l channel c ctx) s h = perform-IsBalanced l channel c ctx s h
after-IsBalanced (beaten l ctxs) s h =
    maintain-kept (λ s. IsBalanced s.data_of) l ctxs s
      (λ tenant_id limit ctx t b. Step-IsBalanced (maintain_round-Step l ctx t tenant_id limit) b) h

-- In every store that calls and heartbeats reach from the empty one, whatever they answered and
-- wherever their contexts ended, the books balance.
pub Reached-IsBalanced : {s : Store} → Reached s → IsBalanced s.data_of
Reached-IsBalanced fresh = new_data-IsBalanced
Reached-IsBalanced (next {s} r e) = after-IsBalanced e s (Reached-IsBalanced r)

-- In every such store, and for every user and bucket: where the entries of the user are int64 values,
-- the account of the user holds the exact sum of what they record, and the last of them says so too.
pub Reached-sum :
    {s : Store} (key : UserKey) (b : Bucket)
    → Reached s
    → AreInt64Entries (entries_of s.data_of.ledger s.data_of.ledger_by_user key)
    → (value b (account_or_zero key (s.data_of.accounts key))
        ≡ sum_of b (entries_of s.data_of.ledger s.data_of.ledger_by_user key))
      × (tail_value b (entries_of s.data_of.ledger s.data_of.ledger_by_user key)
          ≡ value b (account_or_zero key (s.data_of.accounts key)))
Reached-sum key b r fits =
    let balanced = (Reached-IsBalanced r).each key in (balanced.sums fits b, balanced.tail b)
