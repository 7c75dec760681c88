-- ===== src/SelfCheck/Conservation/Reached.antt =====
-- The check of an account in the stores that the ledger reaches.
use distledger.Base.{ℕ, ◌<◌, ◌≡◌, ap, true, Option, none, some, List, length}
use distledger.Account.{Account, Bucket, LedgerEntry}
use distledger.Engine.Config.{Ledger}
use distledger.Engine.History.{Reached}
use distledger.Engine.History.Balanced.{Reached-IsBalanced}
use distledger.Errors.{ok}
use distledger.Keys.{UserKey}
use distledger.Memory.Books.{AreInt64Entries, Balances, entries_of}
use distledger.Memory.Reader.{account_or_zero}
use distledger.Memory.Store.{Ctx, Store, begin}
use distledger.SelfCheck.Conservation.{check_account}
use distledger.SelfCheck.Conservation.Accounts.{check_account-judges}
use distledger.SelfCheck.Conservation.Judged.{IsPermitted}
use distledger.SelfCheck.Results.{InvariantResult}

stored-Balances :
    (key : UserKey) (o : Option Account) (a : Account) (es : List LedgerEntry)
    → o ≡ some a
    → Balances (account_or_zero key o) es
    → Balances a es
stored-Balances key o a es e h = rw (← ap (account_or_zero key) e) h

-- In every store that calls and heartbeats reach from the empty one, the check of a stored account
-- returns and finds nothing: where the entries of its user are int64 values and fewer than the fuel,
-- no bucket is below zero but one that may carry a debt, and the context is never cancelled, a result
-- that passes so far passes afterwards.
pub Reached-check_account :
    {s : Store} (l : Ledger) (a : Account) (fuel : ℕ) (r : InvariantResult) (ctx : Ctx)
    → Reached s
    → s.data_of.accounts a.key ≡ some a
    → AreInt64Entries (entries_of s.data_of.ledger s.data_of.ledger_by_user a.key)
    → length (entries_of s.data_of.ledger s.data_of.ledger_by_user a.key) < fuel
    → ((b : Bucket) → IsPermitted l.rules.allow_negative a b)
    → ((n : ℕ) → ctx.later n ≡ none)
    → r.is_ok ≡ true
    → (r' : InvariantResult) × ((check_account l fuel a r (begin ctx s.data_of)).0 ≡ ok r')
      × (r'.is_ok ≡ true)
Reached-check_account {s} l a fuel r ctx reached stored fits enough permitted alive passes =
    let books = Reached-IsBalanced reached in
    let balanced : Balances a (entries_of s.data_of.ledger s.data_of.ledger_by_user a.key) =
      stored-Balances a.key _ a _ stored (books.each a.key) in
    let (r', e, judged) =
      check_account-judges l a fuel r (begin ctx s.data_of) alive (books.indexed a.key) fits
        (balanced.running fits) enough in
    (
      r',
      e,
      judged.1 (
        passes,
        record { permitted = permitted; sums = balanced.sums fits; tail = balanced.tail },
      ),
    )
