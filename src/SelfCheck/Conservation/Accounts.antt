-- ===== src/SelfCheck/Conservation/Accounts.antt =====
-- The check of one account, over all the pages of its entries.
use distledger.Base.{
  ℕ, ◌<◌, ◌≡◌, refl, sym, ◌↔◌, true, none, List, [], ◌∷◌, ◌+◌, length, take, arith,
}
use distledger.Base.Int.{ℤ, pos}
use distledger.Account.{Account, LedgerEntry}
use distledger.Engine.Config.{Ledger}
use distledger.Errors.{ok}
use distledger.Keys.{UserKey}
use distledger.Memory.Books.{entries_of, AreInt64Entries, AreRunningInt64, IsIndex}
use distledger.Memory.Data.{Data}
use distledger.Memory.Listing.{ledger_entries, collect_ledger, of_biz_type, max_page_limit}
use distledger.Memory.Listing.Bounds.{collect-eq-take}
use distledger.Memory.Listing.Behind.{behind, behind-end, behind-all}
use distledger.Memory.Tx.{Tx, TxState, lift, check_ctx}
use distledger.Memory.Tx.Gives.{
  Gives, Gives-pure, Gives-lift, Gives-gets, Gives-check_ctx, Gives-bind,
}
use distledger.Memory.Undo.{or_nil}
use distledger.SelfCheck.Conservation.{
  Tally, check_account, conservation_violations, tally_entry, no_tally,
}
use distledger.SelfCheck.Conservation.Judged.{IsReconciled, judged}
use distledger.SelfCheck.Conservation.Tallied.{
  AreSummable-from_zero, plus, tallied, AreSummable, summable_now, tally_entry-plus,
}
use distledger.SelfCheck.Pages.{full_page}
use distledger.SelfCheck.Pages.Total.{folded, StepsGive, paged-Gives}
use distledger.SelfCheck.Results.{InvariantResult, count}

-- What stands in the index of a user behind an anchor.
abbrev shown : Data → UserKey → ℤ → List LedgerEntry
shown d key =
    behind (λ e. e.id) d.ledger (of_biz_type none) (λ e. refl) (or_nil (d.ledger_by_user key))

abbrev read_page : UserKey → ℤ → Tx (List LedgerEntry)
read_page key last = ledger_entries key (record { page = full_page last; biz_type = none })

ledger_entries-Gives :
    (d : Data) (key : UserKey) (last : ℤ)
    → Gives d (read_page key last) (take max_page_limit (shown d key last))
unfolding ledger_entries
ledger_entries-Gives d key last =
    rw
      (sym (
        collect-eq-take last (of_biz_type none) d.ledger max_page_limit
          (or_nil (d.ledger_by_user key))))
      (Gives-bind check_ctx tt _ _ Gives-check_ctx (
        Gives-gets (λ d.
          collect_ledger d (or_nil (d.ledger_by_user key))
            (record { page = full_page last; biz_type = none }))))

-- Each entry is added to the sums.
abbrev added : LedgerEntry → Tally → Tally
added e t = record { sums = plus e t.sums; tail = e; entries = t.entries + 1 }

folded-tallied : (es : List LedgerEntry) (t : Tally) → folded added es t ≡ tallied es t
folded-tallied [] t = refl
folded-tallied (e ∷ es) t = folded-tallied es (added e t)

steps-tallied :
    (d : Data) (es : List LedgerEntry) (t : Tally)
    → AreSummable t.sums es
    → StepsGive d (λ e t. lift (tally_entry e t)) added es t
steps-tallied d [] t h = tt
steps-tallied d (e ∷ es) t (ht, he, h) = (
  Gives-lift (tally_entry e t) (added e t)
      (tally_entry-plus e t ht he (summable_now (plus e t.sums) es h)),
  steps-tallied d es (added e t) h,
)

-- Where the ids of a user ascend and name the entries, and the sums of these fit, the check of the
-- account returns, in a context that is never cancelled.
pub check_account-Gives :
    (l : Ledger) (d : Data) (a : Account) (fuel : ℕ) (r : InvariantResult)
    → IsIndex (λ e. e.id) d.ledger (pos 0) (or_nil (d.ledger_by_user a.key))
    → AreSummable no_tally.sums (entries_of d.ledger d.ledger_by_user a.key)
    → length (entries_of d.ledger d.ledger_by_user a.key) < fuel
    → Gives d (check_account l fuel a r) (
        let t = tallied (entries_of d.ledger d.ledger_by_user a.key) no_tally in
        conservation_violations l.rules.allow_negative a t.sums t.tail t.entries (count r))
unfolding check_account
check_account-Gives l d a fuel r indexed fits enough =
    let ids = or_nil (d.ledger_by_user a.key) in
    let es = entries_of d.ledger d.ledger_by_user a.key in
    let all : shown d a.key (pos 0) ≡ es =
      behind-all (λ e. e.id) d.ledger (of_biz_type none) (λ e. refl) (pos 0) (pos 0) ids indexed
        (omega arith) in
    let read_all =
      paged-Gives d (λ e t. lift (tally_entry e t)) added (read_page a.key) (λ e. e.id)
        (shown d a.key) (ledger_entries-Gives d a.key)
        (λ after.
          behind-end (λ e. e.id) d.ledger (of_biz_type none) (λ e. refl) max_page_limit (pos 0)
            after ids indexed)
        fuel (pos 0) no_tally (rw all enough) (rw all (steps-tallied d es no_tally fits)) in
    let total : folded added (shown d a.key (pos 0)) no_tally ≡ tallied es no_tally =
      rw all (folded-tallied es no_tally) in
    Gives-bind _ (tallied es no_tally) _ _ (rw (sym total) read_all) (Gives-pure _)

-- The check of an account judges it by all its entries: where the ids of its user ascend and name the
-- entries, the changes and the running sums of these are int64 values, and the context is never
-- cancelled, it returns a result, and this passes exactly if the result so far does, no bucket is
-- below zero but one that may carry a debt, and each bucket is the sum of the entries and what the
-- last of them says.
pub check_account-judges :
    (l : Ledger) (a : Account) (fuel : ℕ) (r : InvariantResult) (s : TxState)
    → ((n : ℕ) → s.ctx n ≡ none)
    → IsIndex (λ e. e.id) s.store.ledger (pos 0) (or_nil (s.store.ledger_by_user a.key))
    → AreInt64Entries (entries_of s.store.ledger s.store.ledger_by_user a.key)
    → AreRunningInt64 (entries_of s.store.ledger s.store.ledger_by_user a.key)
    → length (entries_of s.store.ledger s.store.ledger_by_user a.key) < fuel
    → (r' : InvariantResult) × ((check_account l fuel a r s).0 ≡ ok r')
      × ((r'.is_ok ≡ true) ↔ (
          (r.is_ok ≡ true)
          × IsReconciled l.rules.allow_negative a
              (entries_of s.store.ledger s.store.ledger_by_user a.key)))
check_account-judges l a fuel r s alive indexed fits run enough =
    let es = entries_of s.store.ledger s.store.ledger_by_user a.key in
    let (e, _) =
      (check_account-Gives l s.store a fuel r indexed (AreSummable-from_zero es fits run) enough).at
        s (record { store_is = refl; alive = alive }) in
    (_, e, judged l.rules.allow_negative a es (count r))
