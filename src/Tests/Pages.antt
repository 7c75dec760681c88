-- ===== src/Tests/Pages.antt =====
-- Pages of a store with two withdrawals, of two tenants, and two commissions of an agent.
use distledger.Base.{◌≡◌, refl, false, some, none, [], ◌∷◌, take, filter, arith, if◌then◌else◌}
use distledger.Base.Int.{pos, ◌==ℤ◌}
use distledger.Commission.{pending}
use distledger.Engine.Withdraw.Queries.{withdrawals}
use distledger.Errors.{ok}
use distledger.Keys.{UserKey}
use distledger.Memory.Listing.{Page, CommissionQuery, LedgerQuery}
use distledger.Memory.Listing.Pages.{page_size, behind_anchor, withdrawals-page}
use distledger.Memory.Store.{Store}
use distledger.Tests.{test_ctx}
use distledger.Tests.Orders.{due_data}
use distledger.Tests.Replay.{known_withdrawal}
use distledger.Withdrawal.{Withdrawal}

abbrev foreign : Withdrawal
foreign = record known_withdrawal {
  id = pos 2;
  key = record { tenant_id = pos 2; user_id = pos 7 };
}

abbrev asked : Page
asked = record { after_id = pos 0; limit = pos 1 }

abbrev paged_store : Store
paged_store = record {
  data_of = record due_data {
    withdrawals = λ id. some (if id ==ℤ pos 1 then known_withdrawal else foreign);
    withdrawal_ids = pos 2 ∷ pos 1 ∷ [];
    by_agent = λ k. some (pos 1 ∷ []);
  };
  is_closed = false;
}

abbrev agent_key : UserKey
agent_key = record { tenant_id = pos 1; user_id = pos 7 }

abbrev pending_only : CommissionQuery
pending_only = record { page = asked; states = pending ∷ [] }

abbrev any_entry : LedgerQuery
any_entry = record { page = asked; biz_type = none }

-- The withdrawal of the other tenant, which stands first, is not on the page.
own_withdrawal :
    take (page_size asked.limit) (
      filter
        (λ w. w.key.tenant_id ==ℤ pos 1)
        (behind_anchor asked.after_id paged_store.data_of.withdrawals
          paged_store.data_of.withdrawal_ids))
    ≡ known_withdrawal ∷ []
own_withdrawal = refl

withdrawals-page_example : withdrawals (pos 1) asked test_ctx paged_store ≡ (
  ok (
      take (page_size asked.limit) (
        filter
          (λ w. w.key.tenant_id ==ℤ pos 1)
          (behind_anchor asked.after_id paged_store.data_of.withdrawals
            paged_store.data_of.withdrawal_ids))),
  paged_store,
)
withdrawals-page_example =
    withdrawals-page (pos 1) asked test_ctx paged_store (omega arith)
      (record { at_start = refl; later = λ n. refl; in_tx = refl; is_open = refl })
