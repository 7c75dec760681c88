-- ===== src/Memory/Reader.antt =====
-- reader.go and withdraw.go: the reads that the ledger makes inside a transaction.
use distledger.Base.{ℕ, not, ◌||◌, Option, none, some, List, [], ◌∷◌, if◌then◌else◌}
use distledger.Base.Int.{ℤ, pos, pos_part, ltb_ℤ, leb_ℤ, ◌==ℤ◌}
use distledger.Base.Maps.{Map}
use distledger.Base.Text.{Text}
use distledger.Account.{Account, zero_account}
use distledger.Agent.{Agent, Binding}
use distledger.Clock.{Time}
use distledger.Commission.{Commission, Refund, pending, same_state}
use distledger.Errors.{not_found, field_error}
use distledger.Keys.{UserKey, OrderKey, is_empty}
use distledger.Memory.Data.{Data, DueRef}
use distledger.Memory.Tx.{Tx, gets, raise_if, check_ctx, or_raise, search_from, ◌>>=◌, ◌>>◌}
use distledger.Memory.Undo.{or_nil}
use distledger.Withdrawal.{Withdrawal}

unfoldable pub agent : UserKey → Tx Agent
agent key = do check_ctx; or_raise (← gets (λ d. d.agents key)) not_found

unfoldable pub binding : UserKey → Tx Binding
binding buyer = do check_ctx; or_raise (← gets (λ d. d.bindings buyer)) not_found

-- A missing key reads as the zero account, whose own key is zero too.
abbrev pub account_or_zero : UserKey → Option Account → Account
account_or_zero key none = zero_account key
account_or_zero key (some a) = a

unfoldable pub account : UserKey → Tx Account
account key = do
  check_ctx
  gets (λ d. account_or_zero (record { tenant_id = pos 0; user_id = pos 0 }) (d.accounts key))

unfoldable pub commission : ℤ → Tx Commission
commission id = do check_ctx; or_raise (← gets (λ d. d.commissions id)) not_found

-- The records that a list of ids names; ids without a record are passed over.
abbrev pub records : {V : Type 0} → Map ℤ V → List ℤ → List V
records m [] = []
records m (id ∷ ids) = let rest = records m ids in elim (m id) [ none ↦ rest | some v ↦ v ∷ rest ]

unfoldable pub commissions_by_order : OrderKey → Tx (List Commission)
commissions_by_order key = do check_ctx; gets (λ d. records d.commissions (or_nil (d.by_order key)))

unfoldable pub refunds_by_order : OrderKey → Tx (List Refund)
refunds_by_order key = do check_ctx; gets (λ d. records d.refunds (or_nil (d.refunds_by_order key)))

abbrev pub default_page_limit : ℕ
default_page_limit = 100

-- The commission of a due reference, if it is pending and still due at that time.
abbrev pub due_commission : Data → DueRef → Option Commission
due_commission d ref = elim (d.commissions ref.id) [
  | none ↦ none
  | some c ↦
      if not (same_state c.state pending) || not (c.available_at ==ℤ ref.at) then none else some c
]

-- The loop of `DueCommissions`: at most `limit` of them, in order.
unfoldable pub collect_due : ℕ → Data → List DueRef → List Commission
collect_due ℕ.zero d refs = []
collect_due (ℕ.suc limit) d [] = []
collect_due (ℕ.suc limit) d (ref ∷ refs) = elim (due_commission d ref) [
  | none ↦ collect_due (ℕ.suc limit) d refs
  | some c ↦ c ∷ collect_due limit d refs
]

-- The references of one tenant that are due, between the two searches of `DueCommissions`.
abbrev pub due_range : ℤ → Time → List DueRef → List DueRef
due_range tenant_id at refs =
    (search_from (λ r. not (r.tenant_id ==ℤ tenant_id) || ltb_ℤ at r.at)
      (search_from (λ r. leb_ℤ tenant_id r.tenant_id) refs).1).0

unfoldable pub due_commissions : ℤ → Time → ℤ → Tx (List Commission)
unfolding collect_due search_from
due_commissions tenant_id at limit = do
  check_ctx
  let n = if leb_ℤ limit (pos 0) then default_page_limit else pos_part limit
  gets (λ d. collect_due n d (due_range tenant_id at d.pending_due))

unfoldable pub withdrawal_by_id : ℤ → Tx Withdrawal
withdrawal_by_id id = do check_ctx; or_raise (← gets (λ d. d.withdrawals id)) not_found

unfoldable pub withdrawal_by_idem_key : ℤ → Text → Tx Withdrawal
withdrawal_by_idem_key tenant_id idem_key = do
  check_ctx
  raise_if (is_empty idem_key) (field_error "idem_key")
  id ←
      or_raise (← gets (λ d. d.withdraw_idem (record { tenant_id = tenant_id; key = idem_key })))
        not_found
  or_raise (← gets (λ d. d.withdrawals id)) not_found
