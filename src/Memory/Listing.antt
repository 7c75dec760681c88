-- ===== src/Memory/Listing.antt =====
-- store.go, reader.go and withdraw.go: the pages of the listings, and the queries of ledger.go for them.
pub mod Bounds
pub mod Behind
pub mod Pages
use distledger.Base.{
  ℕ, zero, suc, ◌+◌, Bool, true, false, not, ◌&&◌, ◌||◌, Option, none, some, List, [], ◌∷◌, eqb,
  if◌then◌else◌,
}
use distledger.Base.Int.{ℤ, pos, pos_part, ltb_ℤ, leb_ℤ, ◌==ℤ◌}
use distledger.Base.Maps.{Map}
use distledger.Account.{
  Account, LedgerEntry, LedgerBizType, accrue, settle, reverse, void, withdraw_hold, withdraw_paid,
  withdraw_refund, manual_adjust, unknown,
}
use distledger.Commission.{Commission, CommissionState, same_state}
use distledger.Errors.{Result, ok, err, field_error}
use distledger.Events.{is_nil}
use distledger.Keys.{UserKey, validate_user_key, user_key_eq}
use distledger.Memory.Data.{Data}
use distledger.Memory.Reader.{default_page_limit}
use distledger.Memory.Store.{Ctx, Store, view}
use distledger.Memory.Tx.{Tx, gets, raise_if, check_ctx, search_from, ◌>>=◌, ◌>>◌}
use distledger.Memory.Undo.{or_nil}
use distledger.Withdrawal.{Withdrawal}

pub record Page : Type 0 where
  pub after_id : ℤ
  pub limit : ℤ

pub record AccountPage : Type 0 where
  pub after_user_id : ℤ
  pub limit : ℤ

abbrev pub max_page_limit : ℕ
max_page_limit = 1000

-- `normalizeLimit`
abbrev pub normalize_limit : ℤ → ℕ
normalize_limit limit =
    if leb_ℤ limit (pos 0)
    then default_page_limit
    else if ltb_ℤ (pos max_page_limit) limit
    then max_page_limit
    else pos_part limit

pub record CommissionQuery : Type 0 where
  pub page : Page
  pub states : List CommissionState

-- `none` is the biz type 0, which stands for all of them.
pub record LedgerQuery : Type 0 where
  pub page : Page
  pub biz_type : Option LedgerBizType

abbrev biz_code : LedgerBizType → ℕ
biz_code accrue = 1
biz_code settle = 2
biz_code reverse = 3
biz_code void = 4
biz_code withdraw_hold = 5
biz_code withdraw_paid = 6
biz_code withdraw_refund = 7
biz_code manual_adjust = 8
biz_code (unknown n) = 9 + n

abbrev pub kept_if : {V : Type 0} → (V → Bool) → Option V → Option V
kept_if p none = none
kept_if p (some v) = if p v then some v else none

-- The loop of a listing: the records behind the anchor that pass the filter, at most `n` of them.
unfoldable pub collect : {V : Type 0} → ℕ → ℤ → (V → Bool) → Map ℤ V → List ℤ → List V
collect zero after keep m ids = []
collect (suc n) after keep m [] = []
collect (suc n) after keep m (id ∷ ids) =
    let rest = collect (suc n) after keep m ids in
    if leb_ℤ id after
    then rest
    else elim (kept_if keep (m id)) [ none ↦ rest | some v ↦ v ∷ collect n after keep m ids ]

abbrev pub is_one_of : List CommissionState → CommissionState → Bool
is_one_of [] s = false
is_one_of (t ∷ ts) s = same_state t s || is_one_of ts s

-- `CommissionsByAgent`
unfoldable pub commissions_by_agent : UserKey → CommissionQuery → Tx (List Commission)
commissions_by_agent key q = do
  check_ctx
  gets (λ d.
      collect (normalize_limit q.page.limit) q.page.after_id
        (λ c. is_nil q.states || is_one_of q.states c.state) d.commissions
        (or_nil (d.by_agent key)))

-- `CommissionsByTenant`, whose ids begin behind the anchor already.
unfoldable pub commissions_by_tenant : ℤ → Page → Tx (List Commission)
commissions_by_tenant tenant_id p = do
  check_ctx
  gets (λ d.
      collect (normalize_limit p.limit) p.after_id (λ c. c.key.tenant_id ==ℤ tenant_id)
        d.commissions (search_from (λ id. ltb_ℤ p.after_id id) d.commission_ids).1)

abbrev pub of_biz_type : Option LedgerBizType → LedgerEntry → Bool
of_biz_type none e = true
of_biz_type (some t) e = eqb (biz_code e.biz_type) (biz_code t)

-- `collectLedger`
abbrev pub collect_ledger : Data → List ℤ → LedgerQuery → List LedgerEntry
collect_ledger d ids q =
    collect (normalize_limit q.page.limit) q.page.after_id (of_biz_type q.biz_type) d.ledger ids

-- `LedgerEntries`
unfoldable pub ledger_entries : UserKey → LedgerQuery → Tx (List LedgerEntry)
ledger_entries key q = do check_ctx; gets (λ d. collect_ledger d (or_nil (d.ledger_by_user key)) q)

-- `LedgerByTenant`
unfoldable pub ledger_by_tenant_page : ℤ → Page → Tx (List LedgerEntry)
ledger_by_tenant_page tenant_id p = do
  check_ctx
  gets (λ d.
      collect_ledger d (or_nil (d.ledger_by_tenant tenant_id))
        (record { page = p; biz_type = none }))

-- The loop of `AccountsByTenant`, from the anchor to the end of the tenant.
unfoldable pub collect_accounts : ℕ → ℤ → Map UserKey Account → List UserKey → List Account
collect_accounts zero tenant_id m keys = []
collect_accounts (suc n) tenant_id m [] = []
collect_accounts (suc n) tenant_id m (k ∷ ks) =
    let rest = collect_accounts (suc n) tenant_id m ks in
    let more = collect_accounts n tenant_id m ks in
    if not (k.tenant_id ==ℤ tenant_id) then [] else elim (m k) [ none ↦ rest | some a ↦ a ∷ more ]

abbrev behind_anchor : ℤ → AccountPage → UserKey → Bool
behind_anchor tenant_id p k =
    if not (k.tenant_id ==ℤ tenant_id)
    then leb_ℤ tenant_id k.tenant_id
    else ltb_ℤ p.after_user_id k.user_id

-- `AccountsByTenant`
unfoldable pub accounts_by_tenant : ℤ → AccountPage → Tx (List Account)
accounts_by_tenant tenant_id p = do
  check_ctx
  gets (λ d.
      collect_accounts (normalize_limit p.limit) tenant_id d.accounts
        (search_from (behind_anchor tenant_id p) d.account_ids).1)

-- `WithdrawalsByTenant`
unfoldable pub withdrawals_by_tenant : ℤ → Page → Tx (List Withdrawal)
withdrawals_by_tenant tenant_id p = do
  check_ctx
  raise_if (ltb_ℤ tenant_id (pos 0)) (field_error "tenant_id")
  gets (λ d.
      collect (normalize_limit p.limit) p.after_id (λ w. w.key.tenant_id ==ℤ tenant_id)
        d.withdrawals d.withdrawal_ids)

-- `Ledger.CommissionsByAgent` and `Ledger.LedgerEntries`
unfoldable pub commissions_of_agent :
    UserKey → CommissionQuery → Ctx → Store → Result (List Commission) × Store
commissions_of_agent key q ctx s = elim (validate_user_key key) [
  | err e ↦ (err e, s)
  | ok u ↦ view ctx (commissions_by_agent key q) s
]

unfoldable pub entries_of : UserKey → LedgerQuery → Ctx → Store → Result (List LedgerEntry) × Store
entries_of key q ctx s = elim (validate_user_key key) [
  | err e ↦ (err e, s)
  | ok u ↦ view ctx (ledger_entries key q) s
]
