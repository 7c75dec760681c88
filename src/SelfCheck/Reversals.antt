-- ===== src/SelfCheck/Reversals.antt =====
-- selfcheck.go: invariant I3, that the reversed amounts, the states and the gross totals of the
-- accounts agree.
use distledger.Base.{
  ◌+◌, Bool, false, not, ◌||◌, Option, none, some, List, [], ◌∷◌, length, if◌then◌else◌,
}
use distledger.Base.Int.{ℤ, pos, ltb_ℤ, leb_ℤ, ◌==ℤ◌}
use distledger.Base.Maps.{Map, empty_map, insert}
use distledger.Account.{Account}
use distledger.Commission.{Commission, CommissionState, void, same_state, fully_reversed}
use distledger.Errors.{Result, ok, err}
use distledger.Keys.{int_eq}
use distledger.Memory.Listing.{accounts_by_tenant, commissions_by_tenant, max_page_limit}
use distledger.Memory.Reader.{commission}
use distledger.Memory.Tx.{Tx, pure, lift, gets, recover, if_some, ◌>>=◌}
use distledger.Memory.Tx.Rules.{any_error}
use distledger.Memory.Writer.{is_some}
use distledger.Money
use distledger.Money.{Money}
use distledger.SelfCheck.Pages.{paged, full_page}
use distledger.SelfCheck.Results.{
  InvariantResult, fresh_result, i3, add, add_if, count, or_zero, reversed_out_of_range,
  reversed_state, no_reverse_of, reverses_missing, reverses_reversal, reversed_sum_mismatch,
  reversed_above_amount, total_earned_mismatch, total_reversed_mismatch,
}
use distledger.SelfCheck.Sorting.{with_id, sorted_ids}
use distledger.Word.{neg64}

-- What the loop over the commissions carries; `ids` are the keys of the first two maps.
pub record Reversals : Type 0 where
  pub with_reversal : Map ℤ Money
  pub by_original : Map ℤ Money
  pub ids : List ℤ
  pub original_amount : Map ℤ Money
  pub accrued : Map ℤ Money
  pub reversed : Map ℤ Money
  pub result : InvariantResult

abbrev is_terminal_state : CommissionState → Bool
is_terminal_state s = same_state s CommissionState.reversed || same_state s void

abbrev iff : Bool → Bool → Bool
iff a b = if a then b else not b

-- The reversed amount of an accrual.
abbrev check_reversed : Commission → InvariantResult → InvariantResult
check_reversed c r =
    add_if (not (iff (fully_reversed c) (is_terminal_state c.state)))
      (reversed_state c.id c.reversed_amount c.amount c.state)
      (add_if (ltb_ℤ c.reversed_amount (pos 0) || ltb_ℤ c.amount c.reversed_amount)
        (reversed_out_of_range c.id c.reversed_amount c.amount) (count r))

abbrev note_reversed : Commission → Reversals → Reversals
note_reversed c s = if c.reversed_amount ==ℤ pos 0 then s else record s {
  with_reversal = insert c.id c.reversed_amount s.with_reversal;
  original_amount = insert c.id c.amount s.original_amount;
  ids = with_id c.id s.ids;
  result = check_reversed c s.result;
}

-- An accrual.
unfoldable pub tally_accrual : Commission → Reversals → Result Reversals
tally_accrual c s = elim (Money.add (or_zero (s.accrued c.agent_user_id)) c.amount) [
  | err e ↦ err e
  | ok sum ↦ ok (note_reversed c (record s { accrued = insert c.agent_user_id sum s.accrued }))
]

abbrev fault : Reversals → InvariantResult → Reversals
fault s r = record s { result = r }

-- An amount that is not seen yet.
abbrev seen_or : ℤ → Money → Map ℤ Money → Map ℤ Money
seen_or id amount seen = if is_some (seen id) then seen else insert id amount seen

-- A reversal whose accrual is there.
unfoldable pub tally_reversal : Commission → Commission → Reversals → Result Reversals
tally_reversal c original s =
    elim (Money.add (or_zero (s.by_original c.reverse_of)) (neg64 c.amount)) [
      | err e ↦ err e
      | ok of_original ↦ elim (Money.add (or_zero (s.reversed c.agent_user_id)) (neg64 c.amount)) [
        | err e ↦ err e
        | ok of_agent ↦ ok (record s {
          by_original = insert c.reverse_of of_original s.by_original;
          ids = with_id c.reverse_of s.ids;
          reversed = insert c.agent_user_id of_agent s.reversed;
          original_amount = seen_or c.reverse_of original.amount s.original_amount;
        })
      ]
    ]

-- The accrual of a reversal; any error of the read counts as a missing one.
unfoldable pub follow_reversal : Commission → Reversals → Tx Reversals
follow_reversal c s = do
  found ←
      recover any_error (commission c.reverse_of >>= λ original. pure (some original))
        (λ e. pure none)
  if_some found
      (λ original.
        if leb_ℤ original.amount (pos 0)
        then pure (fault s (add (reverses_reversal c.id c.reverse_of) s.result))
        else lift (tally_reversal c original s))
      (pure (fault s (add (reverses_missing c.id c.reverse_of) s.result)))

-- A commission of the tenant.
unfoldable pub tally_commission : Commission → Reversals → Tx Reversals
tally_commission c s =
    let s' : Reversals = fault s (count s.result) in
    if ltb_ℤ (pos 0) c.amount
    then lift (tally_accrual c s)
    else if leb_ℤ c.reverse_of (pos 0)
    then pure (fault s' (add (no_reverse_of c.id c.amount) s'.result))
    else follow_reversal c s'

abbrev above : Option Money → Money → Bool
above none want = false
above (some amount) want = ltb_ℤ amount want

-- The loop over the accruals that were reversed, in order.
unfoldable pub check_sums : Reversals → List ℤ → InvariantResult → InvariantResult
check_sums s [] r = r
check_sums s (id ∷ ids) r =
    let want = or_zero (s.by_original id) in
    let got = or_zero (s.with_reversal id) in
    check_sums s ids (
      add_if (above (s.original_amount id) want)
        (reversed_above_amount id want (or_zero (s.original_amount id)))
        (add_if (not (got ==ℤ want)) (reversed_sum_mismatch id got want) r))

-- The gross totals of an account, against all that its user was credited and lost.
unfoldable pub check_totals : Reversals → Account → InvariantResult → InvariantResult
check_totals s a r =
    let earned = or_zero (s.accrued a.key.user_id) in
    let lost = or_zero (s.reversed a.key.user_id) in
    add_if (not (a.total_reversed ==ℤ lost)) (total_reversed_mismatch a.key a.total_reversed lost) (
      add_if (not (a.total_earned ==ℤ earned)) (total_earned_mismatch a.key a.total_earned earned)
        (count r))

-- `checkReversalReconciliation`
unfoldable pub check_reversal_reconciliation : ℤ → Tx InvariantResult
check_reversal_reconciliation tenant_id = do
  commissions ← gets (λ d. length d.commission_ids + 1)
  s ←
      paged commissions (λ last. commissions_by_tenant tenant_id (full_page last)) (λ c. c.id)
        tally_commission (pos 0)
        (record {
          with_reversal = empty_map;
          by_original = empty_map;
          ids = [];
          original_amount = empty_map;
          accrued = empty_map;
          reversed = empty_map;
          result = fresh_result i3;
        })
  accounts ← gets (λ d. length d.account_ids + 1)
  paged accounts
      (λ last.
        accounts_by_tenant tenant_id (record { after_user_id = last; limit = pos max_page_limit }))
      (λ a. a.key.user_id) (λ a r. pure (check_totals s a r)) (pos 0)
      (check_sums s (sorted_ids s.ids) s.result)
