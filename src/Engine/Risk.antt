-- ===== src/Engine/Risk.antt =====
-- risk.go: freezing, unfreezing and voiding a commission.
use distledger.Base.{not, ◌||◌, if◌then◌else◌}
use distledger.Base.Int.{ℤ, pos, leb_ℤ, ◌==ℤ◌}
use distledger.Base.Text.{Text}
use distledger.Commission.{Commission, pending, frozen, void, same_state, outstanding_amount}
use distledger.Engine.Checks.{check_scope, validate_reason}
use distledger.Engine.Clawback.{Reversal, skipped, step, reversal_delta, claw_back, reason_void}
use distledger.Engine.Config.{Ledger}
use distledger.Errors.{Result, ok, err, is_duplicate, not_found, transition_error}
use distledger.Memory.Reader.{commission}
use distledger.Memory.Store.{Ctx, Store, update}
use distledger.Memory.Tx.{Tx, pure, lift, raise_if, recover, ◌>>=◌, ◌>>◌}
use distledger.Memory.Writer.{transition_commission}

-- `loadScopedCommission`
unfoldable pub load_scoped_commission : ℤ → ℤ → Tx Commission
load_scoped_commission tenant_id id = do
  lift (check_scope tenant_id id)
  cur ← commission id
  raise_if (not (cur.key.tenant_id ==ℤ tenant_id)) not_found
  pure cur

unfoldable pub freeze_tx : ℤ → ℤ → Tx Commission
freeze_tx tenant_id id = do
  cur ← load_scoped_commission tenant_id id
  raise_if (not (same_state cur.state pending)) (transition_error "commission freeze")
  transition_commission cur.id pending frozen cur.version

unfoldable pub unfreeze_tx : ℤ → ℤ → Tx Commission
unfreeze_tx tenant_id id = do
  cur ← load_scoped_commission tenant_id id
  raise_if (not (same_state cur.state frozen)) (transition_error "commission unfreeze")
  transition_commission cur.id frozen pending cur.version

-- The end of `VoidCommission`'s transaction; a duplicate reversal reports the commission as it was.
unfoldable pub void_step : Ledger → Commission → Reversal → Tx Commission
void_step l cur skipped = pure cur
void_step l cur (step delta target) =
    recover is_duplicate
      (claw_back l cur delta target void reason_void l.now >>= λ reversal. commission cur.id)
      (λ e. pure cur)

unfoldable pub void_tx : Ledger → ℤ → ℤ → Tx Commission
void_tx l tenant_id id = do
  cur ← load_scoped_commission tenant_id id
  raise_if (not (same_state cur.state pending || same_state cur.state frozen))
      (transition_error "commission void")
  if leb_ℤ (outstanding_amount cur) (pos 0)
      then pure cur
      else void_step l cur (reversal_delta cur (pos 0) (pos 1) void)

-- A handler whose reason is checked before its transaction starts.
abbrev with_reason : Text → Tx Commission → Ctx → Store → Result Commission × Store
with_reason reason body ctx s = elim (validate_reason reason) [
  | err e ↦ (err e, s)
  | ok u ↦ update ctx body s
]

-- `FreezeCommission`
unfoldable pub freeze_commission : ℤ → ℤ → Text → Ctx → Store → Result Commission × Store
freeze_commission tenant_id id reason = with_reason reason (freeze_tx tenant_id id)

-- `UnfreezeCommission`
unfoldable pub unfreeze_commission : ℤ → ℤ → Text → Ctx → Store → Result Commission × Store
unfreeze_commission tenant_id id reason = with_reason reason (unfreeze_tx tenant_id id)

-- `VoidCommission`
unfoldable pub void_commission : Ledger → ℤ → ℤ → Text → Ctx → Store → Result Commission × Store
void_commission l tenant_id id reason = with_reason reason (void_tx l tenant_id id)
