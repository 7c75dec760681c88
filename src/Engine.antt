-- ===== src/Engine.antt =====
-- The ledger itself: its configuration, and the handlers of ledger.go, payout.go, settle.go,
-- risk.go and reversal.go over the in-memory store.
pub mod Config
pub mod Checks
pub mod Movement
pub mod Withdraw
pub mod Payout
pub mod Clawback
pub mod Accrual
pub mod Shares
pub mod Refund
pub mod Receipt
pub mod Binding
pub mod Risk
pub mod Settle
pub mod Maintain
pub mod Writes
pub mod Handlers
pub mod Atomic
pub mod Covered
pub mod Balanced
pub mod Calls
pub mod History
