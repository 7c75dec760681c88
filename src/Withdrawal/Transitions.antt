-- ===== src/Withdrawal/Transitions.antt =====
-- What the table of withdraw.go allows.
use distledger.Base.{ℕ, ◌+◌, ◌≤◌, ◌≡◌, refl, ◌↔◌, true, false, arith}
use distledger.Withdrawal.{
  WithdrawalState, applied, approved, rejected, pay_failed, paid, unknown, withdrawal_state_valid,
  withdrawal_terminal, reserved, can_transition_withdrawal,
}

-- `n` legal transitions lead from `s` to the index.
pub data Chain (s : WithdrawalState) : ℕ → WithdrawalState → Type 0 where
  start : Chain s 0 s
  then :
      {n : ℕ} {t u : WithdrawalState}
      → Chain s n t
      → can_transition_withdrawal t u ≡ true
      → Chain s (n + 1) u

rank : WithdrawalState → ℕ
rank applied = 0
rank approved = 1
rank pay_failed = 2
rank _ = 3

rank-step : (t u : WithdrawalState) → can_transition_withdrawal t u ≡ true → rank t + 1 ≤ rank u
unfolding can_transition_withdrawal rank
rank-step t u h = ground arith

rank-Chain : {s t : WithdrawalState} {n : ℕ} → Chain s n t → n + rank s ≤ rank t
rank-Chain start = omega arith
rank-Chain (then {n} {t} {u} c e) = omega (arith, rank-Chain c, rank-step t u e)

rank_le_three : (s : WithdrawalState) → rank s ≤ 3
unfolding rank
rank_le_three s = ground arith

-- A withdrawal changes its state at most three times.
pub Chain-bounded : {s t : WithdrawalState} {n : ℕ} → Chain s n t → n ≤ 3
Chain-bounded {s} {t} c = omega (arith, rank-Chain c, rank_le_three t)

-- A valid state holds no reservation exactly when it is final, and exactly when no transition
-- leaves it.
pub reserved_iff_open :
    (s : WithdrawalState)
    → withdrawal_state_valid s ≡ true
    → ((reserved s ≡ false) ↔ (withdrawal_terminal s ≡ true))
      × ((withdrawal_terminal s ≡ true)
          ↔ ((t : WithdrawalState) → can_transition_withdrawal s t ≡ false))
unfolding reserved withdrawal_terminal can_transition_withdrawal
reserved_iff_open applied h = (ground arith, (λ e. cc, λ all. cc (all approved)))
reserved_iff_open approved h = (ground arith, (λ e. cc, λ all. cc (all paid)))
reserved_iff_open pay_failed h = (ground arith, (λ e. cc, λ all. cc (all paid)))
reserved_iff_open rejected h = (ground arith, (λ e t. ground arith, λ all. refl))
reserved_iff_open paid h = (ground arith, (λ e t. ground arith, λ all. refl))
reserved_iff_open (unknown n) h = cc
