-- ===== src/Commission/Transitions.antt =====
-- What the table of state.go allows.
use distledger.Base.{◌≡◌, refl, ◌↔◌, ◌⊎◌, inl, true, false, arith}
use distledger.Commission.{
  CommissionState, pending, settled, retired, reversed, frozen, void, unknown,
  commission_state_valid, commission_terminal, can_transition_commission,
}

-- The lifecycle of a commission: any number of legal transitions.
pub data Reach (s : CommissionState) : CommissionState → Type 0 where
  here : Reach s s
  next : {t u : CommissionState} → Reach s t → can_transition_commission t u ≡ true → Reach s u

-- A valid state is final exactly when no transition leaves it.
pub terminal_iff_stuck :
    (s : CommissionState)
    → commission_state_valid s ≡ true
    → (commission_terminal s ≡ true)
      ↔ ((t : CommissionState) → can_transition_commission s t ≡ false)
unfolding commission_terminal can_transition_commission
terminal_iff_stuck pending h = (λ e. cc, λ all. cc (all settled))
terminal_iff_stuck settled h = (λ e. cc, λ all. cc (all reversed))
terminal_iff_stuck retired h = cc
terminal_iff_stuck reversed h = (λ e t. ground arith, λ all. refl)
terminal_iff_stuck frozen h = (λ e. cc, λ all. cc (all pending))
terminal_iff_stuck void h = (λ e t. ground arith, λ all. refl)
terminal_iff_stuck (unknown n) h = cc

-- What a commission can become from each state.
abbrev pub MayBecome : CommissionState → CommissionState → Type 0
MayBecome settled t = (t ≡ settled) ⊎ (t ≡ reversed)
MayBecome reversed t = t ≡ reversed
MayBecome void t = t ≡ void
MayBecome _ t = Unit

MayBecome-next :
    (s t u : CommissionState) → MayBecome s t → can_transition_commission t u ≡ true → MayBecome s u
unfolding can_transition_commission
MayBecome-next settled t u h e = ground arith
MayBecome-next reversed t u h e = ground arith
MayBecome-next void t u h e = ground arith
MayBecome-next pending t u h e = tt
MayBecome-next frozen t u h e = tt
MayBecome-next retired t u h e = tt
MayBecome-next (unknown n) t u h e = tt

MayBecome-here : (s : CommissionState) → MayBecome s s
MayBecome-here settled = inl refl
MayBecome-here reversed = refl
MayBecome-here void = refl
MayBecome-here pending = tt
MayBecome-here frozen = tt
MayBecome-here retired = tt
MayBecome-here (unknown n) = tt

-- However many legal transitions follow: a settled commission stays settled or is reversed, and a
-- reversed or void one stays as it is.
pub Reach-MayBecome : {s t : CommissionState} → Reach s t → MayBecome s t
Reach-MayBecome {s} here = MayBecome-here s
Reach-MayBecome {s} (next {t} {u} r e) = MayBecome-next s t u (Reach-MayBecome r) e
