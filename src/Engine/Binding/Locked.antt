-- ===== src/Engine/Binding/Locked.antt =====
-- The first binding of a buyer wins.
use distledger.Base.{◌≡◌, refl, Bool, true, false, Option, none, some, ◌⊎◌, inl, inr}
use distledger.Agent.{Binding, effective}
use distledger.Clock.{Time}
use distledger.Engine.Accrual.{binding_or_none}
use distledger.Engine.Atomic.{Tracks-Writes}
use distledger.Engine.Binding.{
  rebind, bind_buyer_tx, bind_buyer, bind_or_find, unless_locked, bound_time, bind_new,
}
use distledger.Engine.Checks.{buyer_key, check_buyer}
use distledger.Engine.Config.{Ledger}
use distledger.Engine.Handlers.Agents.{bind_buyer_tx-Keeps}
use distledger.Errors.{Stop, Result, ok, err}
use distledger.Events.{BindBuyerRequest}
use distledger.Memory.Atomic.{read_rules}
use distledger.Memory.Data.{Data}
use distledger.Memory.Reader.{binding}
use distledger.Memory.Store.{Ctx, Store}
use distledger.Memory.Store.Kept.{IsSame, update_same, checked_same}
use distledger.Memory.Tx.{TxState, pure, gets, check_ctx, or_raise, recover, if_some, ◌>>=◌}
use distledger.Memory.Tx.Rules.{Keeps, any_error, Keeps-recover_any, Keeps-pure}
use distledger.Memory.Tx.Values.{OfValue, Keeps-yields}

checked-or : (o : Option Stop) → (o ≡ none) ⊎ ((e : Stop) × (o ≡ some e))
checked-or none = inl refl
checked-or (some e) = inr (e, refl)

module _ (l : Ledger) (req : BindBuyerRequest) (at : Time) (b : Binding) (d0 : Data)
    (stored : d0.bindings (buyer_key req) ≡ some b) (live : effective b at ≡ true) where
  found-binding :
      (s : TxState) → s.store ≡ d0 → OfValue (λ o. o ≡ some b) (binding_or_none (buyer_key req) s).0
  unfolding binding recover ◌>>=◌ gets check_ctx or_raise pure
  found-binding s e = elim (checked-or (s.ctx s.checks)) [
    | inl alive ↦ rw (alive, e, stored) refl
    | inr (stop, over) ↦ rw over tt
  ]

  rebind-IsSame : Keeps (IsSame d0) any_error (rebind l req at b)
  unfolding rebind
  rebind-IsSame = rw live (Keeps-pure _)

  after-IsSame :
      (o : Option Binding)
      → o ≡ some b
      → Keeps (IsSame d0) any_error (if_some o (rebind l req at) (bind_new l req at))
  unfolding if_some
  after-IsSame o e = rw e rebind-IsSame

  binding-IsSame :
      Keeps
        (IsSame d0)
        any_error
        (binding_or_none (buyer_key req) >>= λ o. if_some o (rebind l req at) (bind_new l req at))
  binding-IsSame =
      Keeps-yields (λ o. o ≡ some b) _ _ (search (read_rules, Keeps-recover_any) depth 20)
        (record { at = λ s h. found-binding s h.same }) after-IsSame

  bind_buyer_tx-IsSame : Keeps (IsSame d0) any_error (bind_buyer_tx l req at)
  unfolding bind_buyer_tx
  bind_buyer_tx-IsSame = search (read_rules, Keeps-recover_any, binding-IsSame) depth 20

unless_locked_data :
    (o : Result (Binding × Bool) × Store) (s : Store)
    → o.1.data_of ≡ s.data_of
    → (unless_locked o).1.data_of ≡ s.data_of
unless_locked_data (ok (b, true), s') s h = h
unless_locked_data (ok (b, false), s') s h = h
unless_locked_data (err e, s') s h = h

-- Where the buyer has a binding that is effective at the time of a request, the request changes
-- nothing, whichever agent it names: the first binding wins until it expires.
pub bind_buyer-locked :
    (l : Ledger) (req : BindBuyerRequest) (ctx : Ctx) (s : Store) (b : Binding)
    → s.data_of.bindings (buyer_key req) ≡ some b
    → effective b (bound_time l req) ≡ true
    → (bind_buyer l req ctx s).1.data_of ≡ s.data_of
unfolding bind_buyer bind_or_find
bind_buyer-locked l req ctx s b stored live = unless_locked_data (bind_or_find l req ctx s) s (
    checked_same (check_buyer req) s _ (
      update_same ctx (bind_buyer_tx l req (bound_time l req)) s
        (bind_buyer_tx-IsSame l req (bound_time l req) b s.data_of stored live)
        (bind_buyer_tx-Keeps (Tracks-Writes l s.data_of) req (bound_time l req))))
