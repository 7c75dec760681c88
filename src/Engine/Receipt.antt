-- ===== src/Engine/Receipt.antt =====
-- settle.go: `OnOrderReceived`, which fixes the settlement time of the commissions of an order.
use distledger.Base.{◌+◌, true, false, Bool, not, ◌&&◌, ◌||◌, List, [], ◌∷◌, if◌then◌else◌}
use distledger.Clock.{Time, is_zero, add_days}
use distledger.Commission.{Commission, pending, frozen, same_state}
use distledger.Engine.Config.{Ledger}
use distledger.Errors.{Result, ok, err, is_conflict}
use distledger.Events.{OrderReceivedEvent, received_order_key, validate_received, ReceiveResult}
use distledger.Memory.Reader.{commissions_by_order}
use distledger.Memory.Store.{Ctx, Store, update}
use distledger.Memory.Tx.{Tx, pure, recover, ◌>>=◌}
use distledger.Memory.Writer.{set_commission_available_at}

-- The commissions that a receipt does not touch.
abbrev pub passed_over : Commission → Bool
passed_over c =
    (not (same_state c.state pending) && not (same_state c.state frozen))
    || not (is_zero c.available_at)

abbrev count_if : Bool → ReceiveResult → ReceiveResult
count_if false r = r
count_if true r = record r { updated = r.updated + 1 }

-- One commission; a conflict means that a concurrent delivery has handled it.
unfoldable pub receive_one : Time → Commission → ReceiveResult → Tx ReceiveResult
receive_one at c r =
    if passed_over c
    then pure r
    else recover is_conflict
        (set_commission_available_at c.id (add_days at c.freeze_days) c.version >>= λ saved.
          pure true)
        (λ e. pure false)
      >>= λ done. pure (count_if done r)

-- The loop of `OnOrderReceived`.
unfoldable pub receive_all : Time → List Commission → ReceiveResult → Tx ReceiveResult
receive_all at [] r = pure r
receive_all at (c ∷ cs) r = receive_one at c r >>= receive_all at cs

-- `ev.ReceivedAt`, or the clock.
abbrev pub received_time : Ledger → OrderReceivedEvent → Time
received_time l ev = if is_zero ev.received_at then l.now else ev.received_at

-- The transaction of `OnOrderReceived`.
unfoldable pub received_tx : Ledger → OrderReceivedEvent → Tx ReceiveResult
received_tx l ev = do
  list ← commissions_by_order (received_order_key ev)
  receive_all (received_time l ev) list (record { order_key = received_order_key ev; updated = 0 })

-- `OnOrderReceived`
unfoldable pub on_order_received :
    Ledger → OrderReceivedEvent → Ctx → Store → Result ReceiveResult × Store
on_order_received l ev ctx s = elim (validate_received ev) [
  | err e ↦ (err e, s)
  | ok u ↦ update ctx (received_tx l ev) s
]
