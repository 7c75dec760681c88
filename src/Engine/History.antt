-- ===== src/Engine/History.antt =====
-- The histories of a store: calls and heartbeats, one after the other, from an empty store. Each has a
-- ledger of its own, so the rules and the clock may change in between.
pub mod Balanced
use distledger.Base.{ℕ, Option}
use distledger.Engine.Calls.{Call, perform}
use distledger.Engine.Config.{Ledger}
use distledger.Engine.Maintain.{maintain}
use distledger.Engine.Payout.{PayoutChannel}
use distledger.Memory.Store.{Ctx, Store, new_store}

pub data Event : Type 0 where
  called : Ledger → Option PayoutChannel → Call → Ctx → Event
  beaten : Ledger → (ℕ → Ctx) → Event

-- The store after an event.
abbrev pub after : Event → Store → Store
after (called l channel c ctx) s = (perform l channel c ctx s).1
after (beaten l ctxs) s = (maintain l ctxs s).store

pub data Reached : Store → Type 0 where
  fresh : Reached new_store
  next : {s : Store} → Reached s → (e : Event) → Reached (after e s)
