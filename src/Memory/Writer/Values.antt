-- ===== src/Memory/Writer/Values.antt =====
-- writer.go: what the appended commission is.
use distledger.Base.{◌≡◌}
use distledger.Commission.{Commission}
use distledger.Memory.Tx.Values.{Returns, value_rules}
use distledger.Memory.Writer.{append_commission}

pub append_commission-amount :
    (c : Commission) → Returns (λ saved. saved.amount ≡ c.amount) (append_commission c)
unfolding append_commission
append_commission-amount c = search value_rules depth 40
