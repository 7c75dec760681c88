-- ===== src/Engine/Accrual/Values.antt =====
-- What a level of an accrual appends.
use distledger.Base.{◌≡◌, Option, none, some}
use distledger.Commission.{Commission}
use distledger.Engine.Accrual.{appended_or_none}
use distledger.Memory.Tx.Values.{Returns, Returns-recover, Returns-then, Returns-pure}
use distledger.Memory.Writer.Values.{append_commission-amount}
use distledger.Money.{Money}

-- The amount of what was appended, if anything was.
abbrev pub OfAmount : Money → Option Commission → Type 0
OfAmount amount none = Unit
OfAmount amount (some c) = c.amount ≡ amount

pub appended_or_none-amount : (c : Commission) → Returns (OfAmount c.amount) (appended_or_none c)
appended_or_none-amount c =
    Returns-recover _ _ _
      (Returns-then _ _ (append_commission-amount c) (λ saved e. Returns-pure (some saved) e))
      (λ e. Returns-pure none tt)
