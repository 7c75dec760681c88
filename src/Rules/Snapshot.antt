-- ===== src/Rules/Snapshot.antt =====
-- rule.go: the text that stands for a rule set on each commission, and its fingerprint.
use distledger.Base.{ℕ, ◌+◌, ◌*◌, ◌/◌, List, [], ◌∷◌, ◌++◌, take}
use distledger.Base.Int.{ℤ, pos}
use distledger.Base.Text.{Text, text}
use distledger.Idem.{i64s}
use distledger.Money.{Rate}
use distledger.Money.Print.{rounding_text}
use distledger.Rules.{Rules}

-- The rates of `Describe` with commas between them.
abbrev rate_list : List Rate → Text
rate_list [] = []
rate_list (r ∷ []) = i64s r
rate_list (r ∷ q ∷ rs) = i64s r ++ (b',' ∷ rate_list (q ∷ rs))

-- `Rules.Describe`
unfoldable pub describe : Rules → Text
describe r =
    text "{\"levels\":"
    ++ (i64s r.levels
        ++ (text ",\"rate_bp\":["
            ++ (rate_list r.rate_bp
                ++ (text "],\"rounding\":\""
                    ++ (rounding_text r.rounding
                        ++ (text "\",\"freeze_days\":"
                            ++ (i64s r.freeze_days
                                ++ (text ",\"max_allocatable_bp\":"
                                    ++ (i64s r.max_allocatable_bp ++ text "}")))))))))

-- `binary.BigEndian.Uint64`
abbrev big_endian_value : ℕ → List ℕ → ℕ
big_endian_value acc [] = acc
big_endian_value acc (b ∷ bs) = big_endian_value (acc * 256 + b) bs

-- `Rules.Version`, of a digest.
unfoldable pub rules_version : (List ℕ → List ℕ) → Rules → ℤ
rules_version digest r = pos (big_endian_value 0 (take 8 (digest (describe r))) / 2)
