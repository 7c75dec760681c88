-- ===== src/Tests/Parsing.antt =====
-- Amounts that are read.
use distledger.Base.{◌≡◌, refl, arith}
use distledger.Base.Int.{pos, negsuc}
use distledger.Base.Text.{text}
use distledger.Errors.{ok}
use distledger.Money.Parse.{parse_money, marshal_json, unmarshal_json}
use distledger.Money.Parse.Round.{written-read}
use distledger.Money.Print.{money_text}

written-read_example :
    (parse_money (money_text (negsuc 122)) ≡ ok (negsuc 122))
    × (unmarshal_json (marshal_json (negsuc 122)) ≡ ok (negsuc 122))
written-read_example = written-read (negsuc 122) (omega arith, omega arith)

-- The bound on the whole part leaves room for too many cents.
cents_wrap : parse_money (text "92233720368547758.99") ≡ ok (negsuc 9223372036854775716)
unfolding distledger.Money.Parse.parse_money distledger.Money.Parse.trim_left
    distledger.Money.Parse.trim_right distledger.Money.Parse.cut_point
    distledger.Money.Parse.all_digits distledger.SelfCheck.Parse.parse_int
    distledger.SelfCheck.Parse.digits_value distledger.Word.wrap64 distledger.Base.Int.◌+ℤ◌
cents_wrap = refl

spaced : parse_money (text " +199.5 ") ≡ ok (pos 19950)
unfolding distledger.Money.Parse.parse_money distledger.Money.Parse.trim_left
    distledger.Money.Parse.trim_right distledger.Money.Parse.cut_point
    distledger.Money.Parse.all_digits distledger.SelfCheck.Parse.parse_int
    distledger.SelfCheck.Parse.digits_value distledger.Word.wrap64 distledger.Base.Int.◌+ℤ◌
spaced = refl
