-- ===== src/SelfCheck/Parse.antt =====
-- `strconv.ParseInt(s, 10, 64)`, where every error is `none`.
use distledger.Base.{
  ℕ, ◌+◌, ◌-◌, ◌*◌, ◌^◌, Bool, not, ◌||◌, Option, none, some, [], ◌∷◌, ltb, eqb, if◌then◌else◌,
}
use distledger.Base.Int.{ℤ, pos, ◌-ℤ◌}
use distledger.Base.Text.{Text}

abbrev pub is_digit : ℕ → Bool
is_digit c = not (ltb c b'0' || ltb b'9' c)

-- The digits behind those that stand for `n`.
unfoldable pub digits_value : ℕ → Text → Option ℕ
digits_value n [] = some n
digits_value n (c ∷ cs) =
    let rest = digits_value (n * 10 + (c - b'0')) cs in if is_digit c then rest else none

abbrev unsigned : Text → Option ℕ
unsigned [] = none
unsigned (c ∷ cs) = digits_value 0 (c ∷ cs)

abbrev pub positive : Option ℕ → Option ℤ
positive none = none
positive (some n) = if ltb n (2 ^ 63) then some (pos n) else none

abbrev negative : Option ℕ → Option ℤ
negative none = none
negative (some n) = if ltb (2 ^ 63) n then none else some (pos 0 -ℤ pos n)

unfoldable pub parse_int : Text → Option ℤ
unfolding digits_value ◌-ℤ◌
parse_int [] = none
parse_int (c ∷ cs) =
    if eqb c b'-'
    then negative (unsigned cs)
    else if eqb c b'+'
    then positive (unsigned cs)
    else positive (unsigned (c ∷ cs))
