-- ===== src/Money/Parse.antt =====
-- money.go: `ParseMoney` and the JSON forms of an amount.
pub mod Digits
pub mod Round
use distledger.Base.{
  ℕ, ◌+◌, ◌*◌, ◌-◌, ◌^◌, Bool, true, false, not, ◌&&◌, ◌||◌, Option, none, some, List, [], ◌∷◌,
  ◌++◌, length, ltb, leb, eqb, if◌then◌else◌,
}
use distledger.Base.Int.{ℤ, pos, pos_part, ltb_ℤ}
use distledger.Base.Text.{Text, text, text_eqb}
use distledger.Errors.{Result, ok, err, field_error, overflow}
use distledger.Keys.{is_empty}
use distledger.Money.{Money}
use distledger.Money.Print.{money_text}
use distledger.SelfCheck.Parse.{parse_int, is_digit}
use distledger.Word.{wrap64, add64, neg64}

abbrev pub is_space : ℕ → Bool
is_space c = eqb c 32 || (leb 9 c && leb c 13)

abbrev keep_right : ℕ → Text → Text
keep_right c [] = if is_space c then [] else c ∷ []
keep_right c (x ∷ xs) = c ∷ x ∷ xs

unfoldable pub trim_right : Text → Text
trim_right [] = []
trim_right (c ∷ cs) = keep_right c (trim_right cs)

unfoldable pub trim_left : Text → Text
trim_left [] = []
trim_left (c ∷ cs) = let rest = trim_left cs in if is_space c then rest else c ∷ cs

-- `strings.TrimSpace`, on ASCII white space.
abbrev pub trim_space : Text → Text
trim_space s = trim_right (trim_left s)

-- `isASCIIDigits`
unfoldable pub all_digits : Text → Bool
all_digits [] = true
all_digits (c ∷ cs) = is_digit c && all_digits cs

abbrev pub is_ascii_digits : Text → Bool
is_ascii_digits s = not (is_empty s) && all_digits s

-- `strings.Cut(s, ".")`: what stands before the point, and what behind it if there is one.
unfoldable pub cut_point : Text → Text × Option Text
cut_point [] = ([], none)
cut_point (c ∷ cs) =
    let (before, behind) = cut_point cs in
    if eqb c b'.' then ([], some cs) else (c ∷ before, behind)

-- Whether the sign is a minus, and what stands behind a sign.
abbrev pub cut_sign : Text → Bool × Text
cut_sign [] = (false, [])
cut_sign (c ∷ cs) =
    if eqb c b'-' then (true, cs) else if eqb c b'+' then (false, cs) else (false, c ∷ cs)

-- `for len(fracPart) < 2 { fracPart += "0" }`
abbrev pub padded : Text → Text
padded [] = text "00"
padded (c ∷ []) = c ∷ b'0' ∷ []
padded (c ∷ x ∷ xs) = c ∷ x ∷ xs

abbrev pub fraction_valid : Option Text → Bool
fraction_valid none = true
fraction_valid (some f) = is_ascii_digits f && not (ltb 2 (length f))

abbrev pub cents : Option Text → ℤ
cents none = pos 0
cents (some f) = elim (parse_int (padded f)) [ none ↦ pos 0 | some v ↦ v ]

-- `math.MaxInt64 / 100`
abbrev max_whole : ℤ
max_whole = pos 92233720368547758

abbrev pub minor_units : Bool → Option Text → Option ℤ → Result Money
minor_units negative frac none = err (field_error "money")
minor_units negative frac (some whole) =
    if ltb_ℤ max_whole whole
    then err overflow
    else (let minor = add64 (wrap64 (pos (pos_part whole * 100))) (cents frac) in
        ok (if negative then neg64 minor else minor))

abbrev pub parse_parts : Bool → Text → Option Text → Result Money
parse_parts negative whole frac =
    if not (is_ascii_digits whole) || not (fraction_valid frac)
    then err (field_error "money")
    else minor_units negative frac (parse_int whole)

abbrev pub or_digit : Text → Text
or_digit [] = text "0"
or_digit (c ∷ cs) = c ∷ cs

abbrev pub parse_unsigned : Bool → Text → Result Money
parse_unsigned negative [] = err (field_error "money")
parse_unsigned negative (c ∷ cs) =
    let (whole, frac) = cut_point (c ∷ cs) in parse_parts negative (or_digit whole) frac

abbrev pub parse_trimmed : Text → Result Money
parse_trimmed [] = err (field_error "money")
parse_trimmed (c ∷ cs) = let (negative, s) = cut_sign (c ∷ cs) in parse_unsigned negative s

-- `ParseMoney`
unfoldable pub parse_money : Text → Result Money
parse_money s = parse_trimmed (trim_space s)

-- `MarshalJSON`
abbrev pub marshal_json : Money → Text
marshal_json m = b'"' ∷ (money_text m ++ (b'"' ∷ []))

-- The text before a last quote.
unfoldable pub before_quote : Text → Option Text
before_quote [] = none
before_quote (c ∷ []) = if eqb c b'"' then some [] else none
before_quote (c ∷ x ∷ xs) = elim (before_quote (x ∷ xs)) [ none ↦ none | some s ↦ some (c ∷ s) ]

-- The text between two quotes.
abbrev unquoted : Text → Option Text
unquoted [] = none
unquoted (c ∷ cs) = if eqb c b'"' then before_quote cs else none

-- `strings.ContainsAny(s, ".eE")`
abbrev is_fractional : Text → Bool
is_fractional [] = false
is_fractional (c ∷ cs) = (eqb c b'.' || (eqb c b'e' || eqb c b'E')) || is_fractional cs

abbrev whole_number : Option ℤ → Result Money
whole_number none = err (field_error "money")
whole_number (some v) = ok v

-- `UnmarshalJSON`
unfoldable pub unmarshal_json : Text → Result Money
unmarshal_json s = if text_eqb s (text "null") then ok (pos 0) else elim (unquoted s) [
  | some inner ↦ parse_money inner
  | none ↦ if is_fractional s then err (field_error "money") else whole_number (parse_int s)
]
