-- ===== src/Money/Print.antt =====
-- `Money.String`: major units with two decimals.
use distledger.Base.{ℕ, ◌+◌, ◌/◌, ◌%◌, eqb, [], ◌∷◌, ◌++◌, if◌then◌else◌}
use distledger.Base.Int.{pos, negsuc, ltb_ℤ, ◌==ℤ◌}
use distledger.Base.Text.{Text, text}
use distledger.Idem.{i64s}
use distledger.Money.{
  Money, Rate, Rounding, round_down, round_half_up, round_up, unknown, abs_uint64,
}
use distledger.Word.{min_int64}

-- `strconv.FormatInt(frac+100, 10)[1:]`
abbrev pub two_digits : ℕ → Text
two_digits n = (b'0' + n / 10 % 10) ∷ (b'0' + n % 10) ∷ []

abbrev pub units : ℕ → Text
units v = i64s (pos (v / 100)) ++ (b'.' ∷ two_digits (v % 100))

unfoldable pub money_text : Money → Text
money_text m =
    if m ==ℤ min_int64
    then text "-92233720368547758.08"
    else if ltb_ℤ m (pos 0)
    then b'-' ∷ units (abs_uint64 m)
    else units (abs_uint64 m)

-- `strings.TrimRight(s, "0")` on two digits of which one is not 0.
abbrev trimmed_digits : ℕ → Text
trimmed_digits n = if eqb (n % 10) 0 then (b'0' + n / 10 % 10) ∷ [] else two_digits n

abbrev percent : ℕ → Text
percent v =
    if eqb (v % 100) 0
    then i64s (pos (v / 100)) ++ text "%"
    else i64s (pos (v / 100)) ++ (b'.' ∷ (trimmed_digits (v % 100) ++ text "%"))

-- `Rate.String`
unfoldable pub rate_text : Rate → Text
rate_text (pos v) = percent v
rate_text (negsuc n) = b'-' ∷ percent (n + 1)

-- `Rounding.String`
abbrev pub rounding_text : Rounding → Text
rounding_text round_down = text "down"
rounding_text round_half_up = text "half-up"
rounding_text round_up = text "up"
rounding_text (unknown n) = text "unknown(" ++ (i64s (pos (n + 3)) ++ text ")")
