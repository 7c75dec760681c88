-- ===== src/Money/Parse/Round.antt =====
-- An amount that is printed and read again.
use distledger.Base.{
  ℕ, ◌+◌, ◌*◌, ◌-◌, ◌/◌, ◌%◌, ◌^◌, ◌<◌, ◌≡◌, refl, ◌∙◌, ap, Bool, true, false, some, [], ◌∷◌, ◌++◌,
  and_true_iff, Bool-cases, inl, inr, eqb, arith, if◌then◌else◌,
}
use distledger.Base.Int.{ℤ, pos, negsuc, ltb_ℤ, ◌==ℤ◌, ◌+ℤ◌, ◌-ℤ◌, int_laws}
use distledger.Base.Text.{Text}
use distledger.Errors.{ok}
use distledger.Idem.{i64s}
use distledger.Keys.{is_empty}
use distledger.Money.{Money}
use distledger.Money.Parse.{
  parse_money, trim_right, trim_left, all_digits, cut_point, cents, fraction_valid, minor_units,
  parse_unsigned, parse_trimmed, before_quote, marshal_json, unmarshal_json,
}
use distledger.Money.Print.{money_text, two_digits, units}
use distledger.SelfCheck.Parse.{digits_value, is_digit, parse_int}
use distledger.Word.{IsInt64, min_int64, neg64, wrap64, add64}
use distledger.Money.Parse.Digits.{
  digit-is_digit, all_solid, all_solid-append, trim_space-solid, cut_point-found, IsNumeral,
  digits_value-IsNumeral, i64s-IsNumeral, abs_uint64-pos, abs_uint64-negsuc,
}

two_digits-IsNumeral : (r : ℕ) → r < 100 → IsNumeral r (two_digits r)
unfolding all_digits digits_value
two_digits-IsNumeral r h =
    digits_value-IsNumeral r (two_digits r) (ground arith) (omega arith)
      (rw (digit-is_digit (r / 10), digit-is_digit r) refl)
      (rw (digit-is_digit (r / 10), digit-is_digit r) (ap some (omega arith)))

cents-two_digits : (r : ℕ) → r < 100 → cents (some (two_digits r)) ≡ pos r
cents-two_digits r h = rw ((two_digits-IsNumeral r h).value, cents) refl

wrap64-small : (v : ℕ) → v < 2 ^ 63 → wrap64 (pos v) ≡ pos v
unfolding wrap64
wrap64-small v h = ground arith

add64-small : (a b : ℕ) → a + b < 2 ^ 63 → add64 (pos a) (pos b) ≡ pos (a + b)
add64-small a b h =
    let sum : pos a +ℤ pos b ≡ pos (a + b) = omega int_laws in rw sum (wrap64-small (a + b) h)

fraction-two_digits : (r : ℕ) → fraction_valid (some (two_digits r)) ≡ true
unfolding all_digits
fraction-two_digits r = ground arith

-- The sign in front of an amount of minor units.
abbrev with_sign : Bool → ℕ → ℤ
with_sign negative v = if negative then neg64 (pos v) else pos v

minor_units-exact :
    (negative : Bool) (v : ℕ)
    → v < 2 ^ 63
    → minor_units negative (some (two_digits (v % 100))) (some (pos (v / 100)))
      ≡ ok (with_sign negative v)
minor_units-exact negative v h =
    let within : ltb_ℤ (pos 92233720368547758) (pos (v / 100)) ≡ false = ground arith in
    let parts : v / 100 * 100 + v % 100 ≡ v = omega arith in
    rw
      (
        within,
        cents-two_digits (v % 100) (omega arith),
        wrap64-small (v / 100 * 100) (omega arith),
        add64-small (v / 100 * 100) (v % 100) (omega arith),
        parts,
      )
      refl

units-IsSolid : (v : ℕ) → v < 2 ^ 63 → all_solid (units v) ≡ true
units-IsSolid v h =
    all_solid-append (i64s (pos (v / 100))) (b'.' ∷ two_digits (v % 100))
      (i64s-IsNumeral (v / 100) (omega arith)).digits (ground arith)

parse_unsigned-append :
    (negative : Bool) (s : Text) (v : ℕ)
    → v < 2 ^ 63
    → IsNumeral (v / 100) s
    → parse_unsigned negative (s ++ (b'.' ∷ two_digits (v % 100))) ≡ ok (with_sign negative v)
parse_unsigned-append negative [] v h num =
    let full = num.full in let bad : 0 < 0 = ground arith in elim bad [ ]
parse_unsigned-append negative (c ∷ cs) v h num =
    rw (cut_point-found (c ∷ cs) (two_digits (v % 100)) num.digits, parse_unsigned)
      (rw (num.full, num.digits, fraction-two_digits (v % 100), num.value)
        (minor_units-exact negative v h))

-- A text that begins with a digit has no sign.
unsigned-parsed :
    (s t : Text)
    → all_digits s ≡ true
    → is_empty s ≡ false
    → parse_trimmed (s ++ t) ≡ parse_unsigned false (s ++ t)
unfolding all_digits
unsigned-parsed [] t d full = let bad : 0 < 0 = ground arith in elim bad [ ]
unsigned-parsed (c ∷ cs) t d full =
    let (dc, ds) = (and_true_iff (is_digit c) (all_digits cs)).0 d in
    let minus : eqb c b'-' ≡ false = ground arith in
    let plus : eqb c b'+' ≡ false = ground arith in rw (minus, plus) refl

units-parsed : (v : ℕ) → v < 2 ^ 63 → parse_trimmed (units v) ≡ ok (pos v)
units-parsed v h =
    let num = i64s-IsNumeral (v / 100) (omega arith) in
    unsigned-parsed (i64s (pos (v / 100))) (b'.' ∷ two_digits (v % 100)) num.digits num.full
    ∙ parse_unsigned-append false (i64s (pos (v / 100))) v h num

negative-parsed : (v : ℕ) → v < 2 ^ 63 → parse_trimmed (b'-' ∷ units v) ≡ ok (neg64 (pos v))
negative-parsed v h =
    parse_unsigned-append true (i64s (pos (v / 100))) v h (i64s-IsNumeral (v / 100) (omega arith))

money_text-pos : (v : ℕ) → v < 2 ^ 63 → money_text (pos v) ≡ units v
unfolding money_text
money_text-pos v h =
    let inside : (pos v ==ℤ min_int64) ≡ false = ground arith in
    let above : ltb_ℤ (pos v) (pos 0) ≡ false = ground arith in
    rw (inside, above, abs_uint64-pos v h) refl

money_text-negsuc : (n : ℕ) → n + 1 < 2 ^ 63 → money_text (negsuc n) ≡ b'-' ∷ units (n + 1)
unfolding money_text
money_text-negsuc n h =
    let inside : (negsuc n ==ℤ min_int64) ≡ false = ground arith in
    let below : ltb_ℤ (negsuc n) (pos 0) ≡ true = ground arith in
    rw (inside, below, abs_uint64-negsuc n h) refl

wrap64-negsuc : (n : ℕ) → n + 1 < 2 ^ 63 → wrap64 (negsuc n) ≡ negsuc n
unfolding wrap64
wrap64-negsuc n h = ground arith

neg64-pos : (n : ℕ) → n + 1 < 2 ^ 63 → neg64 (pos (n + 1)) ≡ negsuc n
neg64-pos n h =
    let eq : pos 0 -ℤ pos (n + 1) ≡ negsuc n = omega int_laws in rw eq (wrap64-negsuc n h)

least-parsed : parse_money (money_text min_int64) ≡ ok min_int64
unfolding parse_money money_text trim_left trim_right cut_point all_digits parse_int digits_value
    wrap64 ◌+ℤ◌ ◌-ℤ◌
least-parsed = refl

parse_money-money_text : (m : Money) → IsInt64 m → parse_money (money_text m) ≡ ok m
unfolding parse_money
parse_money-money_text (pos v) (h, _) =
    rw (money_text-pos v h, parse_money)
      (rw (trim_space-solid (units v) (units-IsSolid v h)) (units-parsed v h))
parse_money-money_text (negsuc n) (_, h) = elim (Bool-cases (eqb (n + 1) (2 ^ 63))) [
  | inl least ↦ let this : n ≡ 2 ^ 63 - 1 = ground arith in rw this least-parsed
  | inr other ↦
      let below : n + 1 < 2 ^ 63 = ground arith in
      rw (money_text-negsuc n below, parse_money)
        (rw (trim_space-solid (b'-' ∷ units (n + 1)) (units-IsSolid (n + 1) below))
          (negative-parsed (n + 1) below ∙ ap ok (neg64-pos n below)))
]

before_quote-last : (s : Text) → before_quote (s ++ (b'"' ∷ [])) ≡ some s
unfolding before_quote
before_quote-last [] = refl
before_quote-last (c ∷ []) = refl
before_quote-last (c ∷ x ∷ xs) = rw (before_quote-last (x ∷ xs), before_quote) refl

-- Every int64 amount that is written, by `String` or as JSON, is read back as it was.
pub written-read :
    (m : Money)
    → IsInt64 m
    → (parse_money (money_text m) ≡ ok m) × (unmarshal_json (marshal_json m) ≡ ok m)
unfolding unmarshal_json
written-read m h =
    (parse_money-money_text m h, rw (before_quote-last (money_text m)) (parse_money-money_text m h))
