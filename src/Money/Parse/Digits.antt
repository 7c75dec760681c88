-- ===== src/Money/Parse/Digits.antt =====
-- The digits of a number, and the texts that they stand in.
use distledger.Base.{
  ℕ, zero, suc, ◌+◌, ◌/◌, ◌%◌, ◌^◌, ◌<◌, ◌≡◌, refl, ◌∙◌, ap, Bool, true, false, not, ◌&&◌, some, [],
  ◌∷◌, ◌++◌, lt→ltb, and_true_iff, Bool-cases, inl, inr, eqb, arith,
}
use distledger.Base.Int.{pos, negsuc, ltb_ℤ, ◌==ℤ◌, ◌+ℤ◌, ◌-ℤ◌}
use distledger.Base.Text.{Text}
use distledger.Idem.{digits_from, i64s}
use distledger.Keys.{is_empty}
use distledger.Money.{abs_uint64}
use distledger.Money.Parse.{trim_right, trim_left, all_digits, cut_point, is_space, trim_space}
use distledger.SelfCheck.Parse.{digits_value, is_digit, parse_int, positive}
use distledger.Word.{wrap64}

abbrev pub digit : ℕ → ℕ
digit n = b'0' + n % 10

pub digit-is_digit : (n : ℕ) → is_digit (digit n) ≡ true
digit-is_digit n = ground arith

-- What is read of the digits of a number, in front of others.
digits_value-digits_from :
    (n u : ℕ) (out : Text) → u < 10 ^ n → digits_value 0 (digits_from n u out) ≡ digits_value u out
unfolding digits_from digits_value
digits_value-digits_from zero u out h = let z : u ≡ 0 = omega arith in rw z refl
digits_value-digits_from (suc n) u out h = elim (Bool-cases (eqb u 0)) [
  | inl done ↦ let z : u ≡ 0 = ground arith in rw (done, z) refl
  | inr more ↦ rw more (
      digits_value-digits_from n (u / 10) (digit u ∷ out) (omega arith)
      ∙ rw (digit-is_digit u) (ap (λ x. digits_value x out) (omega arith)))
]

all_digits-digits_from :
    (n u : ℕ) (out : Text) → all_digits out ≡ true → all_digits (digits_from n u out) ≡ true
unfolding digits_from all_digits
all_digits-digits_from zero u out h = h
all_digits-digits_from (suc n) u out h = elim (Bool-cases (eqb u 0)) [
  | inl done ↦ rw done h
  | inr more ↦ rw more (all_digits-digits_from n (u / 10) (digit u ∷ out) (rw (digit-is_digit u) h))
]

-- A byte that is not white space.
abbrev pub all_solid : Text → Bool
all_solid [] = true
all_solid (c ∷ cs) = not (is_space c) && all_solid cs

pub all_solid-append :
    (s t : Text) → all_digits s ≡ true → all_solid t ≡ true → all_solid (s ++ t) ≡ true
unfolding all_digits
all_solid-append [] t h k = k
all_solid-append (c ∷ cs) t h k =
    let (d, ds) = (and_true_iff (is_digit c) (all_digits cs)).0 h in
    let rest = all_solid-append cs t ds k in ground arith

trim_right-solid : (s : Text) → all_solid s ≡ true → trim_right s ≡ s
unfolding trim_right
trim_right-solid [] h = refl
trim_right-solid (c ∷ []) h = ground arith
trim_right-solid (c ∷ x ∷ xs) h =
    let (d, ds) = (and_true_iff (not (is_space c)) (all_solid (x ∷ xs))).0 h in
    rw (trim_right-solid (x ∷ xs) ds) refl

trim_left-solid : (s : Text) → all_solid s ≡ true → trim_left s ≡ s
unfolding trim_left
trim_left-solid [] h = refl
trim_left-solid (c ∷ cs) h = ground arith

pub trim_space-solid : (s : Text) → all_solid s ≡ true → trim_space s ≡ s
trim_space-solid s h = ap trim_right (trim_left-solid s h) ∙ trim_right-solid s h

pub cut_point-found : (s t : Text) → all_digits s ≡ true → cut_point (s ++ (b'.' ∷ t)) ≡ (s, some t)
unfolding cut_point all_digits
cut_point-found [] t h = refl
cut_point-found (c ∷ cs) t h =
    let (d, ds) = (and_true_iff (is_digit c) (all_digits cs)).0 h in
    let other : eqb c b'.' ≡ false = ground arith in rw (cut_point-found cs t ds, other) refl

-- The digits of a number.
pub record IsNumeral (v : ℕ) (s : Text) : Type 0 where
  pub digits : all_digits s ≡ true
  pub value : parse_int s ≡ some (pos v)
  pub full : is_empty s ≡ false

pub digits_value-IsNumeral :
    (v : ℕ) (s : Text)
    → is_empty s ≡ false
    → v < 2 ^ 63
    → all_digits s ≡ true
    → digits_value 0 s ≡ some v
    → IsNumeral v s
unfolding parse_int all_digits
digits_value-IsNumeral v [] h lt d e = let bad : 0 < 0 = ground arith in elim bad [ ]
digits_value-IsNumeral v (c ∷ cs) h lt d e = record {
  digits = d;
  value =
      (let (dc, ds) = (and_true_iff (is_digit c) (all_digits cs)).0 d in
        let minus : eqb c b'-' ≡ false = ground arith in
        let plus : eqb c b'+' ≡ false = ground arith in
        rw (minus, plus) (ap positive e ∙ rw (lt→ltb v (2 ^ 63) lt) refl));
  full = h;
}

has_digits : (v : ℕ) (s : Text) → 0 < v → digits_value 0 s ≡ some v → is_empty s ≡ false
unfolding digits_value
has_digits v [] h e = let z : v ≡ 0 = ground arith in let bad : 0 < 0 = omega arith in elim bad [ ]
has_digits v (c ∷ cs) h e = ground arith

all_digits_none : all_digits [] ≡ true
unfolding all_digits
all_digits_none = refl

digits_value_none : (v : ℕ) → digits_value v [] ≡ some v
unfolding digits_value
digits_value_none v = refl

pub abs_uint64-pos : (v : ℕ) → v < 2 ^ 63 → abs_uint64 (pos v) ≡ v
unfolding abs_uint64
abs_uint64-pos v h = ground arith

pub abs_uint64-negsuc : (n : ℕ) → n + 1 < 2 ^ 63 → abs_uint64 (negsuc n) ≡ n + 1
unfolding abs_uint64 wrap64 ◌+ℤ◌ ◌-ℤ◌
abs_uint64-negsuc n h = ground arith

i64s-pos : (v : ℕ) → 0 < v → v < 2 ^ 63 → i64s (pos v) ≡ digits_from 20 v []
unfolding i64s
i64s-pos v h lt =
    let other : (pos v ==ℤ pos 0) ≡ false = ground arith in
    let above : ltb_ℤ (pos v) (pos 0) ≡ false = ground arith in
    rw (other, above, abs_uint64-pos v lt) refl

zero-IsNumeral : IsNumeral 0 (i64s (pos 0))
unfolding i64s abs_uint64 all_digits parse_int digits_value
zero-IsNumeral = record { digits = refl; value = refl; full = refl }

pub i64s-IsNumeral : (v : ℕ) → v < 2 ^ 63 → IsNumeral v (i64s (pos v))
i64s-IsNumeral v lt = elim (Bool-cases (eqb v 0)) [
  | inl done ↦ let z : v ≡ 0 = ground arith in rw z zero-IsNumeral
  | inr more ↦
      let some_left : 0 < v = ground arith in
      rw (i64s-pos v some_left lt) (
        let value = digits_value-digits_from 20 v [] (omega arith) ∙ digits_value_none v in
        digits_value-IsNumeral v (digits_from 20 v [])
          (has_digits v (digits_from 20 v []) some_left value) lt
          (all_digits-digits_from 20 v [] all_digits_none) value)
]
