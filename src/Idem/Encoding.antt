-- ===== src/Idem/Encoding.antt =====
-- The framing of `hashParts`: a length in 8 bytes before each part.
use distledger.Base.{ℕ, ◌^◌, ◌<◌, ◌≡◌, refl, arith, List, [], ◌∷◌, ◌++◌, length}
use distledger.Base.Text.{Text}
use distledger.Idem.{encode_parts, big_endian}

-- Every part is shorter than 2 ^ 64 bytes.
abbrev pub AreShort : List Text → Type 0
AreShort [] = Unit
AreShort (p ∷ ps) = (length p < 2 ^ 64) × AreShort ps

cons_eq : {A : Type 0} (x y : A) (xs ys : List A) → x ∷ xs ≡ y ∷ ys → (x ≡ y) × (xs ≡ ys)
cons_eq x y xs ys e = (cc, cc)

same_eight :
    (m n : ℕ) (r s : List ℕ)
    → m < 2 ^ 64
    → n < 2 ^ 64
    → big_endian 8 m ++ r ≡ big_endian 8 n ++ s
    → (m ≡ n) × (r ≡ s)
same_eight m n r s hm hn e =
    let (e7, t7) = cons_eq _ _ _ _ e in
    let (e6, t6) = cons_eq _ _ _ _ t7 in
    let (e5, t5) = cons_eq _ _ _ _ t6 in
    let (e4, t4) = cons_eq _ _ _ _ t5 in
    let (e3, t3) = cons_eq _ _ _ _ t4 in
    let (e2, t2) = cons_eq _ _ _ _ t3 in
    let (e1, t1) = cons_eq _ _ _ _ t2 in let (e0, t0) = cons_eq _ _ _ _ t1 in (omega arith, t0)

same_part : (p q : Text) (r s : List ℕ) → length p ≡ length q → p ++ r ≡ q ++ s → (p ≡ q) × (r ≡ s)
same_part [] [] r s h e = (refl, e)
same_part [] (y ∷ q) r s h e = absurd (omega arith)
same_part (x ∷ p) [] r s h e = absurd (omega arith)
same_part (x ∷ p) (y ∷ q) r s h e =
    let (here, rest) = cons_eq x y (p ++ r) (q ++ s) e in
    let (parts, tails) = same_part p q r s (omega arith) rest in (cc, tails)

-- Two lists of parts that are fed to the hash as the same bytes are the same list, so keys of
-- different namespaces or of different fields never meet before the digest.
pub encode_parts_injective :
    (ps qs : List Text) → AreShort ps → AreShort qs → encode_parts ps ≡ encode_parts qs → ps ≡ qs
unfolding encode_parts
encode_parts_injective [] [] hp hq e = refl
encode_parts_injective [] (q ∷ qs) hp hq e = cc
encode_parts_injective (p ∷ ps) [] hp hq e = cc
encode_parts_injective (p ∷ ps) (q ∷ qs) hp hq e =
    let (lengths, rest) = same_eight (length p) (length q) _ _ hp.0 hq.0 e in
    let (parts, tails) = same_part p q _ _ lengths rest in
    let more : ps ≡ qs = encode_parts_injective ps qs hp.1 hq.1 tails in cc
