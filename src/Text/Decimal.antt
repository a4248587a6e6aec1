-- ===== src/Text/Decimal.antt =====
-- Go's `strconv.Itoa` and `strconv.Atoi` for the 64-bit int.

pub mod RoundTrip
use go_rtp_cluster.Base.{
  ℕ, zero, suc, ◌+◌, ◌-◌, ◌*◌, ◌/◌, ◌%◌, ◌^◌, ◌≡◌, refl, ◌&&◌, Option, none, some, [], ◌∷◌, ◌++◌,
  Str, codes, ltb, leb, ◌==◌, nat_eq, if◌then◌else◌, ℤ, pos, negsuc, ℕ_discrete,
}

-- The first argument bounds the number of digits.
digits : ℕ → ℕ → Str
digits zero n = []
digits (suc f) n =
    let rest = digits f (n / 10) in
    if ltb n 10 then (n + b'0') ∷ [] else rest ++ (n % 10 + b'0') ∷ []

-- `strconv.Itoa`
unfoldable pub itoa : ℤ → Str
unfolding digits
itoa (pos n) = digits (suc n) n
itoa (negsuc n) = b'-' ∷ digits (suc (suc n)) (suc n)

-- The digits that follow a number.
number : ℕ → Str → Option ℕ
number n [] = some n
number n (c ∷ s) =
    let rest = number (n * 10 + (c - b'0')) s in if leb b'0' c && leb c b'9' then rest else none

unsigned : Str → Option ℕ
unfolding number
unsigned [] = none
unsigned (c ∷ s) = number 0 (c ∷ s)

positive : ℕ → Option ℤ
positive n = if ltb n (2 ^ 63) then some (pos n) else none

negative : ℕ → Option ℤ
negative zero = some (pos 0)
negative (suc n) = if ltb n (2 ^ 63) then some (negsuc n) else none

-- `strconv.Atoi`; `none` is an error of the syntax or of the range.
unfoldable pub atoi : Str → Option ℤ
unfolding unsigned positive negative
atoi [] = none
atoi (c ∷ s) =
    if c == b'-'
    then elim (unsigned s) [ none ↦ none | some n ↦ negative n ]
    else if c == b'+'
    then elim (unsigned s) [ none ↦ none | some n ↦ positive n ]
    else elim (unsigned (c ∷ s)) [ none ↦ none | some n ↦ positive n ]

atoi_tests :
    (atoi (codes "2500") ≡ some (pos 2500))
    × (atoi (codes "-7") ≡ some (negsuc 6))
    × (atoi (codes "12x") ≡ none)
    × (atoi (codes "") ≡ none)
    × (atoi (codes "9223372036854775808") ≡ none)
    × (itoa (negsuc 119) ≡ codes "-120")
unfolding atoi itoa ℕ_discrete
atoi_tests = (refl, refl, refl, refl, refl, refl)
