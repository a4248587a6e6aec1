-- ===== src/Text/Decimal/RoundTrip.antt =====
-- `strconv.Atoi` of the text that `strconv.Itoa` gives.
use go_rtp_cluster.Base.{
  ℕ, zero, suc, ◌+◌, ◌-◌, ◌*◌, ◌/◌, ◌%◌, ◌^◌, ◌<◌, ◌≤◌, ◌≡◌, ◌∙◌, ap, false, some, [], ◌∷◌, ◌++◌,
  Str, ltb, ◌==◌, nat_eq, if_cases, pos, negsuc, arith, ℕ_discrete,
}
use go_rtp_cluster.Text.Decimal.{digits, number, unsigned, positive, negative, itoa, atoi}

-- One more digit behind a number.
number-append :
    (n m c : ℕ) (s : Str)
    → number n s ≡ some m
    → c < 10
    → number n (s ++ (c + b'0') ∷ []) ≡ some (m * 10 + c)
unfolding number
number-append n m c [] h lt = ground (arith, h, lt)
number-append n m c (d ∷ s) h lt = ground (arith, h, number-append (n * 10 + (d - b'0')) m c s)

one_digit : (n : ℕ) → n < 10 → number 0 ((n + b'0') ∷ []) ≡ some n
unfolding number
one_digit n h = ground (arith, h)

number-digits : (f n : ℕ) → n < f → number 0 (digits f n) ≡ some n
unfolding digits
number-digits zero n h = absurd (omega arith)
number-digits (suc f) n h =
    if_cases (λ s. number 0 s ≡ some n) (ltb n 10) (λ a. one_digit n (ground (arith, a)))
      (λ a.
        number-append 0 (n / 10) (n % 10) (digits f (n / 10))
          (number-digits f (n / 10) (ground (arith, a, h))) (omega arith)
        ∙ ap some (omega arith))

-- The first digit.
abbrev Starts : Str → Type 0
Starts [] = ⊥
Starts (c ∷ s) = (b'0' ≤ c) × (c ≤ b'9')

Starts-append : (s t : Str) → Starts s → Starts (s ++ t)
Starts-append [] t h = elim h [ ]
Starts-append (c ∷ s) t h = h

digits-Starts : (f n : ℕ) → n < f → Starts (digits f n)
unfolding digits
digits-Starts zero n h = absurd (omega arith)
digits-Starts (suc f) n h =
    if_cases Starts (ltb n 10) (λ a. (omega arith, ground (arith, a)))
      (λ a. Starts-append (digits f (n / 10)) _ (digits-Starts f (n / 10) (ground (arith, a, h))))

-- A text that starts with a digit has no sign.
unsigned_lem :
    (s : Str) (n : ℕ) → Starts s → number 0 s ≡ some n → n < 2 ^ 63 → atoi s ≡ some (pos n)
unfolding atoi unsigned positive
unsigned_lem [] n start h bound = elim start [ ]
unsigned_lem (c ∷ s) n (low, high) h bound =
    let minus : (c == b'-') ≡ false = ground (arith, low) in
    let plus : (c == b'+') ≡ false = ground (arith, low) in
    rw (minus, plus, h, atoi, unsigned) (ground (arith, bound))

-- The program reads a natural number of the type int back from the text that it writes for it.
pub atoi-itoa : (n : ℕ) → n < 2 ^ 63 → atoi (itoa (pos n)) ≡ some (pos n)
unfolding itoa
atoi-itoa n h =
    unsigned_lem (digits (suc n) n) n (digits-Starts (suc n) n (omega arith))
      (number-digits (suc n) n (omega arith)) h

-- A minus sign in front of the digits of a number.
negative_lem :
    (s : Str) (n : ℕ)
    → Starts s
    → number 0 s ≡ some (suc n)
    → n < 2 ^ 63
    → atoi (b'-' ∷ s) ≡ some (negsuc n)
unfolding atoi unsigned negative ℕ_discrete
negative_lem [] n start h bound = elim start [ ]
negative_lem (c ∷ s) n start h bound = rw (h, atoi, unsigned) (ground (arith, bound))

-- The same of a negative number.
pub atoi-itoa_negative : (n : ℕ) → n < 2 ^ 63 → atoi (itoa (negsuc n)) ≡ some (negsuc n)
unfolding itoa
atoi-itoa_negative n h =
    negative_lem (digits (suc (suc n)) (suc n)) n
      (digits-Starts (suc (suc n)) (suc n) (omega arith))
      (number-digits (suc (suc n)) (suc n) (omega arith)) h
