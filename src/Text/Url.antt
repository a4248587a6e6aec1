-- ===== src/Text/Url.antt =====
-- Go's `url.QueryEscape` and `url.QueryUnescape`, which carry the notify tag of a command.
use mathlib.Core.Option
use mathlib.Core.Logic.{if_pos, if_neg}
use go_rtp_cluster.Base.{
  ℕ, ◌+◌, ◌-◌, ◌*◌, ◌/◌, ◌%◌, ◌<◌, ◌≡◌, refl, Bool, true, false, ◌&&◌, ◌||◌, Option, none, some, [],
  ◌∷◌, arith, Str, ltb, leb, ◌==◌, nat_eq, if◌then◌else◌, All, ℕ_discrete, Bool-cases, inl, inr,
}

is_unreserved : ℕ → Bool
is_unreserved c =
    (leb b'a' c && leb c b'z')
    || (leb b'A' c && leb c b'Z')
    || (leb b'0' c && leb c b'9')
    || c == b'-'
    || c == b'_'
    || c == b'.'
    || c == b'~'

hex_digit : ℕ → ℕ
hex_digit n = if ltb n 10 then n + b'0' else n + 55

is_hex : ℕ → Bool
is_hex c = (leb b'0' c && leb c b'9') || (leb b'a' c && leb c b'f') || (leb b'A' c && leb c b'F')

un_hex : ℕ → ℕ
un_hex c =
    if leb b'0' c && leb c b'9'
    then c - b'0'
    else if leb b'a' c && leb c b'f'
    then c - 87
    else c - 55

unfoldable pub query_escape : Str → Str
unfolding is_unreserved hex_digit
query_escape [] = []
query_escape (c ∷ s) =
    let rest = query_escape s in
    if is_unreserved c
    then c ∷ rest
    else if c == 32
    then b'+' ∷ rest
    else b'%' ∷ hex_digit (c / 16) ∷ hex_digit (c % 16) ∷ rest

-- A byte that is no `%`.
unescape_byte : ℕ → ℕ
unescape_byte c = if c == b'+' then 32 else c

abbrev prepend : ℕ → Option Str → Option Str
prepend c = Option.map (λ s. c ∷ s)

-- `none` is the error of a `%` that two hexadecimal digits do not follow.
unfoldable pub query_unescape : Str → Option Str
unfolding unescape_byte is_hex un_hex
query_unescape [] = some []
query_unescape (c ∷ []) = if c == b'%' then none else some (unescape_byte c ∷ [])
query_unescape (c ∷ a ∷ []) =
    let rest = query_unescape (a ∷ []) in if c == b'%' then none else prepend (unescape_byte c) rest
query_unescape (c ∷ a ∷ b ∷ s) =
    let skipped = query_unescape s in
    let rest = query_unescape (a ∷ b ∷ s) in
    if c == b'%'
    then (if is_hex a && is_hex b then prepend (un_hex a * 16 + un_hex b) skipped else none)
    else prepend (unescape_byte c) rest

abbrev pub IsBytes : Str → Type 0
IsBytes = All (λ c. c < 256)

un_hex-hex_digit : (n : ℕ) → n < 16 → (is_hex (hex_digit n) ≡ true) × (un_hex (hex_digit n) ≡ n)
unfolding is_hex hex_digit un_hex
un_hex-hex_digit n h = ground arith

unescape-plain :
    (c : ℕ) (t : Str)
    → (c == b'%') ≡ false
    → query_unescape (c ∷ t) ≡ prepend (unescape_byte c) (query_unescape t)
unfolding query_unescape
unescape-plain c [] h = ground arith
unescape-plain c (a ∷ []) h = ground arith
unescape-plain c (a ∷ b ∷ s) h = ground arith

unescape-hex :
    (c : ℕ) (t : Str)
    → c < 256
    → query_unescape (b'%' ∷ hex_digit (c / 16) ∷ hex_digit (c % 16) ∷ t)
      ≡ prepend c (query_unescape t)
unfolding query_unescape
unescape-hex c t h = ground (
  arith,
  un_hex-hex_digit (c / 16) (omega arith),
  un_hex-hex_digit (c % 16) (omega arith),
  cut c h,
)
  where
    cut : (n : ℕ) → n < 256 → n / 16 * 16 + n % 16 ≡ n
    cut n h = omega arith

unreserved_plain : (c : ℕ) → is_unreserved c ≡ true → ((c == b'%') ≡ false) × (unescape_byte c ≡ c)
unfolding is_unreserved unescape_byte
unreserved_plain c h = ground arith

unescape-step :
    (c : ℕ) (t s : Str)
    → c < 256
    → query_unescape t ≡ some s
    → query_unescape (
        if is_unreserved c
        then c ∷ t
        else if c == 32
        then b'+' ∷ t
        else b'%' ∷ hex_digit (c / 16) ∷ hex_digit (c % 16) ∷ t)
      ≡ some (c ∷ s)
unfolding ℕ_discrete unescape_byte
unescape-step c t s h e = elim (Bool-cases (is_unreserved c)) [
  | inl p ↦ rw (p, unescape-plain c t (unreserved_plain c p).0, (unreserved_plain c p).1, e)
  | inr p ↦ rw p (elim (ℕ_discrete c 32) [
    | yes q ↦ rw (if_pos _ q, unescape-plain b'+' t refl, e, q)
    | no q ↦ rw (if_neg _ q, unescape-hex c t h, e)
  ])
]

-- Unescaping an escaped text of bytes gives the text back.
pub unescape-escape : (s : Str) → IsBytes s → query_unescape (query_escape s) ≡ some s
unfolding query_escape query_unescape
unescape-escape [] h = refl
unescape-escape (c ∷ s) h = unescape-step c (query_escape s) s h.0 (unescape-escape s h.1)
