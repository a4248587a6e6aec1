-- ===== src/Text.antt =====
-- What the program uses of Go's `strings` package, on the bytes of UTF-8. Upper and lower case are those
-- of ASCII, white space is that of Unicode.
pub mod Url
pub mod HostPort
pub mod Decimal
use mathlib.Core.List.{reverse}
use go_rtp_cluster.Base.{
  ℕ, zero, suc, ◌+◌, ◌-◌, ◌≡◌, refl, Bool, true, false, ◌&&◌, ◌||◌, Option, none, some, List, [],
  ◌∷◌, ◌++◌, map, arith, Str, codes, leb, ltb, ◌==◌, nat_eq, if◌then◌else◌, elem, length, drop,
  str_dec, drop-append, ℕ_discrete, ap,
}

unfoldable pub upper_byte : ℕ → ℕ
upper_byte c = if leb b'a' c && leb c b'z' then c - 32 else c

unfoldable pub lower_byte : ℕ → ℕ
lower_byte c = if leb b'A' c && leb c b'Z' then c + 32 else c

-- `strings.ToUpper`
unfoldable pub to_upper : Str → Str
unfolding upper_byte
to_upper s = map upper_byte s

-- `strings.ToLower`
unfoldable pub to_lower : Str → Str
unfolding lower_byte
to_lower s = map lower_byte s

-- `strings.HasPrefix`
unfoldable pub has_prefix : Str → Str → Bool
has_prefix s [] = true
has_prefix [] (p ∷ ps) = false
has_prefix (c ∷ s) (p ∷ ps) = c == p && has_prefix s ps

-- `strings.TrimPrefix`
unfoldable pub trim_prefix : Str → Str → Str
unfolding has_prefix
trim_prefix s p = if has_prefix s p then drop (length p) s else s

-- `strings.IndexByte(s, c) != -1`
unfoldable pub has_byte : Str → ℕ → Bool
has_byte s c = elem c s

unfoldable pub is_space : ℕ → Bool
is_space c = (leb 9 c && leb c 13) || c == 32

-- The white space of Unicode that takes two and three bytes in UTF-8: U+0085 and U+00A0; U+1680,
-- U+2000 to U+200A, U+2028, U+2029, U+202F, U+205F and U+3000.
is_space2 : ℕ → ℕ → Bool
is_space2 a b = a == 194 && (b == 133 || b == 160)

is_space3 : ℕ → ℕ → ℕ → Bool
is_space3 a b c =
    (a == 225 && b == 154 && c == 128)
    || (a == 226 && b == 128 && ((leb 128 c && leb c 138) || c == 168 || c == 169 || c == 175))
    || (a == 226 && b == 129 && c == 159)
    || (a == 227 && b == 128 && c == 128)

-- The number of bytes of the white space that a text begins with; 0 if it begins with another
-- character. The first byte of a character is never a later byte of one, so that this needs to know
-- nothing of the text in front.
space_width : Str → ℕ
unfolding is_space is_space2 is_space3
space_width [] = 0
space_width (a ∷ []) = if is_space a then 1 else 0
space_width (a ∷ b ∷ []) = if is_space a then 1 else if is_space2 a b then 2 else 0
space_width (a ∷ b ∷ c ∷ _) =
    if is_space a then 1 else if is_space2 a b then 2 else if is_space3 a b c then 3 else 0

-- Each byte of a text, with whether it belongs to white space, where the first bytes, as many as the
-- number says, belong to white space that began before.
marked : ℕ → Str → List (ℕ × Bool)
unfolding space_width
marked k [] = []
marked (suc k) (c ∷ s) = (c, true) ∷ marked k s
marked zero (c ∷ s) = elim (space_width (c ∷ s)) [
  | zero ↦ (c, false) ∷ marked 0 s
  | suc k ↦ (c, true) ∷ marked k s
]

trim_left : List (ℕ × Bool) → List (ℕ × Bool)
trim_left [] = []
trim_left ((c, space) ∷ s) = let rest = trim_left s in if space then rest else (c, space) ∷ s

-- `strings.TrimSpace`
unfoldable pub trim_space : Str → Str
unfolding marked trim_left
trim_space s = map (λ (x : ℕ × Bool). x.0) (reverse (trim_left (reverse (trim_left (marked 0 s)))))

word_of : Str → List Str → List Str
word_of [] ws = ws
word_of (c ∷ w) ws = (c ∷ w) ∷ ws

fields_from : Str → List (ℕ × Bool) → List Str
unfolding word_of
fields_from w [] = word_of w []
fields_from w ((c, space) ∷ s) =
    let next = fields_from [] s in
    let more = fields_from (w ++ c ∷ []) s in if space then word_of w next else more

-- `strings.Fields`
unfoldable pub fields : Str → List Str
unfolding marked fields_from
fields s = fields_from [] (marked 0 s)

-- The text before the first separator, and the text behind it if there is one.
unfoldable pub cut_at : ℕ → Str → Str × Option Str
cut_at c [] = ([], none)
cut_at c (x ∷ s) =
    let (head, tail) = cut_at c s in if x == c then ([], some s) else (x ∷ head, tail)

-- `strings.SplitN(s, " ", 2)`
unfoldable pub split_n2 : Str → List Str
unfolding cut_at
split_n2 s = elim (cut_at 32 s).1 [
  | none ↦ (cut_at 32 s).0 ∷ []
  | some t ↦ (cut_at 32 s).0 ∷ t ∷ []
]

-- `strings.Split` with a separator of one byte.
unfoldable pub split_on : ℕ → Str → List Str
split_on c [] = [] ∷ []
split_on c (x ∷ s) =
    let rest = split_on c s in
    if x == c
    then [] ∷ rest
    else elim rest [ [] ↦ (x ∷ []) ∷ [] | part ∷ parts ↦ (x ∷ part) ∷ parts ]

-- Go's `<` on strings.
unfoldable pub str_lt : Str → Str → Bool
str_lt s [] = false
str_lt [] (_ ∷ _) = true
str_lt (a ∷ s) (b ∷ t) = if ltb a b then true else a == b && str_lt s t

-- `strings.Join(ss, "|")`
unfoldable pub join_bar : List Str → Str
join_bar [] = []
join_bar (s ∷ []) = s
join_bar (s ∷ t ∷ ss) = s ++ (b'|' ∷ join_bar (t ∷ ss))

pub has_prefix-split : (s p : Str) → has_prefix s p ≡ true → p ++ drop (length p) s ≡ s
unfolding has_prefix
has_prefix-split s [] h = refl
has_prefix-split [] (p ∷ ps) h = cc
has_prefix-split (c ∷ s) (p ∷ ps) h = ground (arith, has_prefix-split s ps)

pub has_prefix-append : (p s : Str) → has_prefix (p ++ s) p ≡ true
unfolding has_prefix
has_prefix-append [] s = refl
has_prefix-append (c ∷ p) s = ground (arith, has_prefix-append p s)

pub trim_prefix-append : (p s : Str) → trim_prefix (p ++ s) p ≡ s
unfolding trim_prefix
trim_prefix-append p s = ground (arith, has_prefix-append p s, drop-append p s)

cut_at-join : (c : ℕ) (a b : Str) → elem c a ≡ false → cut_at c (a ++ c ∷ b) ≡ (a, some b)
unfolding cut_at
cut_at-join c [] b h = ground arith
cut_at-join c (x ∷ a) b h = ground (arith, cut_at-join c a b)

-- Text joined by a space splits there again, if the first part has none.
pub split_n2-join : (a b : Str) → elem 32 a ≡ false → split_n2 (a ++ 32 ∷ b) ≡ a ∷ b ∷ []
unfolding split_n2
split_n2-join a b h = ground (arith, cut_at-join 32 a b)

cut_at-none : (c : ℕ) (a : Str) → elem c a ≡ false → cut_at c a ≡ (a, none)
unfolding cut_at
cut_at-none c [] h = refl
cut_at-none c (x ∷ a) h = ground (arith, cut_at-none c a)

pub split_n2-one : (a : Str) → elem 32 a ≡ false → split_n2 a ≡ a ∷ []
unfolding split_n2
split_n2-one a h = ground (arith, cut_at-none 32 a)

trim_example : fields (trim_space (codes " 12 34  5\n")) ≡ codes "12" ∷ codes "34" ∷ codes "5" ∷ []
unfolding trim_space fields is_space ℕ_discrete
trim_example = refl

split_example : split_n2 (codes "a b c") ≡ codes "a" ∷ codes "b c" ∷ []
unfolding split_n2 ℕ_discrete
split_example = refl

-- A no-break space alone has no field, as white space; one of its bytes alone is no white space.
no_break_space_example :
    (fields (194 ∷ 160 ∷ []) ≡ [])
    × (trim_space (194 ∷ 160 ∷ []) ≡ [])
    × (fields (160 ∷ []) ≡ (160 ∷ []) ∷ [])
unfolding trim_space fields is_space ℕ_discrete
no_break_space_example = (refl, refl, refl)
