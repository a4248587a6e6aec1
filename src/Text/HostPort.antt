-- ===== src/Text/HostPort.antt =====
-- Go's `net.SplitHostPort`.
use mathlib.Core.Option
use go_rtp_cluster.Base.{
  ℕ, suc, ◌+◌, ◌≡◌, refl, ◌||◌, Option, none, some, [], ◌∷◌, Str, codes, ◌==◌, nat_eq,
  if◌then◌else◌, elem, take, drop, ℕ_discrete,
}

index_byte : Str → ℕ → Option ℕ
index_byte [] c = none
index_byte (x ∷ s) c = let rest = index_byte s c in if x == c then some 0 else Option.map suc rest

last_index : Str → ℕ → Option ℕ
last_index [] c = none
last_index (x ∷ s) c = elim (last_index s c) [
  | some i ↦ some (suc i)
  | none ↦ if x == c then some 0 else none
]

-- `[host]:port`: the closing bracket stands right before the last colon, at `i`.
split_bracketed : Str → ℕ → Option (Str × Str)
unfolding index_byte
split_bracketed s i = elim (index_byte s b']') [
  | none ↦ none
  | some end ↦
      if (end + 1) == i
      then (if elem b'[' (drop 1 s) || elem b']' (drop (end + 1) s)
          then none
          else some (drop 1 (take end s), drop (i + 1) s))
      else none
]

split_plain : Str → ℕ → Option (Str × Str)
split_plain s i =
    if elem b':' (take i s) || elem b'[' s || elem b']' s
    then none
    else some (take i s, drop (i + 1) s)

-- `none` is the error; which error it is, the program does not look at.
unfoldable pub split_host_port : Str → Option (Str × Str)
unfolding last_index split_bracketed split_plain
split_host_port [] = none
split_host_port (c ∷ s) = elim (last_index (c ∷ s) b':') [
  | none ↦ none
  | some i ↦ if c == b'[' then split_bracketed (c ∷ s) i else split_plain (c ∷ s) i
]

split_v4 : split_host_port (codes "10.0.0.1:22222") ≡ some (codes "10.0.0.1", codes "22222")
unfolding split_host_port ℕ_discrete
split_v4 = refl

split_v6 : split_host_port (codes "[::1]:7") ≡ some (codes "::1", codes "7")
unfolding split_host_port ℕ_discrete
split_v6 = refl

split_errors :
    (split_host_port (codes "10.0.0.1") ≡ none)
    × (split_host_port (codes "::1") ≡ none)
    × (split_host_port (codes "[::1]") ≡ none)
unfolding split_host_port ℕ_discrete
split_errors = (refl, refl, refl)
