-- ===== src/Cluster/Pool.antt =====
-- The lists of online (`active`) and offline (`pending`) members.

use go_rtp_cluster.Base.{
  ℕ, suc, Bool, Option, none, some, List, [], ◌∷◌, ◌++◌, Str, ◌==◌, nat_eq, str_eq, if◌then◌else◌,
  elem,
}
use go_rtp_cluster.Externals.{Externals}
use go_rtp_cluster.Member.{Member}
use go_rtp_cluster.Cluster.{Cluster, all_members}

-- `append(l[:i], l[i+1:]...)` at the first `i` where the pointer stands.
unfoldable pub remove_first : ℕ → List ℕ → List ℕ
remove_first r [] = []
remove_first r (x ∷ xs) = if x == r then xs else x ∷ remove_first r xs

module _ ⦃E : Externals⦄ where
  unfoldable pub append_active : ℕ → Cluster → Cluster
  append_active r c = record c { active = c.active ++ r ∷ [] }

  unfoldable pub append_pending : ℕ → Cluster → Cluster
  append_pending r c = record c { pending = c.pending ++ r ∷ [] }

  unfoldable pub move_to_active : ℕ → Cluster → Cluster
  unfolding remove_first
  move_to_active r c =
      if elem r c.pending
      then record c { pending = remove_first r c.pending; active = c.active ++ r ∷ [] }
      else c

  unfoldable pub move_to_pending : ℕ → Cluster → Cluster
  unfolding remove_first
  move_to_pending r c =
      if elem r c.active
      then record c { active = remove_first r c.active; pending = c.pending ++ r ∷ [] }
      else c

  unfoldable pub remove_pending : ℕ → Cluster → Cluster
  unfolding remove_first
  remove_pending r c = record c { pending = remove_first r c.pending }

  unfoldable pub remove_active : ℕ → Cluster → Cluster
  unfolding remove_first
  remove_active r c = record c { active = remove_first r c.active }

  abbrev pub is_in_active : ℕ → Cluster → Bool
  is_in_active r c = elem r c.active

  abbrev pub is_in_pending : ℕ → Cluster → Bool
  is_in_pending r c = elem r c.pending

  -- `rtpp_status_change`
  unfoldable pub rtpp_status_change : ℕ → Bool → Cluster → Cluster
  unfolding move_to_active move_to_pending
  rtpp_status_change r online c = if online then move_to_active r c else move_to_pending r c

  unfoldable pub find_name : (ℕ → Member) → Str → ℕ → List ℕ → Option (ℕ × ℕ)
  find_name members name idx [] = none
  find_name members name idx (r ∷ rs) =
      let rest = find_name members name (suc idx) rs in
      if (members r).name == name then some (r, idx) else rest

  -- `rtpp_by_name`: the first member of that name and its place.
  unfoldable pub rtpp_by_name : Str → Cluster → Option (ℕ × ℕ)
  unfolding find_name
  rtpp_by_name name c = find_name c.members name 0 (all_members c)
