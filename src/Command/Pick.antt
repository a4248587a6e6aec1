-- ===== src/Command/Pick.antt =====
-- `pick_proxy`: the member that gets a new session.
pub mod Choice
pub mod Overload
use go_rtp_cluster.Base.{
  ℕ, Bool, true, false, ◌&&◌, Option, none, some, List, [], ◌∷◌, ℤ, pos, ◌==◌, if◌then◌else◌,
  keep_if,
}
use go_rtp_cluster.Externals.{Externals}
use go_rtp_cluster.Member.{Member, active, status_is, is_online, get_caputil}
use go_rtp_cluster.Cluster.{Cluster}

module _ ⦃E : Externals⦄ where
  open E use {Float}

  abbrev pub zero_float : Float
  zero_float = E.of_int (pos 0)

  -- The weight of a member falls with its load: weight * (1 - caputil).
  unfoldable pub weight_of : Member → Float
  weight_of m = E.mul (E.of_int m.weight) (E.sub (E.of_int (pos 1)) (get_caputil m))

  abbrev pub is_candidate : Member → Bool
  is_candidate m = status_is m.status active && is_online m

  -- `active` of the source: a member with its weight.
  unfoldable pub candidates : (ℕ → Member) → List ℕ → List (ℕ × Float)
  candidates members [] = []
  candidates members (r ∷ rs) =
      let rest = candidates members rs in
      if is_candidate (members r) then (r, weight_of (members r)) ∷ rest else rest

  -- `available`: the candidates below their capacity.
  abbrev pub available : List (ℕ × Float) → List (ℕ × Float)
  available = keep_if (λ it. E.lt zero_float it.1)

  unfoldable pub sum_weights : Float → List (ℕ × Float) → Float
  sum_weights total [] = total
  sum_weights total (it ∷ its) = sum_weights (E.add total it.1) its

  -- The threshold falls by each weight in turn; where it reaches 0 the loop stops. If it never
  -- does, the last one is taken.
  unfoldable pub walk : ℕ → Float → List (ℕ × Float) → ℕ
  walk last thr [] = last
  walk last thr (it ∷ its) =
      let thr' = E.sub thr it.1 in
      let next = walk it.0 thr' its in if E.le thr' zero_float then it.0 else next

  -- The first of the greatest weights.
  unfoldable pub heaviest : ℕ × Float → List (ℕ × Float) → ℕ × Float
  heaviest best [] = best
  heaviest best (it ∷ its) = heaviest (if E.lt best.1 it.1 then it else best) its

  overload : Bool → List (ℕ × Float) → Option ℕ
  unfolding heaviest
  overload soft [] = none
  overload soft (it ∷ its) = if soft then some (heaviest it its).0 else none

  choose : Bool → Float → List (ℕ × Float) → List (ℕ × Float) → Option ℕ
  unfolding walk overload
  choose soft rand all (it ∷ its) = some (
      walk it.0 (E.mul (E.sub (E.of_int (pos 1)) rand) (sum_weights zero_float (it ∷ its)))
        (it ∷ its))
  choose soft rand all [] = overload soft all

  -- `pick_proxy`, with the number that `rand.Float64` gives; `none` is nil.
  unfoldable pub pick_proxy : Float → Cluster → Option ℕ
  unfolding choose candidates
  pick_proxy rand c =
      let all = candidates c.members c.active in
      choose c.capacity_limit_soft rand all (available all)
