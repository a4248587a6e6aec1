-- ===== src/Cli/Listing/Counts.antt =====
-- The numbers that `ls` shows of a cluster.
use go_rtp_cluster.Base.{
  ℕ, suc, ◌+◌, ◌≤◌, ◌≡◌, ◌∙◌, ap, List, [], ◌∷◌, pos, ◌-ℤ◌, arith, if◌then◌else◌, length,
}
use go_rtp_cluster.Externals.{Externals}
use go_rtp_cluster.Member.{Member, Status, active, suspended, draining, status_is}
use go_rtp_cluster.Cluster.{Cluster}
use go_rtp_cluster.Cli.Listing.{count_status, shown_active}

one_more :
    (s : Status) (n a b c : ℕ)
    → n ≡ a + b + c
    → suc n
      ≡ (if status_is s active then suc a else a)
        + (if status_is s suspended then suc b else b)
        + (if status_is s draining then suc c else c)
unfolding status_is
one_more active n a b c h = omega arith
one_more suspended n a b c h = omega arith
one_more draining n a b c h = omega arith

left_over : (a b c : ℕ) → (pos (a + b + c) -ℤ pos b) -ℤ pos c ≡ pos a
unfolding ◌-ℤ◌
left_over a b c = ground arith

module _ ⦃E : Externals⦄ where
  all_counted :
      (members : ℕ → Member) (rs : List ℕ)
      → length rs
        ≡ count_status active members rs
          + count_status suspended members rs
          + count_status draining members rs
  unfolding count_status
  all_counted members [] = omega arith
  all_counted members (r ∷ rs) =
      one_more (members r).status (length rs) _ _ _ (all_counted members rs)

  -- The number that `ls` shows as active, which it computes by subtraction, is the number of members
  -- of the active list whose status is active, and so it is never negative and at most the number
  -- that it shows as online.
  pub shown_active-count_status :
      (c : Cluster)
      → (shown_active c ≡ pos (count_status active c.members c.active))
        × (count_status active c.members c.active ≤ length c.active)
  unfolding shown_active
  shown_active-count_status c = (
    ap
          (λ n.
            (pos n -ℤ pos (count_status suspended c.members c.active))
            -ℤ pos (count_status draining c.members c.active))
          (all_counted c.members c.active)
        ∙ left_over _ _ _,
    omega (arith, all_counted c.members c.active),
  )
