-- ===== src/System/Aside.antt =====
-- What happens to the members leaves the commands in flight and the broadcasts alone. Also the
-- number of active members, by the pointers that were allocated.
use go_rtp_cluster.Base.{
  ℕ, zero, suc, ◌≤◌, ◌<◌, ◌≡◌, refl, true, List, [], ◌∷◌, ℤ, arith, nat_eq, elem, Distinct, length,
}
use go_rtp_cluster.Externals.{Externals}
use go_rtp_cluster.Member.{Member}
use go_rtp_cluster.Cluster.{Cluster, put}
use go_rtp_cluster.Cluster.Pool.{
  remove_first, append_active, append_pending, move_to_active, move_to_pending, remove_active,
  remove_pending, rtpp_status_change,
}
use go_rtp_cluster.Cluster.Events.{
  allow, disallow, add_member, go_online, go_offline, rtpp_active_change, update_active, age,
  bring_down, set_status,
}
use go_rtp_cluster.Cluster.Invariant.{Inv, elem-remove_first, remove_first-Distinct}
use go_rtp_cluster.Cluster.Invariant.History.{
  Event, adds, goes_online, goes_offline, ages, brings_down, updates, sets_status, step,
}

length-remove_first : (r : ℕ) (xs : List ℕ) → length xs ≤ suc (length (remove_first r xs))
unfolding remove_first
length-remove_first r [] = omega arith
length-remove_first r (x ∷ xs) = ground (arith, length-remove_first r xs)

-- A list without repetition of numbers below a bound is not longer than the bound.
length-Distinct :
    (n : ℕ) (xs : List ℕ) → Distinct xs → ((r : ℕ) → elem r xs ≡ true → r < n) → length xs ≤ n
length-Distinct zero [] d h = omega arith
length-Distinct zero (x ∷ xs) d h = absurd (ground (arith, h x))
length-Distinct (suc n) xs d h = omega (
  arith,
  length-remove_first n xs,
  length-Distinct n (remove_first n xs) (remove_first-Distinct n xs d)
      (λ r e. ground (arith, h r, elem-remove_first r n xs d, e)),
)

module _ ⦃E : Externals⦄ where
  abbrev pub Aside : Cluster → Cluster → Type 0
  Aside c d =
      (d.commands_inflight ≡ c.commands_inflight)
      × (d.broadcasts ≡ c.broadcasts)
      × (d.next_broadcast ≡ c.next_broadcast)
      × (d.next ≤ suc c.next)

  add_member-Aside : (m : Member) (c : Cluster) → Aside c (add_member m c)
  unfolding add_member put append_active append_pending allow
  add_member-Aside m c = ground arith

  go_online-Aside : (r : ℕ) (c : Cluster) → Aside c (go_online r c)
  unfolding go_online put rtpp_status_change move_to_active
  go_online-Aside r c = ground arith

  go_offline-Aside : (r : ℕ) (c : Cluster) → Aside c (go_offline r c)
  unfolding go_offline put rtpp_status_change move_to_pending
  go_offline-Aside r c = ground arith

  age-Aside : (r : ℕ) (c : Cluster) → Aside c (age r c)
  unfolding age put
  age-Aside r c = ground arith

  bring_down-Aside : (r : ℕ) (c : Cluster) → Aside c (bring_down r c)
  unfolding bring_down put disallow remove_active remove_pending
  bring_down-Aside r c = ground arith

  update_active-Aside :
      (r : ℕ) (n s t p q : ℤ) (c : Cluster) → Aside c (update_active r n s t p q c)
  unfolding update_active put rtpp_active_change remove_active remove_pending
  update_active-Aside r n s t p q c = ground arith

  pub step-Aside : (e : Event) (c : Cluster) → Aside c (step e c)
  unfolding step set_status put
  step-Aside (adds m) c = add_member-Aside m c
  step-Aside (goes_online r) c = go_online-Aside r c
  step-Aside (goes_offline r) c = go_offline-Aside r c
  step-Aside (ages r) c = age-Aside r c
  step-Aside (brings_down r) c = bring_down-Aside r c
  step-Aside (updates r n s t p q) c = update_active-Aside r n s t p q c
  step-Aside (sets_status r s) c = (refl, refl, refl, omega arith)

  pub length-active : (c : Cluster) → Inv c → length c.active ≤ c.next
  length-active c v =
      length-Distinct c.next c.active v.active_once (λ r h. v.allocated r (ground (arith, h)))
