-- ===== src/Cluster/Invariant/Moves.antt =====
-- A new member, a member that changes its list, and a write to a member that is in no list.
use go_rtp_cluster.Base.{
  ℕ, suc, ◌≡◌, true, false, ◌||◌, [], ◌∷◌, ◌++◌, arith, ◌==◌, nat_eq, if◌then◌else◌, elem,
  elem-append, Distinct-snoc,
}
use go_rtp_cluster.Externals.{Externals}
use go_rtp_cluster.Member.{Member, is_online, start}
use go_rtp_cluster.Cluster.{Cluster, put}
use go_rtp_cluster.Cluster.Pool.{
  remove_first, append_active, append_pending, move_to_active, move_to_pending,
}
use go_rtp_cluster.Cluster.Events.{add_member}
use go_rtp_cluster.Cluster.Invariant.{
  Inv, is_listed, elem-remove_first, remove_first-Distinct, same-Inv, allow-Frame,
}

module _ ⦃E : Externals⦄ where
  module _ (m : Member) (c : Cluster) (v : Inv c) (wired : m.on_state_change ≡ true) where
    abbrev grown : Cluster
    grown = record (put c.next m c) { next = suc c.next }

    unused : (elem c.next c.active ≡ false) × (elem c.next c.pending ≡ false)
    unused = ground (arith, v.allocated c.next)

    added_active : is_online m ≡ true → Inv (append_active c.next grown)
    unfolding append_active put
    added_active e = record {
      active_once = Distinct-snoc c.next c.active v.active_once unused.0;
      pending_once = v.pending_once;
      apart = λ q h. ground (arith, v.apart q, unused, elem-append q c.active (c.next ∷ []));
      allocated = λ q h. ground (arith, v.allocated q, elem-append q c.active (c.next ∷ []));
      up = λ q h. ground (arith, v.up q, unused, elem-append q c.active (c.next ∷ []));
      down = λ q h. ground (arith, v.down q, unused);
      wired = λ q h. ground (arith, v.wired q, elem-append q c.active (c.next ∷ []));
    }

    added_pending : is_online m ≡ false → Inv (append_pending c.next grown)
    unfolding append_pending put
    added_pending e = record {
      active_once = v.active_once;
      pending_once = Distinct-snoc c.next c.pending v.pending_once unused.1;
      apart = λ q h. ground (arith, v.apart q, unused, elem-append q c.pending (c.next ∷ []));
      allocated = λ q h. ground (arith, v.allocated q, elem-append q c.pending (c.next ∷ []));
      up = λ q h. ground (arith, v.up q, unused);
      down = λ q h. ground (arith, v.down q, unused, elem-append q c.pending (c.next ∷ []));
      wired = λ q h. ground (arith, v.wired q, elem-append q c.pending (c.next ∷ []));
    }

  start_wired : (m : Member) → (start m).on_state_change ≡ m.on_state_change
  unfolding start
  start_wired m = ground arith

  pub add_member-Inv : (m : Member) (c : Cluster) → Inv c → Inv (add_member m c)
  unfolding add_member
  add_member-Inv m c v = same-Inv d _ (allow-Frame m' d) (ground (arith, online, offline))
    where
      m' : Member
      m' = start (record m { on_state_change = true })

      online : is_online m' ≡ true → Inv (append_active c.next (grown m' c v (start_wired _)))
      online = added_active m' c v (start_wired _)

      offline : is_online m' ≡ false → Inv (append_pending c.next (grown m' c v (start_wired _)))
      offline = added_pending m' c v (start_wired _)

      d : Cluster
      d =
          if is_online m'
          then append_active c.next (grown m' c v (start_wired _))
          else append_pending c.next (grown m' c v (start_wired _))

  -- An object that no list holds may be written at will.
  pub unlisted-Inv :
      (r : ℕ) (m : Member) (c : Cluster) → is_listed r c ≡ false → Inv c → Inv (put r m c)
  unfolding put
  unlisted-Inv r m c h v = record {
    active_once = v.active_once;
    pending_once = v.pending_once;
    apart = v.apart;
    allocated = v.allocated;
    up = λ q i. ground (arith, v.up q);
    down = λ q i. ground (arith, v.down q);
    wired = λ q i. ground (arith, v.wired q);
  }

  module _ (r : ℕ) (m : Member) (c : Cluster) (v : Inv c) where
    pub moved_up :
        elem r c.active ≡ false
        → elem r c.pending ≡ true
        → is_online m ≡ true
        → m.on_state_change ≡ (c.members r).on_state_change
        → Inv (move_to_active r (put r m c))
    unfolding move_to_active put
    moved_up out here now same = rw here (record {
      active_once = Distinct-snoc r c.active v.active_once out;
      pending_once = remove_first-Distinct r c.pending v.pending_once;
      apart = λ q h. ground (arith, v.apart q, in_active q, in_pending q);
      allocated = λ q h. ground (arith, v.allocated q, in_active q, in_pending q);
      up = λ q h. ground (arith, v.up q, in_active q);
      down = λ q h. ground (arith, v.down q, in_pending q);
      wired = λ q h. ground (arith, v.wired q, v.wired r, in_active q, in_pending q);
    })
      where
        in_active : (q : ℕ) → elem q (c.active ++ r ∷ []) ≡ (elem q c.active || elem q (r ∷ []))
        in_active q = elem-append q c.active (r ∷ [])

        in_pending :
            (q : ℕ)
            → elem q (remove_first r c.pending) ≡ (if r == q then false else elem q c.pending)
        in_pending q = elem-remove_first q r c.pending v.pending_once

    pub moved_down :
        (n : Member)
        → elem r c.active ≡ true
        → is_online n ≡ false
        → n.on_state_change ≡ (c.members r).on_state_change
        → Inv (put r n (move_to_pending r (put r m c)))
    unfolding move_to_pending put
    moved_down n here now same = rw here (record {
      active_once = remove_first-Distinct r c.active v.active_once;
      pending_once = Distinct-snoc r c.pending v.pending_once (v.apart r here);
      apart = λ q h. ground (arith, v.apart q, in_active q, in_pending q);
      allocated = λ q h. ground (arith, v.allocated q, in_active q, in_pending q);
      up = λ q h. ground (arith, v.up q, in_active q);
      down = λ q h. ground (arith, v.down q, in_pending q);
      wired = λ q h. ground (arith, v.wired q, v.wired r, in_active q, in_pending q);
    })
      where
        in_active :
            (q : ℕ) → elem q (remove_first r c.active) ≡ (if r == q then false else elem q c.active)
        in_active q = elem-remove_first q r c.active v.active_once

        in_pending : (q : ℕ) → elem q (c.pending ++ r ∷ []) ≡ (elem q c.pending || elem q (r ∷ []))
        in_pending q = elem-append q c.pending (r ∷ [])

  module _ (r : ℕ) (m : Member) (c : Cluster) where
    pub move_to_active_absent : elem r c.pending ≡ false → move_to_active r (put r m c) ≡ put r m c
    unfolding move_to_active put
    move_to_active_absent out = rw out

    pub move_to_pending_absent : elem r c.active ≡ false → move_to_pending r (put r m c) ≡ put r m c
    unfolding move_to_pending put
    move_to_pending_absent out = rw out
