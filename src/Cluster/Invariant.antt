-- ===== src/Cluster/Invariant.antt =====
-- The invariant of the member lists, and the changes that keep it; moves between them and whole histories are below.
pub mod Moves
pub mod History
use go_rtp_cluster.Base.{
  ℕ, suc, ◌+◌, ◌≤◌, ◌<◌, ◌≡◌, refl, Bool, true, false, ◌&&◌, ◌||◌, not, Option, none, some, List,
  [], ◌∷◌, ◌++◌, ℤ, Str, arith, ltb, ◌==◌, nat_eq, if◌then◌else◌, elem, elem-append, Distinct,
  Distinct-snoc, sym, ap, ◌∙◌,
}
use go_rtp_cluster.Externals.{Externals, IsClient}
use go_rtp_cluster.Member.{Member, Status, draining, is_online, start, shut, call_id_map_aging}
use go_rtp_cluster.Cluster.{Cluster, put}
use go_rtp_cluster.Cluster.Pool.{
  remove_first, append_active, append_pending, move_to_active, move_to_pending, remove_pending,
  remove_active, rtpp_status_change,
}
use go_rtp_cluster.Cluster.Events.{
  allow, disallow, add_member, go_online, go_offline, rtpp_active_change, update_active, age,
  bring_down, set_status,
}

pub elem-remove_first :
    (q r : ℕ) (xs : List ℕ)
    → Distinct xs
    → elem q (remove_first r xs) ≡ (if r == q then false else elem q xs)
unfolding remove_first
elem-remove_first q r [] d = ground arith
elem-remove_first q r (x ∷ xs) d = ground (arith, elem-remove_first q r xs)

pub remove_first-Distinct : (r : ℕ) (xs : List ℕ) → Distinct xs → Distinct (remove_first r xs)
unfolding remove_first
remove_first-Distinct r [] d = tt
remove_first-Distinct r (x ∷ xs) d =
    ground (arith, elem-remove_first x r xs, remove_first-Distinct r xs)

pub remove_first_absent : (r : ℕ) (xs : List ℕ) → elem r xs ≡ false → remove_first r xs ≡ xs
unfolding remove_first
remove_first_absent r [] h = refl
remove_first_absent r (x ∷ xs) h = ground (arith, remove_first_absent r xs)

module _ ⦃E : Externals⦄ where
  abbrev pub is_listed : ℕ → Cluster → Bool
  is_listed r c = elem r c.active || elem r c.pending

  -- The two lists hold each member once, in one of them. The members of `active` are online and
  -- those of `pending` are offline, and the cluster hears of their changes.
  pub record Inv (c : Cluster) : Type 0 where
    pub active_once : Distinct c.active
    pub pending_once : Distinct c.pending
    pub apart : (r : ℕ) → elem r c.active ≡ true → elem r c.pending ≡ false
    pub allocated : (r : ℕ) → is_listed r c ≡ true → r < c.next
    pub up : (r : ℕ) → elem r c.active ≡ true → is_online (c.members r) ≡ true
    pub down : (r : ℕ) → elem r c.pending ≡ true → is_online (c.members r) ≡ false
    pub wired : (r : ℕ) → is_listed r c ≡ true → (c.members r).on_state_change ≡ true

  -- A write that leaves the client's state and the callback alone.
  pub put-Inv :
      (r : ℕ) (m : Member) (c : Cluster)
      → is_online m ≡ is_online (c.members r)
      → m.on_state_change ≡ (c.members r).on_state_change
      → Inv c
      → Inv (put r m c)
  unfolding put
  put-Inv r m c e f v = record {
    active_once = v.active_once;
    pending_once = v.pending_once;
    apart = v.apart;
    allocated = v.allocated;
    up = λ q h. ground (arith, v.up q);
    down = λ q h. ground (arith, v.down q);
    wired = λ q h. ground (arith, v.wired q);
  }

  -- A removed member may be left in any state.
  removed-Inv :
      (r : ℕ) (m : Member) (c d : Cluster)
      → d.active ≡ remove_first r c.active
      → d.pending ≡ remove_first r c.pending
      → d.members ≡ c.members
      → d.next ≡ c.next
      → Inv c
      → Inv (put r m d)
  unfolding put
  removed-Inv r m c d ea ep em en v = record {
    active_once = rw ea (remove_first-Distinct r c.active v.active_once);
    pending_once = rw ep (remove_first-Distinct r c.pending v.pending_once);
    apart = λ q h. ground (arith, v.apart q, in_active q, in_pending q);
    allocated = λ q h. ground (arith, v.allocated q, in_active q, in_pending q);
    up = λ q h. ground (arith, v.up q, in_active q);
    down = λ q h. ground (arith, v.down q, in_pending q);
    wired = λ q h. ground (arith, v.wired q, in_active q, in_pending q);
  }
    where
      in_active : (q : ℕ) → elem q d.active ≡ (if r == q then false else elem q c.active)
      in_active q = rw ea (elem-remove_first q r c.active v.active_once)

      in_pending : (q : ℕ) → elem q d.pending ≡ (if r == q then false else elem q c.pending)
      in_pending q = rw ep (elem-remove_first q r c.pending v.pending_once)

  -- Only the lists, the heap and the next pointer count.
  abbrev pub Frame : Cluster → Cluster → Type 0
  Frame c d =
      (d.active ≡ c.active) × (d.pending ≡ c.pending) × (d.members ≡ c.members) × (d.next ≡ c.next)

  pub same-Inv : (c d : Cluster) → Frame c d → Inv c → Inv d
  same-Inv c d (ea, ep, em, en) v = record {
    active_once = rw ea v.active_once;
    pending_once = rw ep v.pending_once;
    apart = λ q. rw (ea, ep) (v.apart q);
    allocated = λ q. rw (ea, ep, en) (v.allocated q);
    up = λ q. rw (ea, em) (v.up q);
    down = λ q. rw (ep, em) (v.down q);
    wired = λ q. rw (ea, ep, em) (v.wired q);
  }

  pub disallow-Frame : (m : Member) (c : Cluster) → Frame c (disallow m c)
  unfolding disallow
  disallow-Frame m c = ground arith

  pub allow-Frame : (m : Member) (c : Cluster) → Frame c (allow m c)
  unfolding allow
  allow-Frame m c = ground arith

  remove_active-Inv :
      (r : ℕ) (m : Member) (c d : Cluster)
      → Frame c d
      → elem r c.pending ≡ false
      → Inv c
      → Inv (put r m (remove_active r d))
  unfolding remove_active
  remove_active-Inv r m c d (ea, ep, em, en) h v =
      removed-Inv r m c _ (ap (remove_first r) ea) (ep ∙ sym (remove_first_absent r c.pending h)) em
        en v

  remove_pending-Inv :
      (r : ℕ) (m : Member) (c d : Cluster)
      → Frame c d
      → elem r c.active ≡ false
      → Inv c
      → Inv (put r m (remove_pending r d))
  unfolding remove_pending
  remove_pending-Inv r m c d (ea, ep, em, en) h v =
      removed-Inv r m c _ (ea ∙ sym (remove_first_absent r c.active h)) (ap (remove_first r) ep) em
        en v

  apart_back : (r : ℕ) (c : Cluster) → Inv c → elem r c.pending ≡ true → elem r c.active ≡ false
  apart_back r c v h = ground (arith, v.apart r)

  module _ (r : ℕ) (c : Cluster) (v : Inv c) where
    pub set_status-Inv : (s : Status) → Inv (set_status r s c)
    unfolding set_status
    set_status-Inv s = put-Inv r _ c refl refl v

    pub age-Inv : Inv (age r c)
    unfolding age call_id_map_aging
    age-Inv = put-Inv r _ c (ground arith) (ground arith) v

    pub bring_down-Inv : Inv (bring_down r c)
    unfolding bring_down
    bring_down-Inv = ground (arith, removed, drains, left)
      where
        d : Cluster
        d = disallow (c.members r) c

        f : Frame c d
        f = disallow-Frame (c.members r) c

        removed : elem r c.active ≡ true → Inv (put r (shut (c.members r)) (remove_active r d))
        removed h = remove_active-Inv r _ c d f (v.apart r h) v

        drains : Inv (put r (record (c.members r) { status = draining; on_active_update = true }) d)
        drains = put-Inv r _ d (rw f.2) (rw f.2) (same-Inv c d f v)

        left : elem r c.active ≡ false → Inv (put r (shut (c.members r)) (remove_pending r d))
        left h = remove_pending-Inv r _ c d f h v

    pub rtpp_active_change-Inv : (n : ℤ) → Inv (rtpp_active_change r n c)
    unfolding rtpp_active_change
    rtpp_active_change-Inv n = ground (arith, in_pending, in_active)
      where
        in_pending : elem r c.pending ≡ true → Inv (put r (shut (c.members r)) (remove_pending r c))
        in_pending h = remove_pending-Inv r _ c c (refl, refl, refl, refl) (apart_back r c v h) v

        in_active : elem r c.pending ≡ false → Inv (put r (shut (c.members r)) (remove_active r c))
        in_active h = remove_active-Inv r _ c c (refl, refl, refl, refl) h v
