-- ===== src/Cluster/Names.antt =====
-- The names of the members of a cluster.

pub mod Joining
use go_rtp_cluster.Base.{
  ℕ, suc, ◌<◌, ◌≡◌, refl, ◌≢◌, ◌∙◌, sym, true, false, ◌||◌, Option, none, some, List, [], ◌∷◌, Str,
  arith, ◌==◌, nat_eq, str_eq, if◌then◌else◌, elem, elem-append, if_cases, Bool-cases, inl, inr,
}
use go_rtp_cluster.Externals.{Externals}
use go_rtp_cluster.Member.{Member, is_online, Status, start, shut, draining}
use go_rtp_cluster.Relay.{DisconnectNotify}
use go_rtp_cluster.Cluster.{Cluster, put, all_members}
use go_rtp_cluster.Cluster.Pool.{
  remove_first, find_name, rtpp_by_name, append_active, append_pending, remove_active,
  remove_pending,
}
use go_rtp_cluster.Cluster.Events.{add_member, disallow, bring_down, set_status, update_dnrelay}
use go_rtp_cluster.Cluster.Invariant.{is_listed, Frame, allow-Frame, disallow-Frame}

elem-kept : (r s : ℕ) (xs : List ℕ) → elem r (remove_first s xs) ≡ true → elem r xs ≡ true
unfolding remove_first
elem-kept r s [] h = h
elem-kept r s (x ∷ xs) h = ground (arith, elem-kept r s xs)

module _ ⦃E : Externals⦄ where
  -- The listed members are objects of the heap, and no two of them have the same name.
  pub record UniqueNames (c : Cluster) : Type 0 where
    pub fresh : (r : ℕ) → is_listed r c ≡ true → r < c.next
    pub unique :
        (r q : ℕ)
        → is_listed r c ≡ true
        → is_listed q c ≡ true
        → (c.members r).name ≡ (c.members q).name
        → r ≡ q

  -- A cluster with no more members than another, and with the same names.
  pub fewer-UniqueNames :
      (c d : Cluster)
      → ((r : ℕ) → is_listed r d ≡ true → is_listed r c ≡ true)
      → ((r : ℕ) → (d.members r).name ≡ (c.members r).name)
      → d.next ≡ c.next
      → UniqueNames c
      → UniqueNames d
  fewer-UniqueNames c d listed named e v = record {
    fresh = λ r h. rw e (v.fresh r (listed r h));
    unique =
        λ r q h k same. v.unique r q (listed r h) (listed q k) (sym (named r) ∙ (same ∙ named q));
  }

  pub put-UniqueNames :
      (r : ℕ) (m : Member) (c : Cluster)
      → m.name ≡ (c.members r).name
      → UniqueNames c
      → UniqueNames (put r m c)
  unfolding put
  put-UniqueNames r m c e = fewer-UniqueNames c (put r m c) (λ q h. h) (λ q. ground (arith, e)) refl

  pub set_status-UniqueNames :
      (r : ℕ) (s : Status) (c : Cluster) → UniqueNames c → UniqueNames (set_status r s c)
  unfolding set_status
  set_status-UniqueNames r s c = put-UniqueNames r _ c refl

  framed-UniqueNames : (c d : Cluster) → Frame c d → UniqueNames c → UniqueNames d
  framed-UniqueNames c d (ea, ep, em, en) =
      fewer-UniqueNames c d (λ r h. rw (← ea, ← ep) h) (λ r. rw em refl) en

  pub update_dnrelay-Frame :
      (dnconfig : Option DisconnectNotify) (c : Cluster) → Frame c (update_dnrelay dnconfig c).0
  unfolding update_dnrelay
  update_dnrelay-Frame none c = ground arith
  update_dnrelay-Frame (some dnconfig) c = ground arith

  remove_active-UniqueNames :
      (r : ℕ) (c : Cluster) → UniqueNames c → UniqueNames (remove_active r c)
  unfolding remove_active
  remove_active-UniqueNames r c =
      fewer-UniqueNames c (remove_active r c) (λ q h. ground (arith, elem-kept q r c.active))
        (λ q. refl) refl

  remove_pending-UniqueNames :
      (r : ℕ) (c : Cluster) → UniqueNames c → UniqueNames (remove_pending r c)
  unfolding remove_pending
  remove_pending-UniqueNames r c =
      fewer-UniqueNames c (remove_pending r c) (λ q h. ground (arith, elem-kept q r c.pending))
        (λ q. refl) refl

  pub bring_down-UniqueNames : (r : ℕ) (c : Cluster) → UniqueNames c → UniqueNames (bring_down r c)
  unfolding bring_down shut remove_active remove_pending
  bring_down-UniqueNames r c v = ground (arith, removed, drains, left)
    where
      m : Member
      m = c.members r

      d : Cluster
      d = disallow m c

      w : UniqueNames d
      w = framed-UniqueNames c d (disallow-Frame m c) v

      same : m.name ≡ (d.members r).name
      same = let (_, _, em, _) = disallow-Frame m c in rw em refl

      removed : UniqueNames (put r (shut m) (remove_active r d))
      removed = put-UniqueNames r (shut m) _ same (remove_active-UniqueNames r d w)

      drains : UniqueNames (put r (record m { status = draining; on_active_update = true }) d)
      drains = put-UniqueNames r _ d same w

      left : UniqueNames (put r (shut m) (remove_pending r d))
      left = put-UniqueNames r (shut m) _ same (remove_pending-UniqueNames r d w)

  pub update_dnrelay-UniqueNames :
      (dnconfig : Option DisconnectNotify) (c : Cluster)
      → UniqueNames c
      → UniqueNames (update_dnrelay dnconfig c).0
  update_dnrelay-UniqueNames dnconfig c = framed-UniqueNames c _ (update_dnrelay-Frame dnconfig c)

  -- A cluster without members.
  pub none-UniqueNames : (c : Cluster) → c.active ≡ [] → c.pending ≡ [] → UniqueNames c
  none-UniqueNames c e f = record {
    fresh = λ r h. ground (arith, e, f);
    unique = λ r q h. ground (arith, e, f);
  }
