-- ===== src/Cluster/Invariant/History.antt =====
-- The events of a cluster's members, in any order, keep the invariant of the member lists.
use go_rtp_cluster.Base.{
  ℕ, ◌≡◌, refl, true, false, ◌||◌, List, [], ◌∷◌, ℤ, arith, nat_eq, if◌then◌else◌, elem, Bool-cases,
  ltb_ℤ, inl, inr,
}
use go_rtp_cluster.Externals.{Externals, IsClient}
use go_rtp_cluster.Member.{Member, Status, is_online}
use go_rtp_cluster.Cluster.{Cluster, put}
use go_rtp_cluster.Cluster.Pool.{move_to_active, move_to_pending, rtpp_status_change}
use go_rtp_cluster.Cluster.Events.{
  add_member, go_online, go_offline, rtpp_active_change, update_active, age, bring_down, set_status,
}
use go_rtp_cluster.Cluster.Invariant.{
  Inv, put-Inv, set_status-Inv, age-Inv, bring_down-Inv, rtpp_active_change-Inv,
}
use go_rtp_cluster.Cluster.Invariant.Moves.{
  add_member-Inv, moved_up, moved_down, unlisted-Inv, move_to_active_absent, move_to_pending_absent,
}

module _ ⦃E : Externals⦄ where
  module _ (r : ℕ) (m : Member) (c : Cluster) (v : Inv c) where
    -- A member that was offline is moved if it is pending, and stands in no list if not.
    came_up :
        is_online (c.members r) ≡ false
        → is_online m ≡ true
        → m.on_state_change ≡ (c.members r).on_state_change
        → Inv (move_to_active r (put r m c))
    came_up before now same = elim (Bool-cases (elem r c.pending)) [
      | inl here ↦ moved_up r m c v (ground (arith, v.up r)) here now same
      | inr out ↦
          rw (move_to_active_absent r m c out) (unlisted-Inv r m c (ground (arith, v.up r)) v)
    ]

    -- A member that was online is moved if it is active, and stands in no list if not.
    went_down :
        (n : Member)
        → is_online (c.members r) ≡ true
        → is_online n ≡ false
        → n.on_state_change ≡ (c.members r).on_state_change
        → Inv (put r n (move_to_pending r (put r m c)))
    unfolding put
    went_down n before now same = elim (Bool-cases (elem r c.active)) [
      | inl here ↦ moved_down r m c v n here now same
      | inr out ↦ rw (move_to_pending_absent r m c out) (
          unlisted-Inv r n _ (ground (arith, v.down r))
            (unlisted-Inv r m c (ground (arith, v.down r)) v))
    ]

    -- Where the callback is not set, the member stands in no list.
    unwired :
        m.on_state_change ≡ (c.members r).on_state_change
        → (c.members r).on_state_change ≡ false
        → Inv (put r m c)
    unwired same off = unlisted-Inv r m c (ground (arith, v.wired r)) v

  module _ (client : IsClient E) (r : ℕ) (c : Cluster) (v : Inv c) where
    pub go_online-Inv : Inv (go_online r c)
    unfolding go_online rtpp_status_change
    go_online-Inv =
        ground (
          arith,
          client.online m.client,
          put-Inv r m' c,
          came_up r m' c v,
          unwired r m' c v refl,
          v,
        )
      where
        m : Member
        m = c.members r

        m' : Member
        m' = record m { client = E.go_online m.client }

    pub go_offline-Inv : Inv (go_offline r c)
    unfolding go_offline rtpp_status_change
    go_offline-Inv = ground (
      arith,
      client.offline m.client,
      put-Inv r (record m { client = E.go_offline m.client }) c,
      went_down r m' c v m'',
      unwired r m'' c v refl,
      v,
    )
      where
        m : Member
        m = c.members r

        m' : Member
        m' = record m { stats_cache = [] }

        m'' : Member
        m'' = record m' { client = E.go_offline m.client }

    pub update_active-Inv : (n s t p q : ℤ) → Inv (update_active r n s t p q c)
    unfolding update_active
    update_active-Inv n s t p q =
        put-Inv r _ d (client.updated n s t p q _) refl (ground (arith, kept, changed))
      where
        m : Member
        m = c.members r

        m' : Member
        m' = record m { asess_filtered = E.apply (E.of_int n) m.asess_filtered }

        kept : Inv (put r m' c)
        kept = put-Inv r m' c refl refl v

        changed : Inv (rtpp_active_change r n (put r m' c))
        changed = rtpp_active_change-Inv r (put r m' c) kept n

        d : Cluster
        d =
            if ltb_ℤ (E.active_sessions m.client) n || ltb_ℤ n (E.active_sessions m.client)
            then (if m.on_active_update then rtpp_active_change r n (put r m' c) else put r m' c)
            else put r m' c

  -- What can happen to the members of a cluster: the administrator adds, removes, pauses or resumes
  -- one, its client goes online or offline or brings new statistics, or its timer runs.
  pub data Event : Type 0 where
    adds : Member → Event
    goes_online goes_offline ages brings_down : ℕ → Event
    updates : ℕ → ℤ → ℤ → ℤ → ℤ → ℤ → Event
    sets_status : ℕ → Status → Event

  unfoldable pub step : Event → Cluster → Cluster
  step (adds m) c = add_member m c
  step (goes_online r) c = go_online r c
  step (goes_offline r) c = go_offline r c
  step (ages r) c = age r c
  step (brings_down r) c = bring_down r c
  step (updates r n s t p q) c = update_active r n s t p q c
  step (sets_status r s) c = set_status r s c

  unfoldable pub run : List Event → Cluster → Cluster
  unfolding step
  run [] c = c
  run (e ∷ es) c = run es (step e c)

  pub step-Inv : IsClient E → (e : Event) (c : Cluster) → Inv c → Inv (step e c)
  unfolding step
  step-Inv k (adds m) c v = add_member-Inv m c v
  step-Inv k (goes_online r) c v = go_online-Inv k r c v
  step-Inv k (goes_offline r) c v = go_offline-Inv k r c v
  step-Inv k (ages r) c v = age-Inv r c v
  step-Inv k (brings_down r) c v = bring_down-Inv r c v
  step-Inv k (updates r n s t p q) c v = update_active-Inv k r c v n s t p q
  step-Inv k (sets_status r s) c v = set_status-Inv r c v s

  -- With clients that are offline after `GoOffline`, stay online over `GoOnline` and are not
  -- changed in this by `UpdateActive`: whatever happens to its members, and in whatever order, a
  -- cluster keeps the invariant of its lists. No member stands in a list twice or in both, those of
  -- `active` are online and those of `pending` offline, and the cluster hears of their changes.
  run-Inv : IsClient E → (es : List Event) (c : Cluster) → Inv c → Inv (run es c)
  unfolding run
  run-Inv k [] c v = v
  run-Inv k (e ∷ es) c v = run-Inv k es (step e c) (step-Inv k e c v)
