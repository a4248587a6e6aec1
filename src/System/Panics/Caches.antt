-- ===== src/System/Panics/Caches.antt =====
-- What happens to a member leaves its cache of statistics as it is, or empties it.
use go_rtp_cluster.Base.{
  ℕ, ◌≡◌, refl, ◌⊎◌, inl, inr, [], ℤ, arith, ◌==◌, nat_eq, if◌then◌else◌, if_cases, ◌||◌, length,
  ltb_ℤ, ap,
}
use go_rtp_cluster.Base.Dict.{lookup}
use go_rtp_cluster.Externals.{Externals}
use go_rtp_cluster.Member.{Member, Status, shut, start, call_id_map_aging}
use go_rtp_cluster.Cluster.{Cluster, put}
use go_rtp_cluster.Cluster.Pool.{
  is_in_active, append_active, append_pending, move_to_active, move_to_pending, remove_active,
  remove_pending, rtpp_status_change,
}
use go_rtp_cluster.Cluster.Events.{
  none_left, allow, disallow, add_member, go_online, go_offline, rtpp_active_change, update_active,
  age, bring_down, set_status,
}
use go_rtp_cluster.Cluster.Invariant.{disallow-Frame}
use go_rtp_cluster.Cluster.Invariant.History.{
  Event, adds, goes_online, goes_offline, ages, brings_down, updates, sets_status, step,
}
use go_rtp_cluster.System.Quiet.{Clean, Filled}

module _ ⦃E : Externals⦄ where
  abbrev Emptied : Member → Member → Type 0
  Emptied m n = (n.stats_cache ≡ m.stats_cache) ⊎ (n.stats_cache ≡ [])

  Emptied-Filled : (m n : Member) → Emptied m n → Filled m → Filled n
  unfolding lookup
  Emptied-Filled m n (inl e) v = record { good = λ k. rw e (v.good k) }
  Emptied-Filled m n (inr e) v = record { good = λ k. rw e (λ f. cc) }

  Emptied-Clean :
      (c d : Cluster) → ((q : ℕ) → Emptied (c.members q) (d.members q)) → Clean c → Clean d
  Emptied-Clean c d h v = record {
    filled = λ q. Emptied-Filled (c.members q) (d.members q) (h q) (v.filled q);
  }

  go_online-Emptied : (r q : ℕ) (c : Cluster) → Emptied (c.members q) ((go_online r c).members q)
  unfolding go_online put rtpp_status_change move_to_active
  go_online-Emptied r q c = ground arith

  go_offline-Emptied : (r q : ℕ) (c : Cluster) → Emptied (c.members q) ((go_offline r c).members q)
  unfolding go_offline put rtpp_status_change move_to_pending
  go_offline-Emptied r q c = ground arith

  age-Emptied : (r q : ℕ) (c : Cluster) → Emptied (c.members q) ((age r c).members q)
  unfolding age put call_id_map_aging
  age-Emptied r q c = ground arith

  abbrev Empties : Cluster → Cluster → Type 0
  Empties c d = (q : ℕ) → Emptied (c.members q) (d.members q)

  Empties-trans : (c d e : Cluster) → Empties c d → Empties d e → Empties c e
  Empties-trans c d e f g q = ground (arith, f q, g q)

  put-Empties :
      (r : ℕ) (m : Member) (c d : Cluster)
      → d.members ≡ c.members
      → m.stats_cache ≡ (c.members r).stats_cache
      → Empties c (put r m d)
  unfolding put
  put-Empties r m c d e f q = ground (arith, ap (λ h. h q) e, f)

  then_put-Empties :
      (r : ℕ) (m : Member) (c d : Cluster)
      → Empties c d
      → m.stats_cache ≡ (d.members r).stats_cache
      → Empties c (put r m d)
  then_put-Empties r m c d f e = Empties-trans c d (put r m d) f (put-Empties r m d d refl e)

  bring_down-Empties : (r : ℕ) (c : Cluster) → Empties c (bring_down r c)
  unfolding bring_down shut remove_active remove_pending
  bring_down-Empties r c =
      if_cases (Empties c) (is_in_active r c)
        (λ _.
          if_cases (Empties c) (length m.call_id_map == 0 || none_left (E.active_sessions m.client))
            (λ _. put-Empties r _ c _ kept refl) (λ _. put-Empties r _ c _ kept refl))
        (λ _. put-Empties r _ c _ kept refl)
    where
      m : Member
      m = c.members r

      kept : (disallow m c).members ≡ c.members
      kept = (disallow-Frame m c).2

  rtpp_active_change-Empties : (r : ℕ) (n : ℤ) (c : Cluster) → Empties c (rtpp_active_change r n c)
  unfolding rtpp_active_change put shut remove_active remove_pending
  rtpp_active_change-Empties r n c q = ground arith

  update_active-Empties :
      (r : ℕ) (n s t p z : ℤ) (c : Cluster) → Empties c (update_active r n s t p z c)
  unfolding update_active
  update_active-Empties r n s t p z c = then_put-Empties r _ c d changed refl
    where
      m' : Member
      m' = record (c.members r) {
        asess_filtered = E.apply (E.of_int n) (c.members r).asess_filtered;
      }

      kept : Empties c (put r m' c)
      kept = put-Empties r m' c c refl refl

      d : Cluster
      d =
          if ltb_ℤ (E.active_sessions (c.members r).client) n
            || ltb_ℤ n (E.active_sessions (c.members r).client)
          then (if (c.members r).on_active_update
              then rtpp_active_change r n (put r m' c)
              else put r m' c)
          else put r m' c

      changed : Empties c d
      changed =
          if_cases (Empties c)
            (ltb_ℤ (E.active_sessions (c.members r).client) n
              || ltb_ℤ n (E.active_sessions (c.members r).client))
            (λ _.
              if_cases (Empties c) (c.members r).on_active_update
                (λ _.
                  Empties-trans c (put r m' c) (rtpp_active_change r n (put r m' c)) kept
                    (rtpp_active_change-Empties r n (put r m' c)))
                (λ _. kept))
            (λ _. kept)

  set_status-Emptied :
      (r q : ℕ) (s : Status) (c : Cluster) → Emptied (c.members q) ((set_status r s c).members q)
  unfolding set_status put
  set_status-Emptied r q s c = ground arith

  add_member-Filled :
      (m : Member) (q : ℕ) (c : Cluster)
      → Filled m
      → Filled (c.members q)
      → Filled ((add_member m c).members q)
  unfolding add_member put append_active append_pending allow start
  add_member-Filled m q c v w = record { good = λ k. ground (arith, v.good k, w.good k) }

  -- New members with an orderly cache.
  abbrev pub Orderly : Event → Type 0
  Orderly (adds m) = Filled m
  Orderly (goes_online r) = Unit
  Orderly (goes_offline r) = Unit
  Orderly (ages r) = Unit
  Orderly (brings_down r) = Unit
  Orderly (updates r n s t p q) = Unit
  Orderly (sets_status r s) = Unit

  pub step-Clean : (e : Event) (c : Cluster) → Orderly e → Clean c → Clean (step e c)
  unfolding step
  step-Clean (adds m) c o = λ v. record { filled = λ q. add_member-Filled m q c o (v.filled q) }
  step-Clean (goes_online r) c o = Emptied-Clean c _ (λ q. go_online-Emptied r q c)
  step-Clean (goes_offline r) c o = Emptied-Clean c _ (λ q. go_offline-Emptied r q c)
  step-Clean (ages r) c o = Emptied-Clean c _ (λ q. age-Emptied r q c)
  step-Clean (brings_down r) c o = Emptied-Clean c _ (bring_down-Empties r c)
  step-Clean (updates r n s t p q) c o = Emptied-Clean c _ (update_active-Empties r n s t p q c)
  step-Clean (sets_status r s) c o = Emptied-Clean c _ (λ q. set_status-Emptied r q s c)
