-- ===== src/Cluster/Drain.antt =====
-- The removal of a member: at once, or after its calls have ended.
use go_rtp_cluster.Base.{
  ℕ, suc, ◌<◌, ◌≡◌, refl, ◌≢◌, Bool, true, false, ◌&&◌, ◌||◌, not, List, pos, [], ◌∷◌, ℤ, arith,
  ltb_ℤ, ◌==◌, nat_eq, if◌then◌else◌, elem, elem-append, length,
}
use go_rtp_cluster.Externals.{Externals}
use go_rtp_cluster.Member.{Member, draining, status_is, start, shut}
use go_rtp_cluster.Cluster.{Cluster, put}
use go_rtp_cluster.Cluster.Pool.{
  remove_first, append_active, append_pending, move_to_active, move_to_pending, remove_pending,
  remove_active, rtpp_status_change,
}
use go_rtp_cluster.Cluster.Events.{
  none_left, add_member, go_online, go_offline, rtpp_active_change, update_active, age, bring_down,
  set_status,
}
use go_rtp_cluster.Cluster.Invariant.{
  Inv, is_listed, elem-remove_first, disallow-Frame, allow-Frame,
}
use go_rtp_cluster.Cluster.Invariant.History.{
  Event, adds, goes_online, goes_offline, ages, brings_down, updates, sets_status, step, run,
}

still_absent : (r s : ℕ) (xs : List ℕ) → elem r xs ≡ false → elem r (remove_first s xs) ≡ false
unfolding remove_first
still_absent r s [] h = refl
still_absent r s (x ∷ xs) h = ground (arith, still_absent r s xs)

module _ ⦃E : Externals⦄ where
  -- Out of both lists, with its client shut down.
  abbrev pub IsRemoved : ℕ → Member → Cluster → Type 0
  IsRemoved r m d = (is_listed r d ≡ false) × ((d.members r).client ≡ E.shutdown m.client)

  -- In the lists where it was, marked, and watched for the end of its calls.
  abbrev pub IsDraining : ℕ → Cluster → Cluster → Type 0
  IsDraining r c d =
      (d.active ≡ c.active)
      × (d.pending ≡ c.pending)
      × ((d.members r).status ≡ draining)
      × ((d.members r).on_active_update ≡ true)

  abbrev pub has_calls : Member → Bool
  has_calls m = not (length m.call_id_map == 0) && ltb_ℤ (pos 0) (E.active_sessions m.client)

  module _ (r : ℕ) (c : Cluster) (v : Inv c) where
    -- In a cluster with the invariant of the lists, a member that is brought down stays in its list
    -- to drain if it is active, its call map is not empty and its RTPproxy counts sessions.
    -- Otherwise it leaves both lists at once and its client is shut down.
    pub bring_down_lem :
        if elem r c.active && has_calls (c.members r)
        then IsDraining r c (bring_down r c)
        else IsRemoved r (c.members r) (bring_down r c)
    unfolding bring_down put shut remove_active remove_pending
    bring_down_lem = ground (
      arith,
      disallow-Frame (c.members r) c,
      elem-remove_first r r c.active v.active_once,
      elem-remove_first r r c.pending v.pending_once,
      v.apart r,
    )

    -- New statistics of a draining member that is in a list and is watched for the end of its
    -- calls, which differ in their sessions from the last ones: it is removed when they show no
    -- session or its call map is empty, and stays where it is otherwise.
    pub update_active-draining :
        (n s t p q : ℤ)
        → is_listed r c ≡ true
        → (c.members r).status ≡ draining
        → (c.members r).on_active_update ≡ true
        → E.active_sessions (c.members r).client ≢ n
        → let d = update_active r n s t p q c in
          if length (c.members r).call_id_map == 0 || none_left n
          then is_listed r d ≡ false
          else (d.active ≡ c.active) × (d.pending ≡ c.pending)
    unfolding update_active rtpp_active_change put remove_active remove_pending status_is
    update_active-draining n s t p q here status watched changed = ground (
      arith,
      differs (E.active_sessions (c.members r).client) n changed,
      elem-remove_first r r c.active v.active_once,
      elem-remove_first r r c.pending v.pending_once,
      v.apart r,
    )
      where
        differs : (a b : ℤ) → a ≢ b → (ltb_ℤ a b || ltb_ℤ b a) ≡ true
        differs a b h = ground arith

  -- A member that is in neither list stays so.
  step-gone :
      (r : ℕ) (e : Event) (c : Cluster)
      → r < c.next
      → is_listed r c ≡ false
      → (r < (step e c).next) × (is_listed r (step e c) ≡ false)
  unfolding step add_member go_online go_offline age bring_down update_active set_status put
      rtpp_status_change rtpp_active_change remove_active remove_pending move_to_active
      move_to_pending append_active append_pending
  step-gone r (adds m) c u h = ground (
    arith,
    allow-Frame m' (append_active c.next d),
    allow-Frame m' (append_pending c.next d),
    elem-append r c.active (c.next ∷ []),
    elem-append r c.pending (c.next ∷ []),
  )
    where
      m' : Member
      m' = start (record m { on_state_change = true })

      d : Cluster
      d = record (put c.next m' c) { next = suc c.next }
  step-gone r (goes_online s) c u h =
      ground (arith, elem-append r c.active (s ∷ []), still_absent r s c.pending)
  step-gone r (goes_offline s) c u h =
      ground (arith, elem-append r c.pending (s ∷ []), still_absent r s c.active)
  step-gone r (ages s) c u h = (u, h)
  step-gone r (brings_down s) c u h =
      ground (
        arith,
        disallow-Frame (c.members s) c,
        still_absent r s c.active,
        still_absent r s c.pending,
      )
  step-gone r (updates s n a b d f) c u h =
      ground (arith, still_absent r s c.active, still_absent r s c.pending)
  step-gone r (sets_status s t) c u h = (u, h)

  -- A member that is in neither list never comes to a list again, whatever happens to the members
  -- and whatever its client reports.
  pub run-gone :
      (r : ℕ) (es : List Event) (c : Cluster)
      → r < c.next
      → is_listed r c ≡ false
      → is_listed r (run es c) ≡ false
  unfolding run
  run-gone r [] c u h = h
  run-gone r (e ∷ es) c u h = let (u', h') = step-gone r e c u h in run-gone r es (step e c) u' h'
