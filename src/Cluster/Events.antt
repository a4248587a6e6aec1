-- ===== src/Cluster/Events.antt =====
-- What adds, moves and removes the members of a cluster: `add_member`, the events of a member with
-- the callbacks that the cluster put into it, and the removal on the administrator's command.
use go_rtp_cluster.Base.{
  ℕ, suc, Bool, true, false, ◌&&◌, ◌||◌, not, Option, none, some, List, [], ℤ, pos, Str, ltb_ℤ,
  ◌==◌, nat_eq, if◌then◌else◌, length,
}
use go_rtp_cluster.Text.HostPort.{split_host_port}
use go_rtp_cluster.Externals.{Externals}
use go_rtp_cluster.Member.{
  Member, Status, draining, status_is, is_online, start, shut, call_id_map_aging,
}
use go_rtp_cluster.Relay
use go_rtp_cluster.Relay.{Relay, Worker, DisconnectNotify}
use go_rtp_cluster.Base.Dict.{Dict}
use go_rtp_cluster.Cluster.{Cluster, put}
use go_rtp_cluster.Cluster.Pool.{
  append_active, append_pending, remove_pending, remove_active, rtpp_status_change, is_in_active,
  is_in_pending,
}

-- `active_sessions <= 0`
abbrev pub none_left : ℤ → Bool
none_left n = not (ltb_ℤ (pos 0) n)

module _ ⦃E : Externals⦄ where
  -- Every change of the relay leaves the rest of the cluster alone.
  with_relay : (Relay → Relay) → Cluster → Cluster
  with_relay f c = elim c.dnrelay [ none ↦ c | some d ↦ record c { dnrelay = some (f d) } ]

  unfoldable pub allow : Member → Cluster → Cluster
  unfolding with_relay
  allow m c =
      if E.is_local m.client then c else with_relay (Relay.append_allow_from (E.address m.client)) c

  unfoldable pub disallow : Member → Cluster → Cluster
  unfolding with_relay
  disallow m c = if E.is_local m.client then c else elim (split_host_port (E.address m.client)) [
    | none ↦ c
    | some (ip, _) ↦ with_relay (Relay.disallow_from ip) c
  ]

  -- The new object gets the next pointer.
  unfoldable pub add_member : Member → Cluster → Cluster
  add_member m c =
      let m' = start (record m { on_state_change = true }) in
      let c' = record (put c.next m' c) { next = suc c.next } in
      allow m' (if is_online m' then append_active c.next c' else append_pending c.next c')

  -- `GoOnline` of a member, and `rtpp_status_change` if the callback is set.
  unfoldable pub go_online : ℕ → Cluster → Cluster
  go_online r c =
      let m = c.members r in
      let m' = record m { client = E.go_online m.client } in
      if is_online m || not (is_online m')
      then put r m' c
      else if m.on_state_change
      then rtpp_status_change r true (put r m' c)
      else put r m' c

  -- `GoOffline` of a member: the callback runs before the client goes offline.
  unfoldable pub go_offline : ℕ → Cluster → Cluster
  go_offline r c =
      let m = c.members r in
      let m' = record m { stats_cache = [] } in
      if is_online m
      then (let m'' = record m' { client = E.go_offline m.client } in
          if m.on_state_change
          then put r m'' (rtpp_status_change r false (put r m' c))
          else put r m'' c)
      else put r (record m { client = E.go_offline m.client }) c

  -- `rtpp_active_change`
  unfoldable pub rtpp_active_change : ℕ → ℤ → Cluster → Cluster
  rtpp_active_change r active_sessions c =
      let m = c.members r in
      if status_is m.status draining && (length m.call_id_map == 0 || none_left active_sessions)
      then put r (shut m) (if is_in_pending r c then remove_pending r c else remove_active r c)
      else c

  -- `UpdateActive` of a member, from the answer to a heartbeat.
  unfoldable pub update_active : ℕ → ℤ → ℤ → ℤ → ℤ → ℤ → Cluster → Cluster
  update_active r active_sessions sessions_created active_streams preceived ptransmitted c =
      let m = c.members r in
      let m' = record m { asess_filtered = E.apply (E.of_int active_sessions) m.asess_filtered } in
      let c' = put r m' c in
      let c'' : Cluster =
        if ltb_ℤ (E.active_sessions m.client) active_sessions
          || ltb_ℤ active_sessions (E.active_sessions m.client)
        then (if m.on_active_update then rtpp_active_change r active_sessions c' else c')
        else c' in
      let m'' = c''.members r in
      put r
        (record m'' {
          client =
              E.update_active active_sessions sessions_created active_streams preceived ptransmitted
                m''.client;
        })
        c''

  -- The aging timer of a member.
  unfoldable pub age : ℕ → Cluster → Cluster
  age r c = put r (call_id_map_aging (c.members r)) c

  -- `bring_down`
  unfoldable pub bring_down : ℕ → Cluster → Cluster
  bring_down r c =
      let m = c.members r in
      let d = disallow m c in
      if is_in_active r c
      then (if length m.call_id_map == 0 || none_left (E.active_sessions m.client)
          then put r (shut m) (remove_active r d)
          else put r (record m { status = draining; on_active_update = true }) d)
      else put r (shut m) (remove_pending r d)

  -- `modify ... pause` and `modify ... resume`
  unfoldable pub set_status : ℕ → Status → Cluster → Cluster
  set_status r s c = put r (record (c.members r) { status = s }) c

  replace_relay : Option (List Str) → DisconnectNotify → Cluster → Cluster
  replace_relay allow_from dnconfig c = elim (Relay.new_relay dnconfig) [
    | none ↦ record c { dnrelay = none }
    | some d ↦ elim allow_from [
      | none ↦ record c { dnrelay = some d }
      | some l ↦ record c { dnrelay = some (record d { clim = E.set_accept_list l d.clim }) }
    ]
  ]

  abbrev closing : Relay → Option (Relay × Dict Worker)
  closing d = some (Relay.shutdown d)

  -- `update_dnrelay`. The accept list of the old relay goes over to the new one; the second result
  -- is the old relay, shut down.
  unfoldable pub update_dnrelay :
      Option DisconnectNotify → Cluster → Cluster × Option (Relay × Dict Worker)
  unfolding replace_relay
  update_dnrelay none c = elim c.dnrelay [
    | none ↦ (c, none)
    | some d ↦ (record c { dnrelay = none }, closing d)
  ]
  update_dnrelay (some dnconfig) c = elim c.dnrelay [
    | none ↦ (replace_relay none dnconfig c, none)
    | some d ↦
        let renewed = replace_relay (E.get_accept_list d.clim) dnconfig c in
        if Relay.cmp_config dnconfig d then (c, none) else (renewed, closing d)
  ]
