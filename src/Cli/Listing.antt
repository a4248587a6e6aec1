-- ===== src/Cli/Listing.antt =====
-- The command `ls`: all clusters with the numbers of their members, or the members of one.
pub mod Counts
pub mod Sorting
use go_rtp_cluster.Base.{
  ℕ, suc, ◌≡◌, Bool, true, false, Option, none, some, List, [], ◌∷◌, ◌++◌, ℤ, pos, ◌-ℤ◌, ltb_ℤ, Str,
  codes, ltb, ◌==◌, nat_eq, str_eq, if◌then◌else◌, length, keep_if,
}
use go_rtp_cluster.Text.{str_lt}
use go_rtp_cluster.Text.Decimal.{itoa}
use go_rtp_cluster.Externals.{Externals}
use go_rtp_cluster.Member.{
  Member, Status, active, suspended, draining, status_is, status_string, is_online, get_caputil,
}
use go_rtp_cluster.Cluster.{Cluster}
use go_rtp_cluster.Cli.{Cli, Answer, say, Reaction, put_cluster, cluster_by_name}

-- `fmt.Sprintf(before + "%s\n", text)`
abbrev line : Str → Str → Answer
line before text = say (before ++ (text ++ 10 ∷ []))

abbrev when : Bool → List Answer → List Answer
when b answers = if b then answers else []

-- An empty line in front of every item but the first.
abbrev gap : ℕ → List Answer
gap idx = when (ltb 0 idx) (say (codes "\n") ∷ [])

module _ ⦃E : Externals⦄ where
  -- The members of the active list with a status.
  unfoldable pub count_status : Status → (ℕ → Member) → List ℕ → ℕ
  count_status s members [] = 0
  count_status s members (r ∷ rs) =
      let rest = count_status s members rs in
      if status_is (members r).status s then suc rest else rest

  -- The number shown as active.
  unfoldable pub shown_active : Cluster → ℤ
  shown_active c =
      (pos (length c.active) -ℤ pos (count_status suspended c.members c.active))
      -ℤ pos (count_status draining c.members c.active)

  cluster_lines : ℕ → Cluster → List Answer
  cluster_lines idx c =
      gap idx
      ++ (line (codes "Cluster: #") (itoa (pos idx))
          ∷ line (codes "    name = ") c.name
          ∷ line (codes "    address = ") c.address
          ∷ line (codes "    online members = ") (
              itoa (pos (length c.active))
              ++ (codes " ("
                  ++ (itoa (shown_active c)
                      ++ (codes " active, "
                          ++ (itoa (pos (count_status suspended c.members c.active))
                              ++ (codes " suspended, "
                                  ++ (itoa (pos (count_status draining c.members c.active))
                                      ++ codes " draining)")))))))
          ∷ line (codes "    offline members = ") (itoa (pos (length c.pending)))
          ∷ [])

  clusters_lines : (ℕ → Cluster) → ℕ → List ℕ → List Answer
  unfolding cluster_lines
  clusters_lines heap idx [] = []
  clusters_lines heap idx (p ∷ ps) = cluster_lines idx (heap p) ++ clusters_lines heap (suc idx) ps

  unfoldable pub insert_by_name : (ℕ → Member) → ℕ → List ℕ → List ℕ
  insert_by_name members r [] = r ∷ []
  insert_by_name members r (q ∷ qs) =
      let rest = insert_by_name members r qs in
      if str_lt (members q).name (members r).name then q ∷ rest else r ∷ q ∷ qs

  -- `sort.Slice` by name. It leaves open how members of one name are ordered; here they keep their
  -- order.
  unfoldable pub sort_by_name : (ℕ → Member) → List ℕ → List ℕ
  unfolding insert_by_name
  sort_by_name members [] = []
  sort_by_name members (r ∷ rs) = insert_by_name members r (sort_by_name members rs)

  -- What is shown of a member in either list.
  common_lines : ℕ → Member → List Answer
  common_lines idx m =
      gap idx
      ++ (line (codes "    RTPproxy: #") (itoa (pos idx))
          ∷ line (codes "        name = ") m.name
          ∷ line (codes "        address = ") (E.address m.client)
          ∷ (when (if m.wan_address == [] then false else true)
                (line (codes "        wan_address = ") m.wan_address ∷ [])
              ++ (when (if m.lan_address == [] then false else true)
                    (line (codes "        lan_address = ") m.lan_address ∷ [])
                  ++ ((elim m.cmd_out_address [
                    | none ↦ []
                    | some a ↦ line (codes "        cmd_out_address = ") (E.host_port_string a) ∷ []
                  ])
                      ++ (line (codes "        weight = ") (itoa m.weight)
                          ∷ line (codes "        capacity = ") (itoa m.capacity)
                          ∷ say (codes "        state = ")
                          ∷ [])))))

  online_lines : Member → List Answer
  online_lines m =
      say (codes "online\n")
      ∷ say (codes "        active sessions = ")
      ∷ (if ltb_ℤ (E.active_sessions m.client) (pos 0)
          then say (codes "UNKNOWN\n")
          else line [] (itoa (E.active_sessions m.client)))
      ∷ line (codes "        capacity utilization = ")
          (E.float_string (E.mul (get_caputil m) (E.of_int (pos 100))) ++ codes "%")
      ∷ line (codes "        average rtpc delay = ")
          (E.float_string (E.rtpc_delay m.client) ++ codes " sec")
      ∷ []

  active_lines : (ℕ → Member) → ℕ → List ℕ → List Answer
  unfolding common_lines online_lines
  active_lines members idx [] = []
  active_lines members idx (r ∷ rs) =
      let m = members r in
      common_lines idx m
      ++ ((if is_online m then online_lines m else say (codes "offline\n") ∷ [])
          ++ (line (codes "        status = ") (status_string m.status)
              ∷ active_lines members (suc idx) rs))

  pending_lines : (ℕ → Member) → ℕ → List ℕ → List Answer
  unfolding common_lines
  pending_lines members idx [] = []
  pending_lines members idx (r ∷ rs) =
      let m = members r in
      common_lines idx m
      ++ (say (if is_online m then codes "online\n" else codes "offline\n")
          ∷ pending_lines members (suc idx) rs)

  -- One cluster. The active list is sorted in place.
  list_cluster : ℕ → ℕ → Cli → Reaction
  unfolding active_lines pending_lines sort_by_name
  list_cluster p idx s =
      let c = s.heap p in
      let sorted = sort_by_name c.members c.active in
      some (
        put_cluster p (record c { active = sorted }) s,
        (say (codes "Online members of the cluster #" ++ (itoa (pos idx) ++ codes ":\n"))
              ∷ active_lines c.members 0 sorted)
            ++ (say (codes "\nOffline members of the cluster #" ++ (itoa (pos idx) ++ codes ":\n"))
                ∷ (pending_lines c.members 0 c.pending
                    ++ (when (length c.pending == 0) (say (codes "\n") ∷ [])
                        ++ (say (codes "OK\n") ∷ [])))),
      )

  -- The command `ls`, given its words.
  unfoldable pub ls : List Str → Cli → Reaction
  unfolding clusters_lines list_cluster
  ls [] s = none
  ls (_ ∷ []) s = some (s, clusters_lines s.heap 0 s.rtp_clusters ++ (say (codes "OK\n") ∷ []))
  ls (_ ∷ name ∷ _) s = elim (cluster_by_name name s) [
    | none ↦ some (s, say (codes "ERROR: " ++ (name ++ codes ": cluster not found\n")) ∷ [])
    | some (p, idx) ↦ list_cluster p idx s
  ]
