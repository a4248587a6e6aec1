-- ===== src/Command/Reply.antt =====
-- `down_command`: the answer of a member, on its way back to who sent the command.
pub mod Addresses
pub mod Sending
use go_rtp_cluster.Base.{
  ℕ, ◌≡◌, Bool, true, false, ◌&&◌, not, Option, none, some, List, [], ◌∷◌, ◌++◌, Str, codes, ◌==◌,
  str_eq, if◌then◌else◌, take,
}
use go_rtp_cluster.Base.Dict.{insert, erase}
use go_rtp_cluster.Text.{to_upper, has_byte, fields, trim_space}
use go_rtp_cluster.Externals.{Externals, Cmd}
use go_rtp_cluster.Member.{Member}
use go_rtp_cluster.Cluster.{Cluster, Clim, udp, unix, Effect, send_to, send, close}
use go_rtp_cluster.Command.{Outcome}

-- `is_dst_local`
unfoldable pub is_dst_local : Str → Bool
is_dst_local destination_ip = false

module _ ⦃E : Externals⦄ where
  open E use {Rest}

  -- `clim.Send`; that of a `udpCLIM` puts the cookie in front.
  abbrev pub send_clim : Clim → Str → List Effect
  send_clim (udp cookie address) text = send_to (cookie ++ (b' ' ∷ text)) address ∷ []
  send_clim (unix k) text = send k text ∷ []

  -- `clim.Close`; that of a `udpCLIM` only forgets the server.
  abbrev pub close_clim : Clim → List Effect
  close_clim (udp cookie address) = []
  close_clim (unix k) = close k ∷ []

  -- The address in an answer is replaced by the member's public one. The first field of the answer
  -- is read whether there is one or not.
  with_wan : Str → Cmd Rest → Member → List Str → Option Str
  with_wan result cmd m [] = none
  with_wan result cmd m (port ∷ _) =
      let dip = cmd.ul_opts.destination_ip in
      let lip = cmd.ul_opts.local_ip in
      let rewritten : Option Str = some (port ++ (b' ' ∷ m.wan_address)) in
      if not (port == codes "0")
        && not (dip == [])
        && not (is_dst_local dip)
        && not (lip == m.lan_address)
      then rewritten
      else if not (port == codes "0") && lip == []
      then rewritten
      else some result

  from_member : Str → Cmd Rest → Option Member → Option Str
  unfolding with_wan is_dst_local
  from_member result cmd none = none
  from_member result cmd (some m) =
      if m.wan_address == []
      then some result
      else with_wan result cmd m (fields (trim_space result))

  -- The text that `down_command` sends. The member is looked at only for a successful U or L; it is
  -- then nil, or its fields are read.
  unfoldable pub answer : Str → Cmd Rest → Option Member → Option Str
  unfolding from_member
  answer [] cmd m = some (codes "E997")
  answer (b ∷ result) cmd m =
      if has_byte (codes "UL") cmd.kind && not (to_upper (b ∷ []) == codes "E")
      then from_member (b ∷ result) cmd m
      else some (b ∷ result)

  finish : Clim → Cluster → Cluster
  finish (udp cookie address) c = record c { commands_inflight = erase cookie c.commands_inflight }
  finish (unix k) c = c

  remember : Clim → Str → Cluster → Cluster
  remember (udp cookie address) response c = record c {
    l1rcache = insert cookie response c.l1rcache;
  }
  remember (unix k) response c = c

  -- `down_command`; the member is `none` where the program passes nil.
  unfoldable pub down_command : Str → Clim → Cmd Rest → Option Member → Cluster → Outcome
  unfolding finish remember
  down_command result clim cmd m c = elim (answer result cmd m) [
    | none ↦ none
    | some text ↦
        let response = text ++ (10 ∷ []) in
        some (remember clim response (finish clim c), send_clim clim response ++ close_clim clim)
  ]
