-- ===== src/Command/Udp.antt =====
-- `up_command_udp` and `rCachePurge`: commands in datagrams, which their sender repeats until it
-- has an answer. A command that is in flight is not run twice, and one that was answered lately is
-- answered from a cache of two generations.
pub mod Retransmit
pub mod Window
use go_rtp_cluster.Base.{
  ℕ, ◌≡◌, Bool, true, false, Option, none, some, List, [], ◌∷◌, ◌++◌, Str, ◌==◌, str_eq,
  if◌then◌else◌,
}
use go_rtp_cluster.Base.Dict.{lookup, insert, has}
use go_rtp_cluster.Externals.{Externals}
use go_rtp_cluster.Cluster.{Cluster, udp, Effect, send_to}
use go_rtp_cluster.Command.{Outcome}
use go_rtp_cluster.Command.Dispatch.{up_command}

module _ ⦃E : Externals⦄ where
  open E use {Float}

  -- The cached answer to a cookie, empty if there is none.
  unfoldable pub cached_response : Str → Cluster → Str
  cached_response cookie c = elim (lookup cookie c.l1rcache) [
    | some r ↦ r
    | none ↦ elim (lookup cookie c.l2rcache) [ some r ↦ r | none ↦ [] ]
  ]

  unfoldable pub run_command : Float → Str → Str → Str → Cluster → Outcome
  run_command rand cookie cmd address c =
      if has cookie c.commands_inflight
      then some (c, [])
      else if cached_response cookie c == []
      then up_command rand (udp cookie address) cmd
          (record c { commands_inflight = insert cookie true c.commands_inflight })
      else some (c, send_to (cookie ++ (b' ' ∷ cached_response cookie c)) address ∷ [])

  -- `up_command_udp`. The first field is read whether there is one or not.
  unfoldable pub up_command_udp : Float → Str → Str → Cluster → Outcome
  unfolding run_command
  up_command_udp rand text address c = elim (E.fields_n text 2) [
    | [] ↦ none
    | cookie ∷ [] ↦ some (c, [])
    | cookie ∷ cmd ∷ _ ↦ run_command rand cookie cmd address c
  ]

  -- `rCachePurge`, which runs every ten seconds.
  unfoldable pub rcache_purge : Cluster → Cluster
  rcache_purge c = record c { l2rcache = c.l1rcache; l1rcache = [] }
