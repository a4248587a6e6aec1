-- ===== src/Cluster/Lifecycle.antt =====
-- `NewRtp_cluster` and `Shutdown`: the beginning and the end of a cluster.
use go_rtp_cluster.Base.{
  ℕ, true, false, Option, none, some, List, [], ◌∷◌, Str, codes, ◌==◌, str_eq, if◌then◌else◌,
}
use go_rtp_cluster.Text.HostPort.{split_host_port}
use go_rtp_cluster.Externals.{Externals}
use go_rtp_cluster.Member.{Member, shut}
use go_rtp_cluster.Relay.{DisconnectNotify, Relay}
use go_rtp_cluster.Relay
use go_rtp_cluster.Cluster.{Cluster, Broadcast, put, all_members}
use go_rtp_cluster.Cluster.Events.{update_dnrelay}

module _ ⦃E : Externals⦄ where
  -- What the operating system and the memory allocator decide: the error that the server of a
  -- protocol and address fails with, the text of the errors of `net.SplitHostPort`, the address that
  -- `net.ResolveUDPAddr` or `net.ResolveUnixAddr` finds, the capacity of the array behind the active
  -- list of a cluster, and what unused memory holds.
  pub record World : Type 0 where
    pub server_error : Str → Str → Option Str
    pub split_error : Str → Str
    pub resolve : Str → Str → Str
    pub capacity : ℕ → ℕ
    pub blank : ℕ → Member
    pub blank_broadcasts : ℕ → Broadcast

  -- A cluster, or the text of an error.
  pub data Opened : Type 0 where
    opened : Cluster → Opened
    refused : Str → Opened

  abbrev pub empty_cluster : World → Str → Str → Cluster
  empty_cluster w name address = record {
    name = name;
    address = address;
    active = [];
    pending = [];
    members = w.blank;
    next = 0;
    server_runs = true;
    purge_runs = true;
    commands_inflight = [];
    l1rcache = [];
    l2rcache = [];
    dnrelay = none;
    capacity_limit_soft = false;
    broadcasts = w.blank_broadcasts;
    next_broadcast = 0;
  }

  start_cluster : World → Str → Str → Str → Option DisconnectNotify → Opened
  start_cluster w name protocol address dnconfig = elim (w.server_error protocol address) [
    | some e ↦ refused e
    | none ↦ opened (update_dnrelay dnconfig (empty_cluster w name address)).0
  ]

  -- `NewRtp_cluster`
  unfoldable pub new_rtp_cluster : World → Str → Str → Str → Option DisconnectNotify → Opened
  unfolding start_cluster
  new_rtp_cluster w name protocol address dnconfig =
      if protocol == codes "unix"
      then start_cluster w name protocol address dnconfig
      else elim (split_host_port address) [
        | none ↦ refused (w.split_error address)
        | some _ ↦ start_cluster w name protocol address dnconfig
      ]

  unfoldable pub shut_all : List ℕ → Cluster → Cluster
  shut_all [] c = c
  shut_all (r ∷ rs) c = shut_all rs (put r (shut (c.members r)) c)

  -- `Shutdown`. The relay is shut down, and the cluster keeps its pointer to it.
  unfoldable pub shutdown : Cluster → Cluster
  unfolding shut_all
  shutdown c =
      let d = shut_all (all_members c) c in
      record d {
        active = [];
        pending = [];
        server_runs = false;
        purge_runs = false;
        dnrelay = elim d.dnrelay [ none ↦ none | some relay ↦ some (Relay.shutdown relay).0 ];
      }
