-- ===== src/Cluster.antt =====
-- rtp_cluster.go: the state of one cluster. A member is an object of the cluster's heap `members`
-- and a pointer to it is its number; the lists `active` and `pending` hold pointers. Each method is
-- one step here, whatever part of it the program runs under the lock of the cluster.
pub mod Pool
pub mod Events
pub mod Invariant
pub mod Drain
pub mod Lifecycle
pub mod Names
use go_rtp_cluster.Base.{
  ℕ, suc, ◌++◌, Bool, true, false, Option, none, some, List, [], ◌∷◌, ℤ, Str, ◌==◌, nat_eq,
  if◌then◌else◌,
}
use go_rtp_cluster.Base.Dict.{Dict}
use go_rtp_cluster.Externals.{Externals, Cmd}
use go_rtp_cluster.Member.{Member}
use go_rtp_cluster.Relay.{Relay}

-- The sender of a command: a `udpCLIM` with its cookie and address, or a connection of the control
-- socket.
pub data Clim : Type 0 where
  udp : Str → Str → Clim
  unix : ℕ → Clim

module _ ⦃E : Externals⦄ where
  open E use {Rest, Stats}

  -- `broadcaster`, with `rtpp`, the variable of `up_command` that the callbacks of a broadcast share.
  pub record Broadcast : Type 0 where
    pub bcount : ℤ
    pub ecount : ℤ
    pub nparts : ℤ
    pub results : List Str
    pub clim : Clim
    pub cmd : Cmd Rest
    pub sobj : Option Stats
    pub rtpp : Option ℕ

  -- The function that is run on the answer to a command: `down_command`, `ignore_response`,
  -- `merge_results` or `merge_stats_results`.
  pub data Callback : Type 0 where
    down : Clim → Cmd Rest → ℕ → Callback
    ignore : ℕ → Callback
    merge merge_stats : ℕ → Callback

  -- What a handler sends: a command to a member, a datagram, data to a control connection, or the
  -- closing of one.
  pub data Effect : Type 0 where
    command : ℕ → Str → Callback → Effect
    send_to : Str → Str → Effect
    send : ℕ → Str → Effect
    close : ℕ → Effect

  pub record Cluster : Type 0 where
    pub name : Str
    pub address : Str
    pub active : List ℕ
    pub pending : List ℕ
    pub members : ℕ → Member
    pub next : ℕ
    pub server_runs : Bool
    pub purge_runs : Bool
    pub commands_inflight : Dict Bool
    pub l1rcache : Dict Str
    pub l2rcache : Dict Str
    pub dnrelay : Option Relay
    pub capacity_limit_soft : Bool
    pub broadcasts : ℕ → Broadcast
    pub next_broadcast : ℕ

  -- Writes through a pointer.
  unfoldable pub put : ℕ → Member → Cluster → Cluster
  put r m c = record c { members = λ q. if r == q then m else c.members q }

  unfoldable pub put_broadcast : ℕ → Broadcast → Cluster → Cluster
  put_broadcast b v c = record c { broadcasts = λ q. if b == q then v else c.broadcasts q }

  -- The lists of members.
  abbrev pub all_members : Cluster → List ℕ
  all_members c = c.active ++ c.pending
