-- ===== src/Relay.antt =====
-- dnrelay.go: the relay of disconnect notifications. A relay listens on TCP for the notifications
-- of the RTPproxies and hands each to the worker of the socket that the notification names.
pub mod Workers
pub mod Delivery
use go_rtp_cluster.Base.{
  ℕ, Bool, true, false, ◌&&◌, Option, none, some, List, [], ◌∷◌, ◌++◌, Str, codes, ltb, ◌==◌,
  str_eq, if◌then◌else◌, length,
}
use go_rtp_cluster.Base.Dict.{Dict, lookup, insert}
use go_rtp_cluster.Text.{trim_prefix, split_n2}
use go_rtp_cluster.Text.HostPort.{split_host_port}
use go_rtp_cluster.Externals.{Externals}

-- `DisconnectNotify` of rtp_cluster_config.go.
pub record DisconnectNotify : Type 0 where
  pub section_name : Str
  pub in_address : Str
  pub dest_sprefix : Str

-- `DNWorker`; `queue` is what the channel `wi` holds, and `connected` says whether `s` is not nil.
pub record Worker : Type 0 where
  pub spath : Str
  pub queue : List Str
  pub connected : Bool
  pub stopped : Bool

-- The capacity of `wi`.
abbrev pub queue_cap : ℕ
queue_cap = 1000

-- `newDNWorker`
unfoldable pub new_worker : Str → Worker
new_worker spath = record {
  spath = trim_prefix spath (codes "unix:");
  queue = [];
  connected = false;
  stopped = false;
}

-- `Send_denotify`; `none` is a send that blocks on the full channel.
unfoldable pub send_denotify : Str → Worker → Option Worker
send_denotify dnstring w =
    if ltb (length w.queue) queue_cap
    then some (record w { queue = w.queue ++ dnstring ∷ [] })
    else none

module _ ⦃E : Externals⦄ where
  open E use {HostPort, Manager}

  -- `DNRelay`; `workers` is nil once the relay is shut down.
  pub record Relay : Type 0 where
    pub clim : Manager
    pub workers : Option (Dict Worker)
    pub dest_sprefix : Str
    pub in_address : HostPort

  -- `NewDNRelay`; `none` is the error.
  unfoldable pub new_relay : DisconnectNotify → Option Relay
  new_relay dnconfig = elim (split_host_port dnconfig.in_address) [
    | none ↦ none
    | some (ip, port) ↦ elim (E.new_tcp dnconfig.in_address) [
      | none ↦ none
      | some clim ↦ some (record {
        clim = clim;
        workers = some [];
        dest_sprefix = dnconfig.dest_sprefix;
        in_address = E.new_host_port ip port;
      })
    ]
  ]

  -- What becomes of a received notification: queued, waiting for room in the queue, or a panic.
  pub data Received : Type 0 where
    queued blocked : Relay → Received
    panicked : Received

  -- `self.workers[spath]`, with a new worker if there is none.
  unfoldable pub worker_of : Str → Dict Worker → Worker
  unfolding new_worker lookup
  worker_of spath workers = elim (lookup spath workers) [ none ↦ new_worker spath | some w ↦ w ]

  enqueue : Relay → Dict Worker → Str → Str → Received
  unfolding worker_of send_denotify insert
  enqueue r workers spath dnstring =
      let w = worker_of spath workers in
      elim (send_denotify dnstring w) [
        | none ↦ blocked (record r { workers = some (insert spath w workers) })
        | some w' ↦ queued (record r { workers = some (insert spath w' workers) })
      ]

  -- A nil map can be read, and not written.
  hand_over : Relay → Str → Str → Received
  unfolding enqueue
  hand_over r spath dnstring = elim r.workers [
    | none ↦ panicked
    | some workers ↦ enqueue r workers spath dnstring
  ]

  -- `Recv_dnotify`: the socket's name, a space, and the notification. The second part is read
  -- whether it is there or not.
  unfoldable pub recv_dnotify : Str → Relay → Received
  unfolding hand_over
  recv_dnotify dnstring r = elim (split_n2 dnstring) [
    | [] ↦ panicked
    | head ∷ [] ↦ panicked
    | head ∷ tail ∷ _ ↦ hand_over r (r.dest_sprefix ++ head) tail
  ]

  stop_all : Dict Worker → Dict Worker
  stop_all [] = []
  stop_all ((k, w) ∷ ws) = (k, record w { stopped = true }) ∷ stop_all ws

  -- `Shutdown`: the workers are told to stop, and the relay lets go of them.
  unfoldable pub shutdown : Relay → Relay × Dict Worker
  unfolding stop_all
  shutdown r =
      let stopped : Dict Worker = elim r.workers [ none ↦ [] | some ws ↦ stop_all ws ] in
      (record r { clim = E.manager_shutdown r.clim; workers = none }, stopped)

  -- `Cmpconfig`
  unfoldable pub cmp_config : DisconnectNotify → Relay → Bool
  cmp_config dnconfig r =
      if dnconfig.dest_sprefix == r.dest_sprefix
      then dnconfig.in_address == E.host_port_string r.in_address
      else false

  -- `AppendAllowFrom`
  unfoldable pub append_allow_from : Str → Relay → Relay
  append_allow_from addr r = elim (split_host_port addr) [
    | none ↦ r
    | some (ip, _) ↦ record r { clim = E.accept_list_append ip r.clim }
  ]

  -- `disallow_from`
  unfoldable pub disallow_from : Str → Relay → Relay
  disallow_from ip r = record r { clim = E.accept_list_remove ip r.clim }
