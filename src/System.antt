-- ===== src/System.antt =====
-- A running cluster: the commands of the signalling side, the answers of the members in any order,
-- what happens to the members, and the purge of the response cache, interleaved as they come.
pub mod Quiet
pub mod Handled
pub mod Forwarding
pub mod Spreading
pub mod Handlers
pub mod Counting
pub mod Answers
pub mod Outstanding
pub mod Aside
pub mod Sound
pub mod Kept
pub mod Lists
pub mod Panics
use go_rtp_cluster.Base.{ℕ, zero, suc, Option, none, some, List, [], ◌∷◌, ◌++◌, Str, get_elem?}
use go_rtp_cluster.Externals.{Externals}
use go_rtp_cluster.Cluster.{Cluster, Clim, unix, Effect, Callback, command, send_to, send, close}
use go_rtp_cluster.Cluster.Invariant.History.{Event, step}
use go_rtp_cluster.Command.{Outcome}
use go_rtp_cluster.Command.Dispatch.{up_command}
use go_rtp_cluster.Command.Dispatch.Callbacks.{deliver}
use go_rtp_cluster.Command.Udp.{up_command_udp, rcache_purge}

abbrev pub remove_at {ℓ} : {A : Type ℓ} → ℕ → List A → List A
remove_at i [] = []
remove_at zero (x ∷ xs) = xs
remove_at (suc i) (x ∷ xs) = x ∷ remove_at i xs

module _ ⦃E : Externals⦄ where
  open E use {Float}

  -- The cluster, and the functions that wait for the answer to a command that was sent to a member.
  pub record System : Type 0 where
    pub cluster : Cluster
    pub waiting : List Callback

  -- What can happen: a datagram with a command comes, or a command from a connection of the control
  -- socket; a member answers a command; something happens to a member; the cache is purged.
  pub data Happening : Type 0 where
    datagram : Float → Str → Str → Happening
    line : Float → ℕ → Str → Happening
    answered : ℕ → Str → Happening
    member_event : Event → Happening
    purged : Happening

  -- The functions that are to run on the answers to what was sent.
  abbrev pub sent : List Effect → List Callback
  sent [] = []
  sent (command r text callback ∷ es) = callback ∷ sent es
  sent (send_to text address ∷ es) = sent es
  sent (send k text ∷ es) = sent es
  sent (close k ∷ es) = sent es

  abbrev pub then_wait : List Callback → Outcome → Option System
  then_wait waiting none = none
  then_wait waiting (some (d, es)) = some (record { cluster = d; waiting = waiting ++ sent es })

  -- One of them; `none` is a panic. An answer to nothing is none.
  unfoldable pub happen : Happening → System → Option System
  happen (datagram rand text address) s =
      then_wait s.waiting (up_command_udp rand text address s.cluster)
  happen (line rand k text) s = then_wait s.waiting (up_command rand (unix k) text s.cluster)
  happen (answered i result) s = elim (get_elem? s.waiting i) [
    | none ↦ some s
    | some callback ↦ then_wait (remove_at i s.waiting) (deliver callback result s.cluster)
  ]
  happen (member_event e) s = some (record s { cluster = step e s.cluster })
  happen purged s = some (record s { cluster = rcache_purge s.cluster })

  -- All of them in this order.
  unfoldable pub happen_all : List Happening → System → Option System
  happen_all [] s = some s
  happen_all (h ∷ hs) s = elim (happen h s) [ none ↦ none | some t ↦ happen_all hs t ]
