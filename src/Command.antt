-- ===== src/Command.antt =====
-- rtp_cluster.go: the commands of the signalling side, from `up_command_udp` and `up_command` to
-- the answers in `down_command`. A handler returns the new state and what it sends; `none` is a
-- panic.
pub mod Reply
pub mod Pick
pub mod Notify
pub mod Dispatch
pub mod Broadcasts
pub mod Udp
use go_rtp_cluster.Base.{Option, none, some, List, ◌++◌}
use go_rtp_cluster.Externals.{Externals}
use go_rtp_cluster.Cluster.{Cluster, Effect}

module _ ⦃E : Externals⦄ where
  abbrev pub Outcome : Type 0
  Outcome = Option (Cluster × List Effect)

  -- The handler goes on after what it has sent already.
  abbrev pub after_effects : List Effect → Outcome → Outcome
  after_effects es none = none
  after_effects es (some (c, fs)) = some (c, es ++ fs)
