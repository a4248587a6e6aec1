-- ===== src/Cli/Start.antt =====
-- main.go: the clusters of the configuration file are created, and the dry run shuts them down.
pub mod Valid
pub mod Same
use go_rtp_cluster.Base.{
  ℕ, suc, Bool, true, false, Option, none, some, List, [], ◌∷◌, Str, if◌then◌else◌,
}
use go_rtp_cluster.Externals.{Externals}
use go_rtp_cluster.Cluster.{Cluster}
use go_rtp_cluster.Cluster.Lifecycle.{
  World, Opened, opened, refused, new_rtp_cluster, shutdown, empty_cluster,
}
use go_rtp_cluster.Config.{RtpCluster, Token}
use go_rtp_cluster.Config.Reading.{read_cluster_config}
use go_rtp_cluster.Cli.{Cli, put_cluster, append_cluster}
use go_rtp_cluster.Cli.Loading.{Progress, on, returned, panicked, load_proxies}
use go_rtp_cluster.Cli.Reload.{allocate}

module _ ⦃E : Externals⦄ where
  -- `NewRtp_cluster_cli` and `Newfakecli`: no cluster yet.
  abbrev pub empty_cli : World → Cli
  empty_cli w = record { heap = λ p. empty_cluster w [] []; next = 0; rtp_clusters = [] }

  -- One cluster; where the program ends early, its clusters so far.
  unfoldable pub load_cluster : World → RtpCluster → Cli → Progress Cli
  load_cluster w cfg s = elim (new_rtp_cluster w cfg.name cfg.protocol cfg.address cfg.dnconfig) [
    | refused e ↦ returned s
    | opened c ↦
        elim (load_proxies cfg.rtp_proxies
          (record c { capacity_limit_soft = cfg.capacity_limit_soft })) [
            | panicked ↦ panicked
            | returned d ↦ returned (put_cluster s.next d (allocate c s))
            | on d ↦ on (append_cluster s.next (put_cluster s.next d (allocate c s)))
          ]
  ]

  unfoldable pub load_clusters : World → List RtpCluster → Cli → Progress Cli
  load_clusters w [] s = on s
  load_clusters w (cfg ∷ cfgs) s = elim (load_cluster w cfg s) [
    | panicked ↦ panicked
    | returned t ↦ returned t
    | on t ↦ load_clusters w cfgs t
  ]

  unfoldable pub shut_clusters : List ℕ → Cli → Cli
  shut_clusters [] s = s
  shut_clusters (p ∷ ps) s = shut_clusters ps (put_cluster p (shutdown (s.heap p)) s)

  -- The clusters of a configuration, to the wait for a signal or the end of a dry run.
  unfoldable pub run_clusters : World → Bool → List RtpCluster → Cli → Progress Cli
  run_clusters w dry_run config cli = elim (load_clusters w config cli) [
    | panicked ↦ panicked
    | returned s ↦ returned s
    | on s ↦ if dry_run then returned (shut_clusters s.rtp_clusters s) else on s
  ]

  -- `main` with the tokens of the configuration file, where the pid file and the control socket could
  -- be made.
  unfoldable pub start_program : World → Bool → List Token → Progress Cli
  unfolding run_clusters
  start_program w dry_run tokens = elim (read_cluster_config false tokens) [
    | none ↦ panicked
    | some config ↦ run_clusters w dry_run config (empty_cli w)
  ]
