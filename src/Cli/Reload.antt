-- ===== src/Cli/Reload.antt =====
-- The command `reload`: the clusters and their members are made to follow the configuration file.
pub mod Missing
use go_rtp_cluster.Base.{
  ℕ, suc, ◌+◌, ◌≡◌, Bool, true, false, Option, none, some, List, [], ◌∷◌, ◌++◌, pos, Str, codes,
  ◌==◌, nat_eq, str_eq, if◌then◌else◌, length, elem,
}
use go_rtp_cluster.Text.Decimal.{itoa}
use go_rtp_cluster.Externals.{Externals}
use go_rtp_cluster.Cluster.{Cluster}
use go_rtp_cluster.Cluster.Events.{update_dnrelay}
use go_rtp_cluster.Cluster.Lifecycle.{World, Opened, opened, refused, new_rtp_cluster, shutdown}
use go_rtp_cluster.Config.{RtpCluster, Token}
use go_rtp_cluster.Config.Reading.{read_cluster_config}
use go_rtp_cluster.Cli.{Cli, Answer, say, Reaction, put_cluster, cluster_by_name}
use go_rtp_cluster.Cli.Modify.{ok}
use go_rtp_cluster.Cli.Loading.{Progress, on, returned, panicked, reload_proxies, sweep_members}

module _ ⦃E : Externals⦄ where
  -- The variables of the loop: the state, `new_rtp_clusters`, `new_rtpps_count`, and what was sent.
  pub record Reloading : Type 0 where
    pub cli : Cli
    pub new_clusters : List ℕ
    pub new_rtpps : ℕ
    pub sent : List Answer

  -- A new object of the heap.
  abbrev pub allocate : Cluster → Cli → Cli
  allocate c s = record (put_cluster s.next c s) { next = suc s.next }

  -- The RTPproxies of a cluster that is there.
  unfoldable pub reload_members : World → RtpCluster → ℕ → Cli → Reloading → Progress Reloading
  reload_members w cfg p s l =
      let c : Cluster = record (s.heap p) { capacity_limit_soft = cfg.capacity_limit_soft } in
      elim (reload_proxies w cfg.rtp_proxies (c, [])) [
        | panicked ↦ panicked
        | returned (d, new) ↦ returned (record l { cli = put_cluster p d s })
        | on (d, new) ↦ on (record l {
          cli = put_cluster p (sweep_members (w.capacity p) new d) s;
          new_clusters = l.new_clusters ++ p ∷ [];
          new_rtpps = l.new_rtpps + length new;
        })
      ]

  -- One cluster of the configuration, which is created if there is none of its name.
  unfoldable pub reload_cluster : World → RtpCluster → Reloading → Progress Reloading
  unfolding reload_members
  reload_cluster w cfg l = elim (cluster_by_name cfg.name l.cli) [
    | some (p, _) ↦
        reload_members w cfg p (put_cluster p (update_dnrelay cfg.dnconfig (l.cli.heap p)).0 l.cli)
          l
    | none ↦ elim (new_rtp_cluster w cfg.name cfg.protocol cfg.address cfg.dnconfig) [
      | refused e ↦ returned (record l {
        sent = l.sent ++ say (codes "Error creating Rtp_cluster instance: " ++ e) ∷ [];
      })
      | opened c ↦ reload_members w cfg l.cli.next (allocate c l.cli) l
    ]
  ]

  unfoldable pub reload_clusters : World → List RtpCluster → Reloading → Progress Reloading
  reload_clusters w [] l = on l
  reload_clusters w (cfg ∷ cfgs) l = elim (reload_cluster w cfg l) [
    | panicked ↦ panicked
    | returned m ↦ returned m
    | on m ↦ reload_clusters w cfgs m
  ]

  -- The old clusters that are configured no more are shut down.
  unfoldable pub shut_missing : List ℕ → List ℕ → Cli → Cli
  shut_missing new [] s = s
  shut_missing new (p ∷ ps) s =
      shut_missing new ps (if elem p new then s else put_cluster p (shutdown (s.heap p)) s)

  unfoldable pub finish_reload : Reloading → Cli × List Answer
  finish_reload l = (
    record (shut_missing l.new_clusters l.cli.rtp_clusters l.cli) { rtp_clusters = l.new_clusters },
    l.sent
        ++ (say (
              codes "Loaded "
              ++ (itoa (pos (length l.new_clusters))
                  ++ (codes " clusters and "
                      ++ (itoa (pos l.new_rtpps) ++ codes " RTP proxies\n"))))
            ∷ ok),
  )

  abbrev pub begin : Cli → Reloading
  begin s = record { cli = s; new_clusters = []; new_rtpps = 0; sent = [] }

  -- `reload`, given the clusters of the file.
  unfoldable pub reload_from : World → List RtpCluster → Cli → Reaction
  unfolding reload_clusters finish_reload
  reload_from w config s = elim (reload_clusters w config (begin s)) [
    | panicked ↦ none
    | returned l ↦ some (l.cli, l.sent)
    | on l ↦ some (finish_reload l)
  ]

  -- `reload`, given the tokens of the file. A file that cannot be read gives none.
  unfoldable pub reload : World → List Token → Cli → Reaction
  reload w tokens s = elim (read_cluster_config false tokens) [
    | none ↦ none
    | some config ↦ reload_from w config s
  ]
