-- ===== src/Cli/Start/Same/Clusters.antt =====
-- The clusters that `main` and `reload` make.

use go_rtp_cluster.Base.{
  ℕ, ◌+◌, ◌≡◌, refl, ◌∙◌, ap, Bool, true, ◌&&◌, some, List, [], ◌∷◌, ◌++◌, arith, pos, codes,
  nat_eq, str_eq, length,
}
use go_rtp_cluster.Text.Decimal.{itoa}
use go_rtp_cluster.Externals.{Externals}
use go_rtp_cluster.Cluster.Lifecycle.{World}
use go_rtp_cluster.Config.{RtpCluster}
use go_rtp_cluster.Cli.{Cli, say}
use go_rtp_cluster.Cli.Modify.{ok}
use go_rtp_cluster.Cli.Loading.{Progress, on, returned, panicked}
use go_rtp_cluster.Cli.Reload.{reload_clusters, shut_missing, finish_reload, begin, reload_from}
use go_rtp_cluster.Cli.Start.{empty_cli, load_cluster, load_clusters}
use go_rtp_cluster.Cli.Start.Same.{distinct_names, on-injective}
use go_rtp_cluster.Cli.Start.Same.Mirror.{mirror, reload_cluster-mirror}

-- No cluster has two proxies of the same name.
abbrev pub distinct_proxies : List RtpCluster → Bool
distinct_proxies [] = true
distinct_proxies (cfg ∷ cfgs) = distinct_names cfg.rtp_proxies && distinct_proxies cfgs

-- The number of proxies of all clusters.
abbrev pub proxy_count : List RtpCluster → ℕ
proxy_count [] = 0
proxy_count (cfg ∷ cfgs) = length cfg.rtp_proxies + proxy_count cfgs

module _ ⦃E : Externals⦄ where
  reload_clusters-mirror :
      (w : World) (cfgs : List RtpCluster) (n : ℕ) (s t : Cli)
      → distinct_proxies cfgs ≡ true
      → load_clusters w cfgs s ≡ on t
      → reload_clusters w cfgs (mirror n s) ≡ on (mirror (n + proxy_count cfgs) t)
  unfolding load_clusters reload_clusters
  reload_clusters-mirror w [] n s t u h =
      ap (λ (x : Cli). on (mirror n x)) (on-injective s t h)
      ∙ ap (λ k. on (mirror k t)) (omega arith)
  reload_clusters-mirror w (cfg ∷ cfgs) n s t u h =
      let (apart, rest) = both (distinct_names cfg.rtp_proxies) (distinct_proxies cfgs) u in
      let (x, e, more) = next_on (load_cluster w cfg s) (load_clusters w cfgs) t h in
      rw (reload_cluster-mirror w cfg n s x apart e, reload_clusters)
        (reload_clusters-mirror w cfgs (n + length cfg.rtp_proxies) x t rest more
          ∙ ap (λ k. on (mirror k t)) (omega arith))
    where
      both : (a b : Bool) → (a && b) ≡ true → (a ≡ true) × (b ≡ true)
      both a b h = ground arith

      next_on :
          (q : Progress Cli) (f : Cli → Progress Cli) (y : Cli)
          → elim q [ panicked ↦ panicked | returned x ↦ returned x | on x ↦ f x ] ≡ on y
          → (x : Cli) × (q ≡ on x) × (f x ≡ on y)
      next_on panicked f y k = ground arith
      next_on (returned x) f y k = ground arith
      next_on (on x) f y k = (x, refl, k)

  -- Where no cluster of the configuration has two proxies of the same name and `main` gets through
  -- it, the command `reload`, given with no clusters, gets through it too, and makes the same: the
  -- same clusters in the same order, with the same members and states. It answers with the numbers
  -- of these clusters and of the proxies of the configuration.
  pub reload_from-load_clusters :
      (w : World) (config : List RtpCluster) (s : Cli)
      → distinct_proxies config ≡ true
      → load_clusters w config (empty_cli w) ≡ on s
      → reload_from w config (empty_cli w)
        ≡ some (
          s,
          say (
                codes "Loaded "
                ++ (itoa (pos (length s.rtp_clusters))
                    ++ (codes " clusters and "
                        ++ (itoa (pos (proxy_count config)) ++ codes " RTP proxies\n"))))
              ∷ ok,
        )
  unfolding reload_from finish_reload shut_missing
  reload_from-load_clusters w config s u h =
      let loaded : reload_clusters w config (begin (empty_cli w))
          ≡ on (mirror (proxy_count config) s) =
        reload_clusters-mirror w config 0 (empty_cli w) s u h
        ∙ ap (λ k. on (mirror k s)) (omega arith) in
      rw (loaded, reload_from) refl
