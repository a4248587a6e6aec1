-- ===== src/Cli/Names/Loops.antt =====
-- The names of the members in the loops of `reload` over clusters and members.
use mathlib.Core.Path.{subst}
use go_rtp_cluster.Base.{
  ℕ, ◌≡◌, refl, Option, none, some, List, [], ◌∷◌, ◌++◌, Str, codes, ◌==◌, nat_eq, str_eq, if_cases,
  length, ◌+◌,
}
use go_rtp_cluster.Text.HostPort.{split_host_port}
use go_rtp_cluster.Externals.{Externals}
use go_rtp_cluster.Cluster.{Cluster}
use go_rtp_cluster.Cluster.Events.{update_dnrelay}
use go_rtp_cluster.Cluster.Names.{
  UniqueNames, fewer-UniqueNames, update_dnrelay-UniqueNames, none-UniqueNames,
}
use go_rtp_cluster.Cluster.Lifecycle.{
  World, empty_cluster, Opened, opened, refused, new_rtp_cluster,
}
use go_rtp_cluster.Config.{RtpCluster}
use go_rtp_cluster.Cli.{Cli, say, put_cluster, cluster_by_name}
use go_rtp_cluster.Cli.Modify.{}
use go_rtp_cluster.Cli.Loading.{Progress, on, returned, panicked, reload_proxies, sweep_members}
use go_rtp_cluster.Cli.Reload.{Reloading, reload_members, reload_cluster, reload_clusters, allocate}
use go_rtp_cluster.Cli.Names.{Kept, reload_proxies-Kept, sweep_members-UniqueNames}
use go_rtp_cluster.Cli.Names.Commands.{AllUnique, put_cluster-AllUnique}

module _ ⦃E : Externals⦄ where
  abbrev pub KeptLoop : Progress Reloading → Type 0
  KeptLoop panicked = Unit
  KeptLoop (on l) = AllUnique l.cli
  KeptLoop (returned l) = AllUnique l.cli

  reload_members-Kept :
      (w : World) (cfg : RtpCluster) (p : ℕ) (s : Cli) (l : Reloading)
      → AllUnique s
      → KeptLoop (reload_members w cfg p s l)
  unfolding reload_members
  reload_members-Kept w cfg p s l all =
      go (reload_proxies w cfg.rtp_proxies (c, [])) (reload_proxies-Kept w cfg.rtp_proxies c [] v)
    where
      c : Cluster
      c = record (s.heap p) { capacity_limit_soft = cfg.capacity_limit_soft }

      v : UniqueNames c
      v = fewer-UniqueNames (s.heap p) c (λ r h. h) (λ r. refl) refl (all p)

      go :
          (o : Progress (Cluster × List ℕ))
          → Kept o
          → KeptLoop (elim o [
            | panicked ↦ panicked
            | returned (d, new) ↦ returned (record l { cli = put_cluster p d s })
            | on (d, new) ↦ on (record l {
              cli = put_cluster p (sweep_members (w.capacity p) new d) s;
              new_clusters = l.new_clusters ++ p ∷ [];
              new_rtpps = l.new_rtpps + length new;
            })
          ])
      go panicked k = tt
      go (returned (d, new)) k = put_cluster-AllUnique p d s all k
      go (on (d, new)) k =
          put_cluster-AllUnique p _ s all (sweep_members-UniqueNames (w.capacity p) new d k)

  allocate-AllUnique :
      (c : Cluster) (s : Cli) → AllUnique s → UniqueNames c → AllUnique (allocate c s)
  allocate-AllUnique c s all v = put_cluster-AllUnique s.next c s all v

  abbrev KeptOpened : Opened → Type 0
  KeptOpened (refused _) = Unit
  KeptOpened (opened c) = UniqueNames c

  started-Kept :
      (w : World) (cfg : RtpCluster) (o : Option Str)
      → KeptOpened (elim o [
        | some e ↦ refused e
        | none ↦ opened (update_dnrelay cfg.dnconfig (empty_cluster w cfg.name cfg.address)).0
      ])
  started-Kept w cfg (some e) = tt
  started-Kept w cfg none =
      update_dnrelay-UniqueNames cfg.dnconfig _
        (none-UniqueNames (empty_cluster w cfg.name cfg.address) refl refl)

  split-Kept {ℓ} :
      {A : Type ℓ} (o : Option A) (e : Str) (x : Opened)
      → KeptOpened x
      → KeptOpened (elim o [ none ↦ refused e | some _ ↦ x ])
  split-Kept none e x k = tt
  split-Kept (some a) e x k = k

  new_rtp_cluster-Kept :
      (w : World) (cfg : RtpCluster)
      → KeptOpened (new_rtp_cluster w cfg.name cfg.protocol cfg.address cfg.dnconfig)
  unfolding new_rtp_cluster
  new_rtp_cluster-Kept w cfg =
      let started = started-Kept w cfg (w.server_error cfg.protocol cfg.address) in
      if_cases KeptOpened (cfg.protocol == codes "unix") (λ _. started)
        (λ _. split-Kept (split_host_port cfg.address) _ _ started)

  reload_cluster-Kept :
      (w : World) (cfg : RtpCluster) (l : Reloading)
      → AllUnique l.cli
      → KeptLoop (reload_cluster w cfg l)
  unfolding reload_cluster
  reload_cluster-Kept w cfg l all =
      go (cluster_by_name cfg.name l.cli)
        (new_rtp_cluster w cfg.name cfg.protocol cfg.address cfg.dnconfig) refl
    where
      fresh :
          (r : Opened)
          → new_rtp_cluster w cfg.name cfg.protocol cfg.address cfg.dnconfig ≡ r
          → KeptLoop (elim r [
            | refused e ↦ returned (record l {
              sent = l.sent ++ say (codes "Error creating Rtp_cluster instance: " ++ e) ∷ [];
            })
            | opened c ↦ reload_members w cfg l.cli.next (allocate c l.cli) l
          ])
      fresh (refused e) h = all
      fresh (opened c) h =
          reload_members-Kept w cfg l.cli.next (allocate c l.cli) l
            (allocate-AllUnique c l.cli all (subst KeptOpened h (new_rtp_cluster-Kept w cfg)))

      go :
          (o : Option (ℕ × ℕ)) (r : Opened)
          → new_rtp_cluster w cfg.name cfg.protocol cfg.address cfg.dnconfig ≡ r
          → KeptLoop (elim o [
            | some (p, _) ↦
                reload_members w cfg p
                  (put_cluster p (update_dnrelay cfg.dnconfig (l.cli.heap p)).0 l.cli)
                  l
            | none ↦ elim r [
              | refused e ↦ returned (record l {
                sent = l.sent ++ say (codes "Error creating Rtp_cluster instance: " ++ e) ∷ [];
              })
              | opened c ↦ reload_members w cfg l.cli.next (allocate c l.cli) l
            ]
          ])
      go (some (p, i)) r h = reload_members-Kept w cfg p _ l (
          put_cluster-AllUnique p _ l.cli all
            (update_dnrelay-UniqueNames cfg.dnconfig (l.cli.heap p) (all p)))
      go none r h = fresh r h

  pub reload_clusters-Kept :
      (w : World) (cfgs : List RtpCluster) (l : Reloading)
      → AllUnique l.cli
      → KeptLoop (reload_clusters w cfgs l)
  unfolding reload_clusters
  reload_clusters-Kept w [] l all = all
  reload_clusters-Kept w (cfg ∷ cfgs) l all =
      go (reload_clusters-Kept w cfgs) (reload_cluster w cfg l) (reload_cluster-Kept w cfg l all)
    where
      go :
          ((m : Reloading) → AllUnique m.cli → KeptLoop (reload_clusters w cfgs m))
          → (o : Progress Reloading) → KeptLoop o
          → KeptLoop (elim o [
            | panicked ↦ panicked
            | returned m ↦ returned m
            | on m ↦ reload_clusters w cfgs m
          ])
      go more panicked k = tt
      go more (returned m) k = k
      go more (on m) k = more m k
