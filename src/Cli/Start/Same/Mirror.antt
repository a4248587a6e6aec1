-- ===== src/Cli/Start/Same/Mirror.antt =====
-- One cluster, made by `main` and by `reload`.
use mathlib.Core.Path.{subst}
use go_rtp_cluster.Base.{
  ℕ, ◌+◌, ◌≡◌, refl, ◌∙◌, sym, ap, true, Option, none, some, List, [], ◌∷◌, ◌++◌, Str, arith, codes,
  ◌==◌, nat_eq, str_eq, if_cases, length,
}
use go_rtp_cluster.Text.HostPort.{split_host_port}
use go_rtp_cluster.Externals.{Externals}
use go_rtp_cluster.Cluster.{Cluster}
use go_rtp_cluster.Cluster.Events.{update_dnrelay}
use go_rtp_cluster.Cluster.Names.{update_dnrelay-Frame}
use go_rtp_cluster.Cluster.Lifecycle.{
  World, Opened, opened, refused, new_rtp_cluster, empty_cluster,
}
use go_rtp_cluster.Config.{RtpCluster, RtpProxy}
use go_rtp_cluster.Cli.{Cli, put_cluster, append_cluster, cluster_by_name}
use go_rtp_cluster.Cli.Loading.{
  Progress, on, returned, panicked, load_proxies, reload_proxies, sweep_members,
}
use go_rtp_cluster.Cli.Loading.Sweeping.{sweep_members_nothing}
use go_rtp_cluster.Cli.Reload.{Reloading, allocate, reload_members, reload_cluster}
use go_rtp_cluster.Cli.Start.{load_cluster}
use go_rtp_cluster.Cli.Start.Same.{distinct_names, Ready, load_proxies-Matched, on-injective}

module _ ⦃E : Externals⦄ where
  -- A new cluster has no members.
  abbrev Bare : Opened → Type 0
  Bare (opened c) = (c.active ≡ []) × (c.pending ≡ [])
  Bare (refused e) = Unit

  started-Bare :
      (w : World) (cfg : RtpCluster) (o : Option Str)
      → Bare (elim o [
        | some e ↦ refused e
        | none ↦ opened (update_dnrelay cfg.dnconfig (empty_cluster w cfg.name cfg.address)).0
      ])
  started-Bare w cfg (some e) = tt
  started-Bare w cfg none =
      let (ea, ep, _, _) =
        update_dnrelay-Frame cfg.dnconfig (empty_cluster w cfg.name cfg.address) in
      (ea, ep)

  split-Bare {ℓ} :
      {A : Type ℓ} (o : Option A) (e : Str) (x : Opened)
      → Bare x
      → Bare (elim o [ none ↦ refused e | some _ ↦ x ])
  split-Bare none e x k = tt
  split-Bare (some a) e x k = k

  new_rtp_cluster-Bare :
      (w : World) (cfg : RtpCluster)
      → Bare (new_rtp_cluster w cfg.name cfg.protocol cfg.address cfg.dnconfig)
  unfolding new_rtp_cluster
  new_rtp_cluster-Bare w cfg =
      let started = started-Bare w cfg (w.server_error cfg.protocol cfg.address) in
      if_cases Bare (cfg.protocol == codes "unix") (λ _. started)
        (λ _. split-Bare (split_host_port cfg.address) _ _ started)

  new-Ready : (ps : List RtpProxy) (c : Cluster) → Bare (opened c) → Ready ps c []
  new-Ready ps c (ea, ep) = record {
    fresh = λ r h. ground (arith, ea, ep);
    covered = λ r h. ground (arith, ea, ep);
    unnamed = λ r h. ground (arith, ea, ep);
  }

  -- `reload` at the place where `main` is: its clusters are not in `rtp_clusters` yet.
  abbrev pub mirror : ℕ → Cli → Reloading
  mirror n s = record {
    cli = record s { rtp_clusters = [] };
    new_clusters = s.rtp_clusters;
    new_rtpps = n;
    sent = [];
  }

  loaded_on {ℓ} :
      {A : Type ℓ} (q : Progress Cluster) (g h : Cluster → A) (y : A)
      → elim q [ panicked ↦ panicked | returned d ↦ returned (h d) | on d ↦ on (g d) ] ≡ on y
      → (d : Cluster) × (q ≡ on d) × (g d ≡ y)
  loaded_on panicked g h y k = ground arith
  loaded_on (returned d) g h y k = ground arith
  loaded_on (on d) g h y k = (d, refl, on-injective (g d) y k)

  opened_on {ℓ} :
      {A : Type ℓ} (o : Opened) (f : Cluster → Progress Cluster) (g h : Cluster → Cluster → A)
      (z y : A)
      → elim o [
        | refused e ↦ returned z
        | opened c ↦ elim (f c) [
          | panicked ↦ panicked
          | returned d ↦ returned (h c d)
          | on d ↦ on (g c d)
        ]
      ]
        ≡ on y
      → (c : Cluster) × (o ≡ opened c) × (d : Cluster) × (f c ≡ on d) × (g c d ≡ y)
  opened_on (refused e) f g h z y k = ground arith
  opened_on (opened c) f g h z y k =
      let (d, e, j) = loaded_on (f c) (g c) (h c) y k in (c, refl, d, e, j)

  reload_members-on :
      (w : World) (cfg : RtpCluster) (p : ℕ) (s : Cli) (l : Reloading) (d : Cluster) (made : List ℕ)
      → reload_proxies w cfg.rtp_proxies
          (record (s.heap p) { capacity_limit_soft = cfg.capacity_limit_soft }, [])
        ≡ on (d, made)
      → sweep_members (w.capacity p) made d ≡ d
      → reload_members w cfg p s l
        ≡ on (record l {
          cli = put_cluster p d s;
          new_clusters = l.new_clusters ++ p ∷ [];
          new_rtpps = l.new_rtpps + length made;
        })
  unfolding reload_members
  reload_members-on w cfg p s l d made e f = rw (e, f, reload_members) refl

  allocated : (c : Cluster) (s : Cli) → (allocate c s).heap s.next ≡ c
  unfolding put_cluster
  allocated c s = ground arith

  reload_members-mirror :
      (w : World) (cfg : RtpCluster) (n : ℕ) (c d : Cluster) (s : Cli)
      → Bare (opened c)
      → distinct_names cfg.rtp_proxies ≡ true
      → load_proxies cfg.rtp_proxies (record c { capacity_limit_soft = cfg.capacity_limit_soft })
        ≡ on d
      → reload_members w cfg s.next (allocate c (mirror n s).cli) (mirror n s)
        ≡ on (
            mirror
              (n + length cfg.rtp_proxies)
              (append_cluster s.next (put_cluster s.next d (allocate c s))))
  unfolding reload_members put_cluster append_cluster
  reload_members-mirror w cfg n c d s bare u h =
      let (made, e, covered, n_made) =
        load_proxies-Matched w cfg.rtp_proxies _ d []
          (new-Ready cfg.rtp_proxies (record c { capacity_limit_soft = cfg.capacity_limit_soft })
            bare)
          u h in
      let count : length made ≡ length cfg.rtp_proxies = omega (arith, n_made) in
      reload_members-on w cfg s.next (allocate c (mirror n s).cli) (mirror n s) d made
        (subst
          (λ (x : Cluster).
            reload_proxies w cfg.rtp_proxies
              (record x { capacity_limit_soft = cfg.capacity_limit_soft }, [])
            ≡ on (d, made))
          (sym (allocated c (mirror n s).cli)) e)
        (sweep_members_nothing (w.capacity s.next) made d covered)
      ∙ ap (λ k. on (mirror (n + k) (append_cluster s.next (put_cluster s.next d (allocate c s)))))
          count

  reload_cluster-opened :
      (w : World) (cfg : RtpCluster) (n : ℕ) (c : Cluster) (s : Cli)
      → new_rtp_cluster w cfg.name cfg.protocol cfg.address cfg.dnconfig ≡ opened c
      → reload_cluster w cfg (mirror n s)
        ≡ reload_members w cfg s.next (allocate c (mirror n s).cli) (mirror n s)
  unfolding reload_cluster cluster_by_name
  reload_cluster-opened w cfg n c s e = rw (e, reload_cluster) refl

  pub reload_cluster-mirror :
      (w : World) (cfg : RtpCluster) (n : ℕ) (s t : Cli)
      → distinct_names cfg.rtp_proxies ≡ true
      → load_cluster w cfg s ≡ on t
      → reload_cluster w cfg (mirror n s) ≡ on (mirror (n + length cfg.rtp_proxies) t)
  unfolding load_cluster
  reload_cluster-mirror w cfg n s t u h =
      let (c, e, d, f, g) =
        opened_on (new_rtp_cluster w cfg.name cfg.protocol cfg.address cfg.dnconfig)
          (λ (c : Cluster).
            load_proxies cfg.rtp_proxies
              (record c { capacity_limit_soft = cfg.capacity_limit_soft }))
          (λ c d. append_cluster s.next (put_cluster s.next d (allocate c s)))
          (λ c d. put_cluster s.next d (allocate c s)) s t h in
      subst
        (λ (x : Cli).
          reload_cluster w cfg (mirror n s) ≡ on (mirror (n + length cfg.rtp_proxies) x))
        g
        (reload_cluster-opened w cfg n c s e
          ∙ reload_members-mirror w cfg n c d s (subst Bare e (new_rtp_cluster-Bare w cfg)) u f)
