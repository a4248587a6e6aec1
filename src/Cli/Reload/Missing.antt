-- ===== src/Cli/Reload/Missing.antt =====
-- The clusters that `reload` shuts down.

use go_rtp_cluster.Base.{
  ℕ, ◌≡◌, refl, ◌∙◌, true, false, some, List, [], ◌∷◌, arith, ◌==◌, nat_eq, if_cases, elem,
  Bool-cases, inl, inr, codes,
}
use go_rtp_cluster.Text.Decimal.{itoa}
use go_rtp_cluster.Externals.{Externals}
use go_rtp_cluster.Cluster.{Cluster}
use go_rtp_cluster.Cluster.Lifecycle.{World, shutdown}
use go_rtp_cluster.Config.{Token}
use go_rtp_cluster.Config.Reading.{read_cluster_config}
use go_rtp_cluster.Cli.{Cli, say, put_cluster}
use go_rtp_cluster.Cli.Modify.{ok}
use go_rtp_cluster.Cli.Reload.{shut_missing, reload_clusters, finish_reload, reload_from, reload}

module _ ⦃E : Externals⦄ where
  -- The cluster has no members, and its server and the purge of its response cache have ended.
  abbrev Stopped : Cluster → Type 0
  Stopped c = (c.active ≡ []) × (c.pending ≡ []) × (c.server_runs ≡ false) × (c.purge_runs ≡ false)

  shutdown-Stopped : (c : Cluster) → Stopped (shutdown c)
  unfolding shutdown
  shutdown-Stopped c = (refl, refl, refl, refl)

  put_cluster-Stopped :
      (p q : ℕ) (c : Cluster) (s : Cli)
      → Stopped c
      → Stopped (s.heap q)
      → Stopped ((put_cluster p c s).heap q)
  unfolding put_cluster
  put_cluster-Stopped p q c s here there = if_cases Stopped (p == q) (λ _. here) (λ _. there)

  shut_missing-still :
      (new : List ℕ) (ps : List ℕ) (q : ℕ) (s : Cli)
      → Stopped (s.heap q)
      → Stopped ((shut_missing new ps s).heap q)
  unfolding shut_missing
  shut_missing-still new [] q s h = h
  shut_missing-still new (p ∷ ps) q s h = shut_missing-still new ps q _ (
      if_cases (λ (t : Cli). Stopped (t.heap q)) (elem p new) (λ _. h)
        (λ _. put_cluster-Stopped p q _ s (shutdown-Stopped (s.heap p)) h))

  put_cluster-here :
      (p q : ℕ) (c : Cluster) (s : Cli)
      → (p == q) ≡ true
      → Stopped c
      → Stopped ((put_cluster p c s).heap q)
  unfolding put_cluster
  put_cluster-here p q c s a here =
      if_cases Stopped (p == q) (λ _. here) (λ b. absurd (ground (arith, a, b)))

  shut_missing-Stopped :
      (ps : List ℕ) (q : ℕ) (s : Cli) → elem q ps ≡ true → Stopped ((shut_missing [] ps s).heap q)
  unfolding shut_missing
  shut_missing-Stopped [] q s h = ground arith
  shut_missing-Stopped (p ∷ ps) q s h = elim (Bool-cases (p == q)) [
    | inl a ↦
        shut_missing-still [] ps q _ (put_cluster-here p q _ s a (shutdown-Stopped (s.heap p)))
    | inr a ↦ shut_missing-Stopped ps q _ (ground (arith, a, h))
  ]

  shut_missing-kept :
      (ps : List ℕ) (q : ℕ) (s : Cli) → elem q ps ≡ false → (shut_missing [] ps s).heap q ≡ s.heap q
  unfolding shut_missing put_cluster
  shut_missing-kept [] q s h = refl
  shut_missing-kept (p ∷ ps) q s h =
      shut_missing-kept ps q _ (ground (arith, h)) ∙ ground (arith, h)

  -- Where the tokens of the configuration file are read as no clusters, as those of a file without
  -- any are, and the empty list of a file that cannot be opened: `reload` answers that nothing was
  -- loaded, and OK, no cluster is left, every cluster of the list has lost its members, its server
  -- and the purge of its response cache, and no other one changes.
  pub reload-nothing :
      (w : World) (tokens : List Token) (s : Cli)
      → read_cluster_config false tokens ≡ some []
      → (t : Cli) × (reload w tokens s
          ≡ some (t, say (codes "Loaded 0 clusters and 0 RTP proxies\n") ∷ ok))
        × (t.rtp_clusters ≡ [])
        × ((q : ℕ)
            → elem q s.rtp_clusters ≡ true
            → ((t.heap q).active ≡ [])
              × ((t.heap q).pending ≡ [])
              × ((t.heap q).server_runs ≡ false)
              × ((t.heap q).purge_runs ≡ false))
        × ((q : ℕ) → elem q s.rtp_clusters ≡ false → t.heap q ≡ s.heap q)
  unfolding reload reload_from reload_clusters finish_reload itoa
  reload-nothing w tokens s e = (
    record (shut_missing [] s.rtp_clusters s) { rtp_clusters = [] },
    rw (e, reload) refl,
    refl,
    λ q h. shut_missing-Stopped s.rtp_clusters q s h,
    λ q h. shut_missing-kept s.rtp_clusters q s h,
  )
