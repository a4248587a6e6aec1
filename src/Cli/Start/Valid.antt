-- ===== src/Cli/Start/Valid.antt =====
-- The start of the program with a valid configuration file.
use mathlib.Core.Option.{none-ne-some}
use go_rtp_cluster.Base.{
  suc, ◌+◌, ◌≡◌, ◌≢◌, refl, ◌∙◌, sym, Bool, true, false, ◌||◌, ◌&&◌, Option, none, some, List, [],
  ◌∷◌, ◌++◌, Str, codes, arith, ◌==◌, str_eq, if◌then◌else◌, All, length, length-append,
}
use go_rtp_cluster.Text.HostPort.{split_host_port}
use go_rtp_cluster.Externals.{Externals}
use go_rtp_cluster.Member.{Member, new_member}
use go_rtp_cluster.Cluster.{Cluster}
use go_rtp_cluster.Cluster.Events.{add_member, update_dnrelay}
use go_rtp_cluster.Cluster.Lifecycle.{
  World, Opened, opened, refused, new_rtp_cluster, empty_cluster,
}
use go_rtp_cluster.Config.{RtpCluster, RtpProxy}
use go_rtp_cluster.Config.Characters.{is_protocol}
use go_rtp_cluster.Config.Reading.{read_cluster_config}
use go_rtp_cluster.Config.RoundTrip.Documents.{readable_clusters, config_tokens}
use go_rtp_cluster.Config.RoundTrip.Clusters.{read_cluster_config_round_trip}
use go_rtp_cluster.Cli.{Cli, put_cluster, append_cluster}
use go_rtp_cluster.Cli.Modify.{is_supported, with_port, bind_address}
use go_rtp_cluster.Cli.Loading.{on, configured, load_new, load_proxies}
use go_rtp_cluster.Cli.Reload.{allocate}
use go_rtp_cluster.Cli.Start.{empty_cli, load_cluster, load_clusters, run_clusters, start_program}

-- The protocols that the configuration may have are supported.
supported : (p : Str) → is_protocol p ≡ true → is_supported p ≡ true
supported p h = flip (p == codes "udp") (p == codes "udp6") (p == codes "unix") h
  where
    flip : (a b c : Bool) → (a || b || c) ≡ true → (c || (a || b)) ≡ true
    flip a b c h = ground (arith, h)

-- All proxies have a protocol that a member can have.
abbrev known_protocols : List RtpProxy → Bool
known_protocols [] = true
known_protocols (p ∷ ps) = is_protocol p.protocol && known_protocols ps

chosen {ℓ ℓ'} :
    {A : Type ℓ} {B : Type ℓ'} (o : Option A) (f : A → B)
    → o ≢ none
    → (x : B) × (elim o [ none ↦ none | some a ↦ some (f a) ] ≡ some x)
chosen none f h = absurd (h refl)
chosen (some a) f h = (f a, refl)

both : (a b : Bool) → (a && b) ≡ true → (a ≡ true) × (b ≡ true)
both a b h = ground (arith, h)

module _ ⦃E : Externals⦄ where
  -- A client of go-b2bua can be made for the proxy.
  abbrev pub IsTaken : RtpProxy → Type 0
  IsTaken p =
      E.client_opts (p.protocol ++ (b':' ∷ with_port p.protocol p.address))
        (bind_address p.cmd_out_address)
      ≢ none

  -- The same of all proxies of a configuration.
  abbrev pub AllTaken : List RtpCluster → Type 0
  AllTaken config = All (λ cfg. All IsTaken cfg.rtp_proxies) config

  new_member-some :
      (name protocol address : Str) (bind : Option E.HostPort)
      → E.client_opts (protocol ++ (b':' ∷ address)) bind ≢ none
      → (m : Member) × (new_member name protocol address bind ≡ some m)
  unfolding new_member
  new_member-some name protocol address bind taken =
      chosen (E.client_opts (protocol ++ (b':' ∷ address)) bind) _ taken

  load_new-some : (p : RtpProxy) (c : Cluster) → IsTaken p → (d : Cluster) × (load_new p c ≡ some d)
  unfolding load_new
  load_new-some p c taken =
      let (m, e) =
        new_member-some p.name p.protocol (with_port p.protocol p.address)
          (bind_address p.cmd_out_address) taken in
      chosen
        (new_member p.name p.protocol (with_port p.protocol p.address)
          (bind_address p.cmd_out_address))
        (λ m. add_member (configured p m) c) (λ n. none-ne-some _ (sym n ∙ e))

  next_proxies :
      (p : RtpProxy) (ps : List RtpProxy) (c d : Cluster)
      → is_supported p.protocol ≡ true
      → load_new p c ≡ some d
      → load_proxies (p ∷ ps) c ≡ load_proxies ps d
  unfolding load_proxies
  next_proxies p ps c d a e = rw (a, e, load_proxies) refl

  load_proxies-on :
      (ps : List RtpProxy) (c : Cluster)
      → All IsTaken ps
      → known_protocols ps ≡ true
      → (d : Cluster) × (load_proxies ps c ≡ on d)
  unfolding load_proxies
  load_proxies-on [] c all h = (c, refl)
  load_proxies-on (p ∷ ps) c (taken, all) h =
      let (known, rest) = both _ _ h in
      let (x, e) = load_new-some p c taken in
      let (d, run) = load_proxies-on ps x all rest in
      (d, next_proxies p ps c x (supported p.protocol known) e ∙ run)

  -- A server can be started at the cluster's address: the operating system has no error, and the
  -- address has a port unless it is a path.
  abbrev pub can_serve : World → RtpCluster → Bool
  can_serve w cfg =
      (elim (w.server_error cfg.protocol cfg.address) [ none ↦ true | some _ ↦ false ])
      && (cfg.protocol == codes "unix"
          || (elim (split_host_port cfg.address) [ none ↦ false | some _ ↦ true ]))

  -- All clusters can be served, and all proxies have a protocol that the program knows.
  abbrev pub can_start : World → List RtpCluster → Bool
  can_start w [] = true
  can_start w (cfg ∷ cfgs) =
      (can_serve w cfg && known_protocols cfg.rtp_proxies) && can_start w cfgs

  served :
      (b : Bool) (o : Option Str) (q : Option (Str × Str)) (g : Str → Opened) (x : Cluster)
      (y : Opened)
      → ((elim o [ none ↦ true | some _ ↦ false ])
          && (b || (elim q [ none ↦ false | some _ ↦ true ])))
        ≡ true
      → (if b
          then (elim o [ some e ↦ refused e | none ↦ opened x ])
          else elim q [ none ↦ y | some _ ↦ (elim o [ some e ↦ refused e | none ↦ opened x ]) ])
        ≡ opened x
  served true none q g x y h = refl
  served true (some e) q g x y h = ground arith
  served false none none g x y h = ground arith
  served false none (some a) g x y h = refl
  served false (some e) q g x y h = ground arith

  new_rtp_cluster-opened :
      (w : World) (cfg : RtpCluster)
      → can_serve w cfg ≡ true
      → new_rtp_cluster w cfg.name cfg.protocol cfg.address cfg.dnconfig
        ≡ opened (update_dnrelay cfg.dnconfig (empty_cluster w cfg.name cfg.address)).0
  unfolding new_rtp_cluster
  new_rtp_cluster-opened w cfg h =
      served (cfg.protocol == codes "unix") (w.server_error cfg.protocol cfg.address)
        (split_host_port cfg.address) refused _ _ h

  load_cluster_made :
      (w : World) (cfg : RtpCluster) (s : Cli) (c d : Cluster)
      → new_rtp_cluster w cfg.name cfg.protocol cfg.address cfg.dnconfig ≡ opened c
      → load_proxies cfg.rtp_proxies (record c { capacity_limit_soft = cfg.capacity_limit_soft })
        ≡ on d
      → load_cluster w cfg s ≡ on (append_cluster s.next (put_cluster s.next d (allocate c s)))
  unfolding load_cluster
  load_cluster_made w cfg s c d e f = rw (e, f, load_cluster) refl

  load_cluster-on :
      (w : World) (cfg : RtpCluster) (s : Cli)
      → All IsTaken cfg.rtp_proxies
      → can_serve w cfg ≡ true
      → known_protocols cfg.rtp_proxies ≡ true
      → (t : Cli) × (load_cluster w cfg s ≡ on t)
        × (length t.rtp_clusters ≡ suc (length s.rtp_clusters))
  unfolding append_cluster put_cluster
  load_cluster-on w cfg s all serve known =
      let c : Cluster = (update_dnrelay cfg.dnconfig (empty_cluster w cfg.name cfg.address)).0 in
      let (d, e) =
        load_proxies-on cfg.rtp_proxies (record c { capacity_limit_soft = cfg.capacity_limit_soft })
          all known in
      (
        append_cluster s.next (put_cluster s.next d (allocate c s)),
        load_cluster_made w cfg s c d (new_rtp_cluster-opened w cfg serve) e,
        omega (arith, length-append s.rtp_clusters (s.next ∷ [])),
      )

  next_cluster :
      (w : World) (cfg : RtpCluster) (cfgs : List RtpCluster) (s t : Cli)
      → load_cluster w cfg s ≡ on t
      → load_clusters w (cfg ∷ cfgs) s ≡ load_clusters w cfgs t
  unfolding load_clusters
  next_cluster w cfg cfgs s t e = rw (e, load_clusters) refl

  load_clusters-on :
      (w : World) (cfgs : List RtpCluster) (s : Cli)
      → AllTaken cfgs
      → can_start w cfgs ≡ true
      → (t : Cli) × (load_clusters w cfgs s ≡ on t)
        × (length t.rtp_clusters ≡ length s.rtp_clusters + length cfgs)
  unfolding load_clusters
  load_clusters-on w [] s all h = (s, refl, omega arith)
  load_clusters-on w (cfg ∷ cfgs) s (taken, all) h =
      let (first, rest) = both _ _ h in
      let (serve, known) = both (can_serve w cfg) (known_protocols cfg.rtp_proxies) first in
      let (x, e, one) = load_cluster-on w cfg s taken serve known in
      let (t, run, more) = load_clusters-on w cfgs x all rest in
      (t, next_cluster w cfg cfgs s x e ∙ run, omega (arith, one, more))

  -- The program starts with the document of a configuration: where the configuration can be given in
  -- a document, servers can be started at the addresses of its clusters, its proxies have known
  -- protocols, and a client can be made for each of them, `main` gets to its wait for a signal, with
  -- as many clusters as the configuration has.
  pub start_program-on :
      (w : World) (gap : Str) (config : List RtpCluster)
      → AllTaken config
      → readable_clusters [] config ≡ true
      → can_start w config ≡ true
      → (s : Cli) × (start_program w false (config_tokens gap config) ≡ on s)
        × (length s.rtp_clusters ≡ length config)
  unfolding start_program run_clusters
  start_program-on w gap config all readable h =
      let (s, run, n) = load_clusters-on w config (empty_cli w) all h in
      (
        s,
        started w gap config s (read_cluster_config_round_trip gap config readable) run,
        omega (arith, n),
      )
    where
      started :
          (w : World) (gap : Str) (config : List RtpCluster) (s : Cli)
          → read_cluster_config false (config_tokens gap config) ≡ some config
          → load_clusters w config (empty_cli w) ≡ on s
          → start_program w false (config_tokens gap config) ≡ on s
      started w gap config s e f = rw (e, start_program, run_clusters, f) refl
