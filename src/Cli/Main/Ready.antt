-- ===== src/Cli/Main/Ready.antt =====
-- When the program comes to its clusters, and what it has done until then.
use go_rtp_cluster.Base.{
  true, false, some, List, [], ◌∷◌, str_eq, if◌then◌else◌, ◌≡◌, ◌∙◌, arith, Option-cases, inl, inr,
  ◌≢◌,
}
use go_rtp_cluster.Externals.{Externals}
use go_rtp_cluster.Cluster.Lifecycle.{World}
use go_rtp_cluster.Config.{RtpCluster}
use go_rtp_cluster.Config.Reading.{read_cluster_config}
use go_rtp_cluster.Cli.{Cli}
use go_rtp_cluster.Cli.Loading.{on}
use go_rtp_cluster.Cli.Start.{empty_cli, run_clusters, start_program}
use go_rtp_cluster.Cli.Main.{
  Flag, Options, parse_options, MainConfig, new_main_config, Host, Act, daemonizes, writes_pid,
  listens_at, set_owner, new_rtp_cluster_cli, with_cli, with_pid, with_config, main,
}

-- The owner of the control socket is known, the pid file and the socket can be made, and the run is
-- no dry one.
pub record Ready (host : Host) (o : Options) (g : MainConfig) : Type 0 where
  pub owned : set_owner host o.usr_grp_owner new_main_config ≡ some g
  pub runs : o.dry_run ≡ false
  pub pid : host.creates o.pidfile ≡ true
  pub socket : host.listens o.csockfile g.sock_uid g.sock_gid ≡ true

-- What is done for the program to run.
unfoldable pub starting_acts : Options → MainConfig → List Act
starting_acts o g =
    let acts : List Act =
      writes_pid o.pidfile ∷ listens_at o.csockfile g.sock_uid g.sock_gid ∷ [] in
    if o.foreground then acts else daemonizes o.logfile g.sock_uid g.sock_gid ∷ acts

module _ ⦃E : Externals⦄ where
  dry-ne-on :
      (w : World) (config : List RtpCluster) (s : Cli)
      → run_clusters w true config (empty_cli w) ≢ on s
  unfolding run_clusters
  dry-ne-on w config s e = ground (arith, e)

  with_config-on :
      (host : Host) (w : World) (o : Options) (g : MainConfig) (config : List RtpCluster) (s : Cli)
      → (with_config host w o g config).1 ≡ on s
      → (o.dry_run ≡ false)
        × (host.creates o.pidfile ≡ true)
        × (host.listens o.csockfile g.sock_uid g.sock_gid ≡ true)
        × ((with_config host w o g config).0 ≡ starting_acts o g)
        × (run_clusters w false config (empty_cli w) ≡ on s)
  unfolding with_config with_pid with_cli new_rtp_cluster_cli starting_acts
  with_config-on host w o g config s e = ground (arith, e, dry-ne-on w config s)

  with_config_lem :
      (host : Host) (w : World) (o : Options) (g : MainConfig) (config : List RtpCluster)
      → o.dry_run ≡ false
      → host.creates o.pidfile ≡ true
      → host.listens o.csockfile g.sock_uid g.sock_gid ≡ true
      → (with_config host w o g config).1 ≡ run_clusters w false config (empty_cli w)
  unfolding with_config with_pid with_cli new_rtp_cluster_cli
  with_config_lem host w o g config dry pid socket = ground (arith, dry, pid, socket)

  module _ (host : Host) (w : World) (fs : List Flag) (s : Cli) where
    -- The program comes to its wait for a signal only with a known owner of the control socket, where
    -- the pid file and the socket can be made, and in no dry run. Then the clusters are those of the
    -- configuration file, and before them it has gone to the background unless it was to stay,
    -- written the pid file and opened the socket for the owner, in this order, and nothing else.
    pub main-on :
        (main host w fs).1 ≡ on s
        → (g : MainConfig) × Ready host (parse_options fs) g
          × ((main host w fs).0 ≡ starting_acts (parse_options fs) g)
          × (start_program w false (host.tokens (parse_options fs).conffile) ≡ on s)
    unfolding main start_program
    main-on e = elim (Option-cases (set_owner host o.usr_grp_owner new_main_config)) [
      | inl f ↦ absurd (ground (arith, rw (f, main) at e))
      | inr (g, f) ↦ elim (Option-cases (read_cluster_config false (host.tokens o.conffile))) [
        | inl h ↦ absurd (ground (arith, rw (f, h, main) at e))
        | inr (config, h) ↦
            let (dry, pid, socket, acts, run) =
              with_config-on host w o _ config s (rw (main, f, h) at e) in
            (
              g,
              record { owned = f; runs = dry; pid = pid; socket = socket },
              rw (main, f, h) acts,
              rw (start_program, h) run,
            )
      ]
    ]
      where
        o : Options
        o = parse_options fs

    -- Conversely, it comes to the clusters of the configuration file.
    pub Ready-main :
        (g : MainConfig)
        → Ready host (parse_options fs) g
        → start_program w false (host.tokens (parse_options fs).conffile) ≡ on s
        → (main host w fs).1 ≡ on s
    unfolding main start_program
    Ready-main g r e =
        elim (Option-cases (read_cluster_config false (host.tokens (parse_options fs).conffile))) [
          | inl h ↦ absurd (ground (arith, rw (h, start_program) at e))
          | inr (config, h) ↦
              rw (main, r.owned, h)
                (with_config_lem host w (parse_options fs)
                    (record g { conffile = (parse_options fs).conffile }) config r.runs r.pid
                    r.socket
                  ∙ rw (h, start_program) at e)
        ]
