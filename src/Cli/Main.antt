-- ===== src/Cli/Main.antt =====
-- main.go and main_config.go: the flags, the user that the control socket belongs to, the pid file
-- and the control socket, around the clusters of the configuration file. The operating system is an
-- argument, and what the program does to it is a list.
pub mod Ready
use go_rtp_cluster.Base.{
  Bool, true, false, Option, none, some, List, [], ◌∷◌, ◌++◌, ℤ, negsuc, Str, codes, ◌==◌, str_eq,
  if◌then◌else◌, not, ◌||◌, ◌≡◌,
}
use go_rtp_cluster.Text.{cut_at}
use go_rtp_cluster.Externals.{Externals}
use go_rtp_cluster.Cluster.Lifecycle.{World}
use go_rtp_cluster.Config.{RtpCluster, Token}
use go_rtp_cluster.Config.Reading.{read_cluster_config}
use go_rtp_cluster.Cli.{Cli}
use go_rtp_cluster.Cli.Loading.{Progress, on, returned, panicked}
use go_rtp_cluster.Cli.Start.{empty_cli, run_clusters, start_program}

-- One flag of the command line, as package flag hands it to its variable.
pub data Flag : Type 0 where
  flag_f flag_d : Bool → Flag
  flag_p flag_c flag_l flag_s flag_o : Str → Flag

pub record Options : Type 0 where
  pub foreground : Bool
  pub dry_run : Bool
  pub pidfile : Str
  pub conffile : Str
  pub logfile : Str
  pub csockfile : Str
  pub usr_grp_owner : Str

unfoldable pub default_options : Options
default_options = record {
  foreground = false;
  dry_run = false;
  pidfile = codes "/var/run/rtp_cluster.pid";
  conffile = codes "/usr/local/etc/rtp_cluster.xml";
  logfile = codes "/var/log/rtp_cluster.log";
  csockfile = codes "/var/run/rtp_cluster.sock";
  usr_grp_owner = [];
}

unfoldable pub set_flag : Flag → Options → Options
set_flag (flag_f b) o = record o { foreground = b }
set_flag (flag_d b) o = record o { dry_run = b }
set_flag (flag_p s) o = record o { pidfile = s }
set_flag (flag_c s) o = record o { conffile = s }
set_flag (flag_l s) o = record o { logfile = s }
set_flag (flag_s s) o = record o { csockfile = s }
set_flag (flag_o s) o = record o { usr_grp_owner = s }

set_flags : List Flag → Options → Options
unfolding set_flag
set_flags [] o = o
set_flags (f ∷ fs) o = set_flags fs (set_flag f o)

-- The variables after `flag.Parse`; a dry run stays in the foreground.
unfoldable pub parse_options : List Flag → Options
unfolding set_flags default_options
parse_options fs =
    let o = set_flags fs default_options in if o.dry_run then record o { foreground = true } else o

-- `mainConfig`, without the configuration of the SIP library in it.
pub record MainConfig : Type 0 where
  pub sock_uid : ℤ
  pub sock_gid : ℤ
  pub conffile : Str

unfoldable pub new_main_config : MainConfig
new_main_config = record { sock_uid = negsuc 0; sock_gid = negsuc 0; conffile = [] }

-- What the operating system has and allows: the numbers of users and groups, as `Atoi` reads them,
-- the tokens of a file, which are those of nothing where it cannot be read, the files that can be
-- created, and the sockets that can be made for an owner.
pub record Host : Type 0 where
  pub user : Str → Option ℤ
  pub group : Str → Option ℤ
  pub tokens : Str → List Token
  pub creates : Str → Bool
  pub listens : Str → ℤ → ℤ → Bool

-- What the program does to it.
pub data Act : Type 0 where
  daemonizes : Str → ℤ → ℤ → Act
  writes_pid : Str → Act
  listens_at : Str → ℤ → ℤ → Act

set_group : Host → Option Str → MainConfig → Option MainConfig
set_group host none g = some g
set_group host (some name) g = elim (host.group name) [
  | none ↦ none
  | some gid ↦ some (record g { sock_gid = gid })
]

-- The owner of the control socket, `user:group` or `user`; none is the end of the program.
unfoldable pub set_owner : Host → Str → MainConfig → Option MainConfig
unfolding set_group
set_owner host owner g =
    let (name, group) = cut_at b':' owner in
    if owner == [] then some g else elim (host.user name) [
      | none ↦ none
      | some uid ↦ set_group host group (record g { sock_uid = uid })
    ]

module _ ⦃E : Externals⦄ where
  -- What was done, and how far the program has come.
  abbrev pub Run : Type 0
  Run = List Act × Progress Cli

  abbrev pub first_act : Act → Run → Run
  first_act a (acts, p) = (a ∷ acts, p)

  -- `NewRtp_cluster_cli` in a real run; `none` is an error.
  new_rtp_cluster_cli : Host → World → MainConfig → Str → Option (List Act × Cli)
  new_rtp_cluster_cli host w g address =
      if host.listens address g.sock_uid g.sock_gid
      then some (listens_at address g.sock_uid g.sock_gid ∷ [], empty_cli w)
      else none

  with_cli : Host → World → Options → MainConfig → List RtpCluster → Run
  unfolding new_rtp_cluster_cli
  with_cli host w o g config =
      let started = elim (new_rtp_cluster_cli host w g o.csockfile) as (λ _. Run) [
        | none ↦ ([], returned (empty_cli w))
        | some (acts, cli) ↦ (acts, run_clusters w false config cli)
      ] in
      if o.dry_run then ([], run_clusters w true config (empty_cli w)) else started

  with_pid : Host → World → Options → MainConfig → List RtpCluster → Run
  unfolding with_cli
  with_pid host w o g config =
      let run = first_act (writes_pid o.pidfile) (with_cli host w o g config) in
      if host.creates o.pidfile then run else ([], returned (empty_cli w))

  with_config : Host → World → Options → MainConfig → List RtpCluster → Run
  unfolding with_pid
  with_config host w o g config =
      let run = with_pid host w o g config in
      if o.foreground then run else first_act (daemonizes o.logfile g.sock_uid g.sock_gid) run

  -- `main`. Where the program ends before its clusters, there are none.
  unfoldable pub main : Host → World → List Flag → Run
  unfolding with_config
  main host w fs =
      let o = parse_options fs in
      elim (set_owner host o.usr_grp_owner new_main_config) [
        | none ↦ ([], returned (empty_cli w))
        | some g ↦
            let g' : MainConfig = record g { conffile = o.conffile } in
            elim (read_cluster_config false (host.tokens g'.conffile)) [
              | none ↦ ([], panicked)
              | some config ↦ with_config host w o g' config
            ]
      ]
