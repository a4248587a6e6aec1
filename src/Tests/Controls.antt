-- ===== src/Tests/Controls.antt =====
-- The control interface, the start of the program and the delivery of notifications.
use go_rtp_cluster.Base.{
  length, ℕ, ◌≤◌, ◌≡◌, refl, ◌-◌, ap, true, false, some, List, [], ◌∷◌, Str, codes, arith, nat_eq,
  str_eq, str_dec, ℕ_discrete, elem,
}
use go_rtp_cluster.Text.{fields, split_n2, trim_space, is_space}
use go_rtp_cluster.Text.Decimal.{itoa}
use go_rtp_cluster.Cluster.Pool.{find_name, rtpp_by_name}
use go_rtp_cluster.Cluster.Events.{bring_down}
use go_rtp_cluster.Member.{Member, new_member, active}
use go_rtp_cluster.Cluster.{Cluster}
use go_rtp_cluster.Cluster.Names.{UniqueNames}
use go_rtp_cluster.Cluster.Invariant.{Inv}
use go_rtp_cluster.Cluster.Lifecycle.{new_rtp_cluster}
use go_rtp_cluster.Config.{RtpCluster, new_cluster, new_proxy}
use go_rtp_cluster.Cli.{Cli, append_cluster, put_cluster, Answer, say, cluster_by_name}
use go_rtp_cluster.Cli.Listing.{ls, count_status}
use go_rtp_cluster.Cli.Listing.Counts.{shown_active-count_status}
use go_rtp_cluster.Cli.Listing.Sorting.{is_sorted, occurrences, ls-sort_by_name}
use go_rtp_cluster.Cli.Modify.{modify, modify_found, modify_cluster, modify_member, ok}
use go_rtp_cluster.Cli.Loading.{on, sweep_members, load_proxies, load_new}
use go_rtp_cluster.Cli.Loading.Sweeping.{sweep_members-configured}
use go_rtp_cluster.Cli.Loading.Skipping.{sweep_members-skipped}
use go_rtp_cluster.Cli.Names.Commands.{AllUnique}
use go_rtp_cluster.Cli.Names.Reloads.{receive_command-AllUnique}
use go_rtp_cluster.Cli.Receive.{receive_command, run_word, first_word}
use go_rtp_cluster.Cli.Reload.{reload, reload_from}
use go_rtp_cluster.Cli.Reload.Missing.{reload-nothing}
use go_rtp_cluster.Cli.Start.{empty_cli, load_cluster, load_clusters, start_program}
use go_rtp_cluster.Cli.Start.Valid.{start_program-on}
use go_rtp_cluster.Config.{Token}
use go_rtp_cluster.Config.Tokens.{start_element, end_element}
use go_rtp_cluster.Config.Characters.{characters}
use go_rtp_cluster.Config.Reading.{handle, handle_all, read_cluster_config}
use go_rtp_cluster.Config.RoundTrip.Documents.{config_tokens}
use go_rtp_cluster.Tests.Configs.{documented, document_readable, document_taken}
use go_rtp_cluster.Cli.Start.Same.Clusters.{reload_from-load_clusters}
use go_rtp_cluster.Relay.{Worker, new_worker}
use go_rtp_cluster.Relay.Delivery.{interrupted, deliver_dnotify}
use go_rtp_cluster.Relay.Delivery.Tries.{EndsWithin, deliver_dnotify-EndsWithin}
use go_rtp_cluster.Tests.Toy.{toy, host, member, trio}

-- Member 0 is named c, 1 is named b and 2 is named a.
abbrev lettered : ℕ → Member
lettered r = record (member true) { name = (b'c' - r) ∷ [] }

abbrev letters : Cluster
letters = record trio { active = 0 ∷ 1 ∷ 2 ∷ []; pending = []; members = lettered }

abbrev controls : Cli
controls = record { heap = λ p. letters; next = 1; rtp_clusters = 0 ∷ [] }

letters-Inv : Inv letters
letters-Inv = record {
  active_once = ground arith;
  pending_once = ground arith;
  apart = λ r h. ground arith;
  allocated = λ r h. ground arith;
  up = λ r h. ground arith;
  down = λ r h. ground arith;
  wired = λ r h. ground arith;
}

abbrev first : Str → ℕ
first [] = 0
first (x ∷ xs) = x

letters-UniqueNames : UniqueNames letters
letters-UniqueNames = record {
  fresh = λ r h. ground arith;
  unique = λ r q h k e. ground (arith, h, k, ap first e);
}

shown_active-count_status_example :
    count_status active (record letters { active = 0 ∷ [] }).members (0 ∷ []) ≤ 1
shown_active-count_status_example =
    (shown_active-count_status (record letters { active = 0 ∷ [] })).1

sweep_members-configured_example :
    (elem 1 (sweep_members 8 (1 ∷ []) letters).active ≡ true)
    × (elem 1 (sweep_members 8 (1 ∷ []) letters).pending ≡ false)
    × ((sweep_members 8 (1 ∷ []) letters).members 1 ≡ lettered 1)
unfolding ℕ_discrete
sweep_members-configured_example = sweep_members-configured 8 1 (1 ∷ []) letters refl

sweep_members-skipped_example :
    (elem 1 (sweep_members 8 [] letters).active ≡ true)
    × ((sweep_members 8 [] letters).members 1 ≡ lettered 1)
unfolding ℕ_discrete
sweep_members-skipped_example =
    sweep_members-skipped 8 0 1 2 [] [] letters letters-Inv refl refl refl refl

-- A file with its outermost element only.
abbrev no_clusters : List Token
no_clusters =
    Token.start_element (codes "rtp_cluster_config") []
    ∷ Token.char_data (codes "\n")
    ∷ Token.end_element (codes "rtp_cluster_config")
    ∷ []

no_clusters_read : read_cluster_config false no_clusters ≡ some []
unfolding read_cluster_config handle_all handle start_element end_element characters str_dec
    ℕ_discrete
no_clusters_read = refl

reload-nothing_example :
    (t : Cli) × (reload host no_clusters controls
      ≡ some (t, say (codes "Loaded 0 clusters and 0 RTP proxies\n") ∷ ok))
    × (t.rtp_clusters ≡ [])
    × ((q : ℕ)
        → elem q (0 ∷ []) ≡ true
        → ((t.heap q).active ≡ [])
          × ((t.heap q).pending ≡ [])
          × ((t.heap q).server_runs ≡ false)
          × ((t.heap q).purge_runs ≡ false))
    × ((q : ℕ) → elem q (0 ∷ []) ≡ false → t.heap q ≡ letters)
reload-nothing_example = reload-nothing host no_clusters controls no_clusters_read

ls-sort_by_name_example :
    (t : Cli) × (answers : List Answer) × (ls (codes "ls" ∷ codes "C" ∷ []) controls
      ≡ some (t, answers))
    × (is_sorted lettered (t.heap 0).active ≡ true)
    × ((q : ℕ) → occurrences q (t.heap 0).active ≡ occurrences q (0 ∷ 1 ∷ 2 ∷ []))
    × ((t.heap 0).members ≡ lettered)
unfolding cluster_by_name str_dec ℕ_discrete
ls-sort_by_name_example = ls-sort_by_name (codes "ls") (codes "C") 0 0 controls refl

abbrev worker : Worker
worker = record (new_worker (codes "s")) { connected = true }

deliver_dnotify-EndsWithin_example :
    EndsWithin 11 (deliver_dnotify true (λ i. interrupted) (codes "n") worker)
deliver_dnotify-EndsWithin_example =
    deliver_dnotify-EndsWithin true (λ i. interrupted) (codes "n") worker

-- The configuration of one cluster with one proxy.
abbrev config : List RtpCluster
config =
    record new_cluster {
      name = codes "C";
      protocol = codes "unix";
      rtp_proxies =
          record new_proxy { name = codes "P"; protocol = codes "udp"; address = codes "10.0.0.1" }
          ∷ [];
    }
    ∷ []

config_loaded : (s : Cli) × (load_clusters host config (empty_cli host) ≡ on s)
unfolding load_clusters load_cluster load_proxies load_new new_rtp_cluster new_member str_dec
config_loaded = (_, refl)

reload_from-load_clusters_example :
    (s : Cli) × (reload_from host config (empty_cli host)
      ≡ some (s, say (codes "Loaded 1 clusters and 1 RTP proxies\n") ∷ ok))
unfolding config_loaded itoa str_dec append_cluster put_cluster
reload_from-load_clusters_example =
    (config_loaded.0, reload_from-load_clusters host config config_loaded.0 refl config_loaded.1)

removed :
    receive_command host [] (codes "modify C remove b") controls
    ≡ some (put_cluster 0 (bring_down 1 letters) controls, ok)
unfolding receive_command run_word first_word modify modify_found modify_cluster modify_member
    cluster_by_name split_n2 fields trim_space is_space str_dec ℕ_discrete rtpp_by_name find_name
removed = refl

receive_command-AllUnique_example : AllUnique (put_cluster 0 (bring_down 1 letters) controls)
receive_command-AllUnique_example =
    receive_command-AllUnique host [] (codes "modify C remove b") controls
      (put_cluster 0 (bring_down 1 letters) controls) ok removed (λ p. letters-UniqueNames)

start_program-on_example :
    (s : Cli) × (start_program host false (config_tokens (codes "\n") documented) ≡ on s)
    × (length s.rtp_clusters ≡ 1)
unfolding str_dec
start_program-on_example =
    start_program-on host (codes "\n") documented document_taken document_readable refl
