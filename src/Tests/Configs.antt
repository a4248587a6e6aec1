-- ===== src/Tests/Configs.antt =====
-- Configurations.
use go_rtp_cluster.Base.{
  ◌≡◌, refl, true, false, none, some, List, [], ◌∷◌, ◌++◌, negsuc, Str, codes, str_eq, str_dec,
  ℕ_discrete,
}
use go_rtp_cluster.Config.{
  RtpCluster, Token, new_cluster, new_proxy, new_disconnect_notify, with_cluster,
}
use go_rtp_cluster.Config.Tokens.{start_element, end_element}
use go_rtp_cluster.Config.Characters.{characters, cluster_characters, cluster_names}
use go_rtp_cluster.Config.Reading.{handle, handle_all, read_cluster_config}
use go_rtp_cluster.Cli.Start.Valid.{AllTaken}
use go_rtp_cluster.Tests.Toy.{toy}
use go_rtp_cluster.Config.Names.{names_distinct}
use go_rtp_cluster.Config.Names.Reading.{read_cluster_config-names}
use go_rtp_cluster.Config.Failures.{read_cluster_config-prologue}
use go_rtp_cluster.Config.RoundTrip.Documents.{config_tokens, readable_clusters}
use go_rtp_cluster.Config.RoundTrip.Clusters.{read_cluster_config_round_trip}

abbrev named : Str → List Token
named s =
    Token.start_element (codes "name") []
    ∷ Token.char_data s
    ∷ Token.end_element (codes "name")
    ∷ []

abbrev cluster_of : List Token → List Token
cluster_of ts =
    Token.start_element (codes "rtp_cluster") []
    ∷ (ts ++ (Token.end_element (codes "rtp_cluster") ∷ []))

-- Two clusters of one name.
abbrev twice : List Token
twice =
    Token.start_element (codes "rtp_cluster_config") []
    ∷ (cluster_of (named (codes "A")) ++ cluster_of (named (codes "A")))

abbrev twice_read : List RtpCluster
twice_read = record new_cluster { name = codes "A" } ∷ new_cluster ∷ []

twice_lem : read_cluster_config false twice ≡ some twice_read
unfolding read_cluster_config handle_all handle start_element end_element characters
    cluster_characters with_cluster str_dec ℕ_discrete
twice_lem = refl

read_cluster_config-names_example : names_distinct (cluster_names twice_read) ≡ true
read_cluster_config-names_example = read_cluster_config-names false twice twice_read twice_lem

read_cluster_config-prologue_example :
    read_cluster_config false (Token.other ∷ Token.char_data (codes "\n") ∷ twice) ≡ none
read_cluster_config-prologue_example = read_cluster_config-prologue false 1 (codes "\n") twice

-- A cluster with a proxy, whose weight is -5, and a configuration of notifications.
abbrev pub documented : List RtpCluster
documented =
    record new_cluster {
      name = codes "C";
      protocol = codes "unix";
      capacity_limit_soft = true;
      dnconfig = some (record (new_disconnect_notify (codes "disconnect_notify")) {
        in_address = codes "1.1.1.1:9";
      });
      rtp_proxies =
          record new_proxy {
            name = codes "P";
            protocol = codes "udp";
            status = codes "active";
            weight = negsuc 4;
            wan_address = codes "9.9.9.9";
          }
          ∷ [];
    }
    ∷ []

pub document_readable : readable_clusters [] documented ≡ true
unfolding str_dec ℕ_discrete
document_readable = refl

pub document_taken : AllTaken documented
document_taken = (((λ e. cc), tt), tt)

read_cluster_config_round_trip_example :
    read_cluster_config false (config_tokens (codes "\n") documented) ≡ some documented
read_cluster_config_round_trip_example =
    read_cluster_config_round_trip (codes "\n") documented document_readable
