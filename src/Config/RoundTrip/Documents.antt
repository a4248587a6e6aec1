-- ===== src/Config/RoundTrip/Documents.antt =====
-- Documents of configurations, as the tokens of the XML decoder, and the configurations that they
-- can give.

use go_rtp_cluster.Base.{
  Bool, true, ◌&&◌, not, Option, none, some, List, [], ◌∷◌, ◌++◌, Str, codes, ◌==◌, str_eq,
  if◌then◌else◌,
}
use go_rtp_cluster.Relay.{DisconnectNotify}
use go_rtp_cluster.Config.{RtpProxy, RtpCluster, Token, new_proxy, new_cluster}
use go_rtp_cluster.Config.Characters.{str_elem, proxy_names, cluster_names, is_protocol}
use go_rtp_cluster.Config.RoundTrip.{field}
use go_rtp_cluster.Config.RoundTrip.Values.{readable}
use go_rtp_cluster.Config.RoundTrip.Proxies.{proxy_tokens}

-- The values that a document can give the proxies of a cluster, behind the given ones.
abbrev pub readable_proxies : List RtpProxy → List RtpProxy → Bool
readable_proxies before [] = true
readable_proxies before (p ∷ ps) =
    (readable p && not (str_elem p.name (proxy_names (before ++ new_proxy ∷ []))))
    && readable_proxies (before ++ p ∷ []) ps

abbrev pub readable_notify : Option DisconnectNotify → Bool
readable_notify none = true
readable_notify (some d) = d.section_name == codes "disconnect_notify"

-- The values that a document can give the clusters, behind the given ones.
abbrev pub readable_clusters : List RtpCluster → List RtpCluster → Bool
readable_clusters before [] = true
readable_clusters before (c ∷ cs) =
    ((is_protocol c.protocol && not (str_elem c.name (cluster_names (before ++ new_cluster ∷ []))))
      && (readable_notify c.dnconfig && readable_proxies [] c.rtp_proxies))
    && readable_clusters (before ++ c ∷ []) cs

-- The document of clusters, as the tokens of the XML decoder, with the same text between all elements.
abbrev pub proxies_tokens : Str → List RtpProxy → List Token → List Token
proxies_tokens gap [] rest = rest
proxies_tokens gap (p ∷ ps) rest =
    proxy_tokens gap p (Token.char_data gap ∷ proxies_tokens gap ps rest)

abbrev pub notify_tokens : Str → Option DisconnectNotify → List Token → List Token
notify_tokens gap none rest = rest
notify_tokens gap (some d) rest =
    Token.start_element (codes "disconnect_notify") []
    ∷ Token.char_data gap
    ∷ (field (codes "inbound_address") d.in_address gap
        ++ (field (codes "dest_socket_prefix") d.dest_sprefix gap
            ++ (Token.end_element (codes "disconnect_notify") ∷ Token.char_data gap ∷ rest)))

abbrev pub cluster_tokens : Str → RtpCluster → List Token → List Token
cluster_tokens gap c rest =
    Token.start_element (codes "rtp_cluster") []
    ∷ Token.char_data gap
    ∷ (field (codes "name") c.name gap
        ++ (field (codes "protocol") c.protocol gap
            ++ (field (codes "address") c.address gap
                ++ (Token.start_element (codes "capacity_limit") (
                      (codes "type", if c.capacity_limit_soft then codes "soft" else codes "hard")
                      ∷ [])
                    ∷ Token.end_element (codes "capacity_limit")
                    ∷ Token.char_data gap
                    ∷ notify_tokens gap c.dnconfig (
                        proxies_tokens gap c.rtp_proxies (
                          Token.end_element (codes "rtp_cluster") ∷ Token.char_data gap ∷ rest))))))

abbrev pub clusters_tokens : Str → List RtpCluster → List Token
clusters_tokens gap [] = Token.end_element (codes "rtp_cluster_config") ∷ []
clusters_tokens gap (c ∷ cs) = cluster_tokens gap c (clusters_tokens gap cs)

abbrev pub config_tokens : Str → List RtpCluster → List Token
config_tokens gap cs =
    Token.start_element (codes "rtp_cluster_config") []
    ∷ Token.char_data gap
    ∷ clusters_tokens gap cs
