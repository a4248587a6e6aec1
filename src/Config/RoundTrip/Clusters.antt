-- ===== src/Config/RoundTrip/Clusters.antt =====
-- What a document of clusters is read as.

use go_rtp_cluster.Base.{
  ◌≡◌, refl, ◌∙◌, sym, ap, Bool, true, false, ◌&&◌, not, some, List, [], ◌∷◌, ◌++◌, Str, codes,
  str_eq, str_dec, if◌then◌else◌, arith,
}
use go_rtp_cluster.Config.{RtpCluster, Token, new_cluster, new_validate_handler}
use go_rtp_cluster.Config.Tokens.{start_element, end_element, start_cluster, pop}
use go_rtp_cluster.Config.Characters.{str_elem, cluster_names, is_protocol}
use go_rtp_cluster.Config.Reading.{handle, handle_all, read_cluster_config}
use go_rtp_cluster.Config.RoundTrip.{token_lem, element_lem}
use go_rtp_cluster.Config.RoundTrip.Documents.{
  readable_proxies, readable_notify, readable_clusters, cluster_tokens, clusters_tokens,
  config_tokens,
}
use go_rtp_cluster.Config.RoundTrip.Handler.{
  append_nil, append_assoc, gap_token, base, gap_base, here, gap_here, first_gap_here, name_here,
  protocol_here, address_here, limit_here, proxies_read,
}
use go_rtp_cluster.Config.RoundTrip.Notify.{notify_read}

module _ (pre : List RtpCluster) where
  -- A cluster is read at the end of the clusters so far.
  cluster_read :
      (e gap : Str) (c : RtpCluster) (rest : List Token)
      → (is_protocol c.protocol ≡ true)
      → (str_elem c.name (cluster_names (pre ++ new_cluster ∷ [])) ≡ false)
      → readable_notify c.dnconfig ≡ true
      → readable_proxies [] c.rtp_proxies ≡ true
      → handle_all (cluster_tokens gap c rest) (base e pre)
        ≡ handle_all rest (base [] (pre ++ c ∷ []))
  unfolding handle start_element end_element start_cluster pop str_dec
  cluster_read e gap c rest protocol free notify proxies =
      token_lem (Token.start_element (codes "rtp_cluster") []) _ (base e pre)
        (here pre (codes "rtp_cluster") new_cluster) refl
      ∙ gap_token gap _ (here pre (codes "rtp_cluster") new_cluster)
          (first_gap_here pre gap new_cluster)
      ∙ element_lem (codes "name") c.name gap _ (here pre (codes "rtp_cluster") new_cluster)
          (here pre (codes "name") new_cluster) (here pre (codes "name") c1) (here pre [] c1) refl
          (name_here pre c.name new_cluster free) refl (gap_here pre gap c1)
      ∙ element_lem (codes "protocol") c.protocol gap _ (here pre [] c1)
          (here pre (codes "protocol") c1) (here pre (codes "protocol") c2) (here pre [] c2) refl
          (protocol_here pre c.protocol c1 protocol) refl (gap_here pre gap c2)
      ∙ element_lem (codes "address") c.address gap _ (here pre [] c2)
          (here pre (codes "address") c2) (here pre (codes "address") c3) (here pre [] c3) refl
          (address_here pre c.address c2) refl (gap_here pre gap c3)
      ∙ token_lem
          (Token.start_element (codes "capacity_limit")
            ((codes "type", if c.capacity_limit_soft then codes "soft" else codes "hard") ∷ []))
          _ (here pre [] c3) (here pre (codes "capacity_limit") c4)
          (limit_here pre c.capacity_limit_soft c3)
      ∙ token_lem (Token.end_element (codes "capacity_limit")) _
          (here pre (codes "capacity_limit") c4) (here pre [] c4) refl
      ∙ gap_token gap _ (here pre [] c4) (gap_here pre gap c4)
      ∙ notify_read pre gap c.dnconfig c4 _ refl notify
      ∙ proxies_read pre gap c.rtp_proxies (record c4 { dnconfig = c.dnconfig }) _ proxies
      ∙ token_lem (Token.end_element (codes "rtp_cluster")) _ (here pre [] c)
          (base [] (pre ++ c ∷ [])) refl
      ∙ gap_token gap rest (base [] (pre ++ c ∷ [])) (gap_base [] gap (pre ++ c ∷ []))
    where
      c1 : RtpCluster
      c1 = record new_cluster { name = c.name }

      c2 : RtpCluster
      c2 = record c1 { protocol = c.protocol }

      c3 : RtpCluster
      c3 = record c2 { address = c.address }

      c4 : RtpCluster
      c4 = record c3 { capacity_limit_soft = c.capacity_limit_soft }

ended :
    (b : Bool) (e : Str) (pre : List RtpCluster)
    → (last : Str) × (some (if b then base [] pre else base e pre) ≡ some (base last (pre ++ [])))
ended true e pre = ([], ap (λ config. some (base [] config)) (sym (append_nil pre)))
ended false e pre = (e, ap (λ config. some (base e config)) (sym (append_nil pre)))

clusters_read :
    (e gap : Str) (pre cs : List RtpCluster)
    → readable_clusters pre cs ≡ true
    → (last : Str) × (handle_all (clusters_tokens gap cs) (base e pre)
        ≡ some (base last (pre ++ cs)))
unfolding handle_all handle end_element str_dec
clusters_read e gap pre [] ok = ended _ e pre
clusters_read e gap pre (c ∷ cs) ok =
    let (protocol, free, notify, proxies, more) = parts _ _ _ _ _ ok in
    let (last, run) = clusters_read [] gap (pre ++ c ∷ []) cs more in
    (
      last,
      cluster_read pre e gap c (clusters_tokens gap cs) protocol free notify proxies
          ∙ (run ∙ ap (λ config. some (base last config)) (append_assoc pre (c ∷ []) cs)),
    )
  where
    parts :
        (a b c d e : Bool)
        → (((a && not b) && (c && d)) && e) ≡ true
        → (a ≡ true) × (b ≡ false) × (c ≡ true) × (d ≡ true) × (e ≡ true)
    parts a b c d e h = ground (arith, h)

-- The program reads a configuration back from its document, whatever text stands between the
-- elements, the same in all places: the same clusters in the same order, with the same proxies. The
-- configuration is one that a document can give: protocols and states that the program
-- accepts, weights and capacities of the type int, also those not positive, which `Characters`
-- refuses but stores, names that are not empty and distinct among the clusters and among the proxies
-- of each cluster, and the section name of the notifications.
pub read_cluster_config_round_trip :
    (gap : Str) (config : List RtpCluster)
    → readable_clusters [] config ≡ true
    → read_cluster_config false (config_tokens gap config) ≡ some config
unfolding read_cluster_config handle start_element str_dec
read_cluster_config_round_trip gap config ok =
    let (last, run) = clusters_read (codes "rtp_cluster_config") gap [] config ok in
    let whole : handle_all (config_tokens gap config) new_validate_handler
        ≡ some (base last config) =
      token_lem (Token.start_element (codes "rtp_cluster_config") []) _ new_validate_handler
        (base (codes "rtp_cluster_config") []) refl
      ∙ (gap_token gap _ (base (codes "rtp_cluster_config") []) (gap_base _ gap []) ∙ run) in
    rw (whole, read_cluster_config) refl
