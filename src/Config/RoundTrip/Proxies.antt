-- ===== src/Config/RoundTrip/Proxies.antt =====
-- What a document of a proxy is read as.

use go_rtp_cluster.Base.{
  ◌≡◌, refl, ◌∙◌, Bool, true, false, ◌&&◌, List, [], ◌∷◌, ◌++◌, Str, codes, str_eq, arith,
}
use go_rtp_cluster.Text.Decimal.{itoa}
use go_rtp_cluster.Config.{RtpProxy, RtpCluster, ValidateHandler, Token, new_proxy}
use go_rtp_cluster.Config.Characters.{str_elem, proxy_names}
use go_rtp_cluster.Config.Reading.{handle, handle_all}
use go_rtp_cluster.Config.RoundTrip.{
  field, token_lem, text_lem, inside, first_gap_lem, before_proxy, start_lem, after_proxy, end_lem,
}
use go_rtp_cluster.Config.RoundTrip.Values.{fits_lem, readable}
use go_rtp_cluster.Config.RoundTrip.Fields.{
  optional, name_read, protocol_read, address_read, weight_read, capacity_read, status_read,
  wan_address_read, lan_address_read, cmd_out_address_read,
}

-- The document of a proxy, as the tokens of the XML decoder, with the same text between all elements.
abbrev pub proxy_tokens : Str → RtpProxy → List Token → List Token
proxy_tokens gap p rest =
    Token.start_element (codes "rtpproxy") []
    ∷ Token.char_data gap
    ∷ (field (codes "name") p.name gap
        ++ (field (codes "protocol") p.protocol gap
            ++ (field (codes "address") p.address gap
                ++ (field (codes "weight") (itoa p.weight) gap
                    ++ (field (codes "capacity") (itoa p.capacity) gap
                        ++ (field (codes "status") p.status gap
                            ++ (optional (codes "wan_address") p.wan_address gap
                                ++ (optional (codes "lan_address") p.lan_address gap
                                    ++ (optional (codes "cmd_out_address") p.cmd_out_address gap
                                        ++ (Token.end_element (codes "rtpproxy") ∷ rest))))))))))

module _ (h : ValidateHandler) (pre : List RtpCluster) (c : RtpCluster) where
  -- A proxy of a document is read as it was written: where its values can be given in a document and
  -- its name is neither empty nor that of another proxy of the cluster, the proxy is added at the end.
  pub proxy_read :
      (e gap : Str) (p : RtpProxy) (rest : List Token)
      → readable p ≡ true
      → str_elem p.name (proxy_names (c.rtp_proxies ++ new_proxy ∷ [])) ≡ false
      → handle_all (proxy_tokens gap p rest) (before_proxy h pre c e)
        ≡ handle_all rest (after_proxy h pre c p)
  unfolding handle
  proxy_read e gap p rest ok free =
      let (protocol, status, weight, capacity) = parts _ _ _ _ ok in
      let weight_reads = fits_lem p.weight weight in
      let capacity_reads = fits_lem p.capacity capacity in
      token_lem (Token.start_element (codes "rtpproxy") []) _ (before_proxy h pre c e)
        (inside h pre c (codes "rtpproxy") new_proxy) (start_lem h pre c e)
      ∙ token_lem (Token.char_data gap) _ _ _
          (text_lem gap _ _ (first_gap_lem h pre c gap new_proxy))
      ∙ name_read h pre c (codes "rtpproxy") p.name gap _ new_proxy free
      ∙ protocol_read h pre c p.protocol gap _ _ protocol
      ∙ address_read h pre c p.address gap _ _
      ∙ weight_read h pre c (itoa p.weight) gap p.weight _ _ weight_reads
      ∙ capacity_read h pre c (itoa p.capacity) gap p.capacity _ _ capacity_reads
      ∙ status_read h pre c p.status gap _ _ status
      ∙ wan_address_read h pre c p.wan_address gap _ _ refl
      ∙ lan_address_read h pre c p.lan_address gap _ _ refl
      ∙ cmd_out_address_read h pre c p.cmd_out_address gap _ _ refl
      ∙ token_lem (Token.end_element (codes "rtpproxy")) rest _ _ (end_lem h pre c p)
    where
      parts :
          (a b c d : Bool)
          → ((a && b) && c && d) ≡ true
          → (a ≡ true) × (b ≡ true) × (c ≡ true) × (d ≡ true)
      parts a b c d h = ground (arith, h)
