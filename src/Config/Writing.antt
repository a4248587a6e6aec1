-- ===== src/Config/Writing.antt =====
-- `Gen_cluster_config`: the text of a configuration.
use go_rtp_cluster.Base.{
  ℕ, zero, suc, ◌≡◌, refl, none, some, List, [], ◌∷◌, ◌++◌, Str, codes, ◌==◌, str_eq, str_dec,
  ℕ_discrete, if◌then◌else◌,
}
use go_rtp_cluster.Text.{trim_space, is_space}
use go_rtp_cluster.Text.Decimal.{itoa}
use go_rtp_cluster.Relay.{DisconnectNotify}
use go_rtp_cluster.Config.{RtpCluster, RtpProxy, new_cluster}

-- `strings.Repeat`
abbrev repeat : Str → ℕ → Str
repeat s zero = []
repeat s (suc n) = s ++ repeat s n

-- An element in a line of its own, behind the given white space.
abbrev text_line : Str → Str → Str → Str
text_line indent name content =
    indent
    ++ (codes "<" ++ (name ++ (codes ">" ++ (content ++ (codes "</" ++ (name ++ codes ">\n"))))))

-- A line that is left out where the text is empty.
abbrev optional_line : Str → Str → Str → Str
optional_line indent name content =
    if content == [] then [] else text_line indent name (trim_space content)

-- `DisconnectNotify.String`
unfoldable pub notify_string : Str → ℕ → DisconnectNotify → Str
notify_string ident idlevel d =
    repeat ident idlevel
    ++ (codes "<"
        ++ (d.section_name
            ++ (codes ">\n"
                ++ (text_line (repeat ident (suc idlevel)) (codes "inbound_address") d.in_address
                    ++ (text_line (repeat ident (suc idlevel)) (codes "dest_socket_prefix")
                          d.dest_sprefix
                        ++ (repeat ident idlevel
                            ++ (codes "</" ++ (d.section_name ++ codes "> "))))))))

proxy_text : RtpProxy → Str
proxy_text p =
    let indent = codes "      " in
    codes "    <rtpproxy>\n"
    ++ (text_line indent (codes "name") (trim_space p.name)
        ++ (text_line indent (codes "protocol") (trim_space p.protocol)
            ++ (text_line indent (codes "address") (trim_space p.address)
                ++ (text_line indent (codes "weight") (itoa p.weight)
                    ++ (text_line indent (codes "capacity") (itoa p.capacity)
                        ++ (text_line indent (codes "status") (trim_space p.status)
                            ++ (optional_line indent (codes "wan_address") p.wan_address
                                ++ (optional_line indent (codes "lan_address") p.lan_address
                                    ++ (optional_line indent (codes "cmd_out_address")
                                          p.cmd_out_address
                                        ++ codes "    </rtpproxy>\n")))))))))

proxies_text : List RtpProxy → Str
unfolding proxy_text
proxies_text [] = []
proxies_text (p ∷ ps) = proxy_text p ++ proxies_text ps

-- The name of the element `capacity_limit_type` has its value in it, and the element has no end.
cluster_text : RtpCluster → Str
unfolding proxies_text notify_string
cluster_text c =
    let indent = codes "    " in
    codes "  <rtp_cluster>\n"
    ++ (text_line indent (codes "name") (trim_space c.name)
        ++ (text_line indent (codes "protocol") (trim_space c.protocol)
            ++ (text_line indent (codes "address") (trim_space c.address)
                ++ (codes "\n"
                    ++ ((elim c.dnconfig [ none ↦ [] | some d ↦ notify_string (codes "  ") 2 d ])
                        ++ (codes "    <capacity_limit_type="
                            ++ ((if c.capacity_limit_soft then codes "true" else codes "false")
                                ++ (codes ">\n\n"
                                    ++ (proxies_text c.rtp_proxies
                                        ++ codes "  </rtp_cluster>\n\n")))))))))

clusters_text : List RtpCluster → Str
unfolding cluster_text
clusters_text [] = []
clusters_text (c ∷ cs) = cluster_text c ++ clusters_text cs

-- `Gen_cluster_config`
unfoldable pub gen_cluster_config : List RtpCluster → Str
unfolding clusters_text
gen_cluster_config clusters =
    codes "<rtp_cluster_config>\n\n" ++ (clusters_text clusters ++ codes "</rtp_cluster_config>\n")

gen_cluster_config_test :
    gen_cluster_config (record new_cluster { name = codes " C " } ∷ [])
    ≡ codes
        "<rtp_cluster_config>\n\n  <rtp_cluster>\n    <name>C</name>\n    <protocol>UDP</protocol>\n    <address>192.168.56.2:44</address>\n\n    <capacity_limit_type=false>\n\n  </rtp_cluster>\n\n</rtp_cluster_config>\n"
unfolding gen_cluster_config trim_space is_space str_dec ℕ_discrete
gen_cluster_config_test = refl
