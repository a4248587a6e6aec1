-- ===== src/Config/Characters.antt =====
-- `Characters` of the handler: the content of an element is stored in the field of that name.
use go_rtp_cluster.Base.{
  Bool, false, ◌||◌, Option, none, some, List, [], ◌∷◌, pos, ltb_ℤ, map, Str, codes, ◌==◌, str_eq,
  if◌then◌else◌, get_elem?,
}
use go_rtp_cluster.Text.{to_lower}
use go_rtp_cluster.Text.Decimal.{atoi}
use go_rtp_cluster.Config.{
  RtpProxy, RtpCluster, ValidateHandler, in_config, in_cluster, in_proxy, in_dnconfig, with_cluster,
  with_proxy, with_notify,
}

pub data ConfigError : Type 0 where
  cluster_name_used proxy_name_used not_a_weight not_a_capacity : Str → ConfigError
  wrong_cluster_protocol wrong_proxy_protocol wrong_status : ConfigError

abbrev pub str_elem : Str → List Str → Bool
str_elem s [] = false
str_elem s (x ∷ xs) = x == s || str_elem s xs

-- The handler after the call, with the error that the call returns; `none` is a panic.
abbrev pub Result : Type 0
Result = Option (ValidateHandler × Option ConfigError)

abbrev pub failed : ConfigError → ValidateHandler → Result
failed e h = some (h, some e)

-- A field that is written first and checked afterwards.
abbrev pub stored : Bool → ConfigError → Option ValidateHandler → Result
stored ok e o = elim o [ none ↦ none | some h ↦ some (h, if ok then none else some e) ]

abbrev pub done : Option ValidateHandler → Result
done o = elim o [ none ↦ none | some h ↦ some (h, none) ]

abbrev pub is_protocol : Str → Bool
is_protocol p = p == codes "udp" || p == codes "udp6" || p == codes "unix"

abbrev pub cluster_names : List RtpCluster → List Str
cluster_names = map (λ (c : RtpCluster). c.name)

abbrev pub proxy_names : List RtpProxy → List Str
proxy_names = map (λ (p : RtpProxy). p.name)

unfoldable pub cluster_name : Str → ValidateHandler → Result
cluster_name content h =
    if str_elem content (cluster_names h.config)
    then failed (cluster_name_used content) h
    else done (with_cluster (λ c. record c { name = content }) h)

unfoldable pub cluster_characters : Str → ValidateHandler → Result
unfolding cluster_name
cluster_characters content h =
    let p = to_lower content in
    if h.element == codes "name"
    then cluster_name content h
    else if h.element == codes "protocol"
    then stored (is_protocol p) wrong_cluster_protocol
        (with_cluster (λ c. record c { protocol = p }) h)
    else if h.element == codes "address"
    then done (with_cluster (λ c. record c { address = content }) h)
    else some (h, none)

unfoldable pub proxy_name : Str → ValidateHandler → Result
proxy_name content h = elim h.rtp_cluster [
  | none ↦ none
  | some i ↦ elim (get_elem? h.config i) [
    | none ↦ none
    | some c ↦
        if str_elem content (proxy_names c.rtp_proxies)
        then failed (proxy_name_used content) h
        else done (with_proxy (λ p. record p { name = content }) h)
  ]
]

unfoldable pub weight_characters : Str → ValidateHandler → Result
weight_characters content h = elim (atoi content) [
  | none ↦ failed (not_a_weight content) h
  | some n ↦
      stored (ltb_ℤ (pos 0) n) (not_a_weight content) (with_proxy (λ p. record p { weight = n }) h)
]

unfoldable pub capacity_characters : Str → ValidateHandler → Result
capacity_characters content h = elim (atoi content) [
  | none ↦ failed (not_a_capacity content) h
  | some n ↦
      stored (ltb_ℤ (pos 0) n) (not_a_capacity content)
        (with_proxy (λ p. record p { capacity = n }) h)
]

unfoldable pub proxy_characters : Str → ValidateHandler → Result
unfolding proxy_name weight_characters capacity_characters
proxy_characters content h =
    let s = to_lower content in
    if h.element == codes "name"
    then proxy_name content h
    else if h.element == codes "protocol"
    then stored (is_protocol s) wrong_proxy_protocol (with_proxy (λ p. record p { protocol = s }) h)
    else if h.element == codes "address"
    then done (with_proxy (λ p. record p { address = content }) h)
    else if h.element == codes "wan_address"
    then done (with_proxy (λ p. record p { wan_address = content }) h)
    else if h.element == codes "lan_address"
    then done (with_proxy (λ p. record p { lan_address = content }) h)
    else if h.element == codes "cmd_out_address"
    then done (with_proxy (λ p. record p { cmd_out_address = content }) h)
    else if h.element == codes "weight"
    then weight_characters content h
    else if h.element == codes "capacity"
    then capacity_characters content h
    else if h.element == codes "status"
    then stored (s == codes "suspended" || s == codes "active") wrong_status
        (with_proxy (λ p. record p { status = s }) h)
    else some (h, none)

unfoldable pub notify_characters : Str → ValidateHandler → Result
notify_characters content h =
    if h.element == codes "inbound_address"
    then done (with_notify (λ d. record d { in_address = content }) h)
    else if h.element == codes "dest_socket_prefix"
    then done (with_notify (λ d. record d { dest_sprefix = content }) h)
    else some (h, none)

-- `Characters`. The context is read whether there is one or not.
unfoldable pub characters : Str → ValidateHandler → Result
characters content h = elim h.ctx [
  | [] ↦ none
  | top ∷ _ ↦ elim top [
    | in_config ↦ some (h, none)
    | in_cluster ↦ cluster_characters content h
    | in_proxy ↦ proxy_characters content h
    | in_dnconfig ↦ notify_characters content h
  ]
]
