-- ===== src/Config/Tokens.antt =====
-- `StartElement` and `EndElement` of the handler; `none` is a panic, on a nil pointer or an empty
-- context.
use go_rtp_cluster.Base.{
  ℕ, Option, none, some, List, [], ◌∷◌, ◌++◌, Str, codes, ◌==◌, str_eq, if◌then◌else◌, length,
  get_elem?,
}
use go_rtp_cluster.Config.{
  RtpCluster, ValidateHandler, in_config, in_cluster, in_proxy, in_dnconfig, new_proxy, new_cluster,
  new_disconnect_notify, with_cluster,
}

-- `name := elm.Attr` with the name `type`: the first one decides.
unfoldable pub capacity_limit : List (Str × Str) → ValidateHandler → Option ValidateHandler
capacity_limit [] h = some h
capacity_limit ((name, value) ∷ attrs) h =
    let rest = capacity_limit attrs h in
    if name == codes "type"
    then with_cluster (λ c. record c { capacity_limit_soft = value == codes "soft" }) h
    else rest

unfoldable pub start_cluster : ValidateHandler → ValidateHandler
start_cluster h = record h {
  rtp_cluster = some (length h.config);
  config = h.config ++ new_cluster ∷ [];
  ctx = in_cluster ∷ h.ctx;
}

-- The index that the next proxy of a cluster gets.
unfoldable pub next_proxy : ℕ → List RtpCluster → ℕ
next_proxy i config = elim (get_elem? config i) [ none ↦ 0 | some c ↦ length c.rtp_proxies ]

unfoldable pub start_proxy : ValidateHandler → Option ValidateHandler
unfolding next_proxy
start_proxy h = elim h.rtp_cluster [
  | none ↦ none
  | some i ↦
      elim (with_cluster (λ c. record c { rtp_proxies = c.rtp_proxies ++ new_proxy ∷ [] }) h) [
        | none ↦ none
        | some h' ↦
            some (record h' { rtpproxy = some (i, next_proxy i h.config); ctx = in_proxy ∷ h.ctx })
      ]
]

unfoldable pub start_notify : Str → ValidateHandler → Option ValidateHandler
start_notify name h =
    elim (with_cluster (λ c. record c { dnconfig = some (new_disconnect_notify name) }) h) [
      | none ↦ none
      | some h' ↦ some (record h' { dnconfig = h.rtp_cluster; ctx = in_dnconfig ∷ h.ctx })
    ]

unfoldable pub start_limit : List (Str × Str) → ValidateHandler → Option ValidateHandler
unfolding capacity_limit
start_limit attrs h = elim h.ctx [
  | [] ↦ none
  | top ∷ _ ↦ elim top [ in_cluster ↦ capacity_limit attrs h | _ ↦ some h ]
]

-- `StartElement`
unfoldable pub start_element : Str → List (Str × Str) → ValidateHandler → Option ValidateHandler
unfolding start_cluster start_proxy start_notify start_limit
start_element name attrs h =
    let h' = record h { element = name } in
    if name == codes "rtp_cluster_config"
    then some (record h' { ctx = in_config ∷ h.ctx })
    else if name == codes "rtp_cluster"
    then some (start_cluster h')
    else if name == codes "rtpproxy"
    then start_proxy h'
    else if name == codes "disconnect_notify"
    then start_notify name h'
    else if name == codes "capacity_limit"
    then start_limit attrs h'
    else some h'

-- `self.ctx[:len(self.ctx)-1]`
unfoldable pub pop : ValidateHandler → Option ValidateHandler
pop h = elim h.ctx [ [] ↦ none | _ ∷ rest ↦ some (record h { ctx = rest }) ]

-- `EndElement`; the end of the whole configuration leaves the context.
unfoldable pub end_element : Str → ValidateHandler → Option ValidateHandler
unfolding pop
end_element name h =
    if name == codes "rtp_cluster"
    then pop (record h { rtp_cluster = none })
    else if name == codes "rtpproxy"
    then pop (record h { rtpproxy = none })
    else if name == codes "disconnect_notify"
    then pop (record h { dnconfig = none })
    else some (if name == h.element then record h { element = [] } else h)
