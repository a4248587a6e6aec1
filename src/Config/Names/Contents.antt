-- ===== src/Config/Names/Contents.antt =====
-- What `EndElement` and `Characters` do to the names of the clusters.
use go_rtp_cluster.Base.{
  ◌≡◌, refl, if_cases, ℤ, get_elem?, true, false, Option, none, some, Option-cases, inl, inr, List,
  [], ◌∷◌, Str, codes, ◌==◌, str_eq, if◌then◌else◌,
}
use go_rtp_cluster.Config.{
  ValidateHandler, Context, in_config, in_cluster, in_proxy, in_dnconfig, with_cluster,
}
use go_rtp_cluster.Config.Tokens.{capacity_limit, end_element}
use go_rtp_cluster.Config.Characters.{
  str_elem, cluster_names, ConfigError, Result, failed, proxy_names, done, characters,
  cluster_characters, proxy_characters, notify_characters,
}
use go_rtp_cluster.Config.Names.{names_distinct, names_distinct-rename, rename}
use go_rtp_cluster.Config.Names.Handler.{
  if_FineResult, popped-Fine, option-FineResult, done-Fine, stored-Fine, with_proxy-Fine,
  with_notify-Fine, Fine, if_Fine, with_cluster-Fine, FineResult,
}

module _ (h : ValidateHandler) (fine : names_distinct (cluster_names h.config) ≡ true) where
  pub end_element-Fine : (name : Str) → Fine (end_element name h)
  unfolding end_element
  end_element-Fine name =
      if_Fine (name == codes "rtp_cluster") _ _ (popped-Fine h.ctx _ (λ _. fine)) (
        if_Fine (name == codes "rtpproxy") _ _ (popped-Fine h.ctx _ (λ _. fine)) (
          if_Fine (name == codes "disconnect_notify") _ _ (popped-Fine h.ctx _ (λ _. fine)) (
            if_cases (λ (g : ValidateHandler). names_distinct (cluster_names g.config) ≡ true)
              (name == h.element) (λ _. fine) (λ _. fine))))

  notify_characters-Fine : (content : Str) → FineResult (notify_characters content h)
  unfolding notify_characters
  notify_characters-Fine content =
      if_FineResult (h.element == codes "inbound_address") _ _
        (done-Fine _ (with_notify-Fine h fine _))
        (if_FineResult (h.element == codes "dest_socket_prefix") _ _
          (done-Fine _ (with_notify-Fine h fine _)) fine)

  renamed-Fine :
      (s : Str) → str_elem s (cluster_names h.config) ≡ false → Fine (with_cluster (rename s) h)
  unfolding with_cluster
  renamed-Fine s free = elim (Option-cases h.rtp_cluster) [
    | inl e ↦ rw (e, with_cluster) tt
    | inr (i, e) ↦ rw (e, with_cluster) (names_distinct-rename i s h.config free fine)
  ]

  cluster_name-Fine :
      (content : Str)
      → FineResult (
          if str_elem content (cluster_names h.config)
          then failed (ConfigError.cluster_name_used content) h
          else done (with_cluster (rename content) h))
  cluster_name-Fine content =
      if_cases FineResult (str_elem content (cluster_names h.config)) (λ _. fine)
        (λ free. done-Fine _ (renamed-Fine content free))

  cluster_characters-Fine : (content : Str) → FineResult (cluster_characters content h)
  unfolding cluster_characters
  cluster_characters-Fine content =
      if_FineResult (h.element == codes "name") _ _ (cluster_name-Fine content) (
        if_FineResult (h.element == codes "protocol") _ _
          (stored-Fine _ _ _ (with_cluster-Fine h fine _ (λ c. refl)))
          (if_FineResult (h.element == codes "address") _ _
            (done-Fine _ (with_cluster-Fine h fine _ (λ c. refl))) fine))

  number-Fine :
      (o : Option ℤ) (e : ConfigError) (g : ℤ → Result)
      → ((n : ℤ) → FineResult (g n))
      → FineResult (elim o [ none ↦ some (h, some e) | some n ↦ g n ])
  number-Fine none e g k = fine
  number-Fine (some n) e g k = k n

  proxy_characters-Fine : (content : Str) → FineResult (proxy_characters content h)
  unfolding proxy_characters
  proxy_characters-Fine content =
      if_FineResult (h.element == codes "name") _ _
        (option-FineResult h.rtp_cluster _ (λ i. option-FineResult (get_elem? h.config i) _ (λ c.
          if_FineResult (str_elem content (proxy_names c.rtp_proxies)) _ _ fine
            (done-Fine _ (with_proxy-Fine h fine _)))))
        (if_FineResult (h.element == codes "protocol") _ _
          (stored-Fine _ _ _ (with_proxy-Fine h fine _))
          (if_FineResult (h.element == codes "address") _ _ (done-Fine _ (with_proxy-Fine h fine _))
            (if_FineResult (h.element == codes "wan_address") _ _
              (done-Fine _ (with_proxy-Fine h fine _))
              (if_FineResult (h.element == codes "lan_address") _ _
                (done-Fine _ (with_proxy-Fine h fine _))
                (if_FineResult (h.element == codes "cmd_out_address") _ _
                  (done-Fine _ (with_proxy-Fine h fine _))
                  (if_FineResult (h.element == codes "weight") _ _
                    (number-Fine _ _ _ (λ n. stored-Fine _ _ _ (with_proxy-Fine h fine _)))
                    (if_FineResult (h.element == codes "capacity") _ _
                      (number-Fine _ _ _ (λ n. stored-Fine _ _ _ (with_proxy-Fine h fine _)))
                      (if_FineResult (h.element == codes "status") _ _
                        (stored-Fine _ _ _ (with_proxy-Fine h fine _)) fine))))))))

  capacity_limit-Fine : (attrs : List (Str × Str)) → Fine (capacity_limit attrs h)
  unfolding capacity_limit
  capacity_limit-Fine [] = fine
  capacity_limit-Fine ((name, value) ∷ attrs) =
      if_Fine (name == codes "type") _ _ (with_cluster-Fine h fine _ (λ c. refl))
        (capacity_limit-Fine attrs)

  pub limited-Fine :
      (top : Context) (attrs : List (Str × Str))
      → Fine (elim top [ in_cluster ↦ capacity_limit attrs h | _ ↦ some h ])
  limited-Fine in_config attrs = fine
  limited-Fine in_cluster attrs = capacity_limit-Fine attrs
  limited-Fine in_proxy attrs = fine
  limited-Fine in_dnconfig attrs = fine

  pub characters-Fine : (content : Str) → FineResult (characters content h)
  unfolding characters
  characters-Fine content = go h.ctx
    where
      at_top :
          (top : Context)
          → FineResult (elim top [
            | in_config ↦ some (h, none)
            | in_cluster ↦ cluster_characters content h
            | in_proxy ↦ proxy_characters content h
            | in_dnconfig ↦ notify_characters content h
          ])
      at_top in_config = fine
      at_top in_cluster = cluster_characters-Fine content
      at_top in_proxy = proxy_characters-Fine content
      at_top in_dnconfig = notify_characters-Fine content

      go :
          (l : List Context)
          → FineResult (elim l [
            | [] ↦ none
            | top ∷ _ ↦ elim top [
              | in_config ↦ some (h, none)
              | in_cluster ↦ cluster_characters content h
              | in_proxy ↦ proxy_characters content h
              | in_dnconfig ↦ notify_characters content h
            ]
          ])
      go [] = tt
      go (top ∷ _) = at_top top
