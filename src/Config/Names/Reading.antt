-- ===== src/Config/Names/Reading.antt =====
-- What the tokens of a configuration do to the names of the clusters.
use go_rtp_cluster.Base.{
  ◌≡◌, refl, Bool, true, Option, none, some, List, [], ◌∷◌, arith, Str, codes, ◌==◌, str_eq,
}
use go_rtp_cluster.Config.{RtpCluster, ValidateHandler, Token, new_cluster, new_validate_handler}
use go_rtp_cluster.Config.Tokens.{start_element}
use go_rtp_cluster.Config.Characters.{cluster_names, Result, characters}
use go_rtp_cluster.Config.Reading.{handle, handle_all, read_cluster_config}
use go_rtp_cluster.Config.Names.{names_distinct, names-append, names_distinct-snoc}
use go_rtp_cluster.Config.Names.Contents.{limited-Fine, end_element-Fine, characters-Fine}
use go_rtp_cluster.Config.Names.Handler.{
  Fine, if_Fine, option-Fine, then-Fine, topped-Fine, with_cluster-Fine, FineResult,
}

module _ (h : ValidateHandler) (fine : names_distinct (cluster_names h.config) ≡ true) where
  start_element-Fine : (name : Str) (attrs : List (Str × Str)) → Fine (start_element name attrs h)
  unfolding start_element
  start_element-Fine name attrs = if_Fine (name == codes "rtp_cluster_config") _ _ fine (
      if_Fine (name == codes "rtp_cluster") _ _
        (rw (names-append h.config (new_cluster ∷ []))
          (names_distinct-snoc (cluster_names h.config) fine))
        (if_Fine (name == codes "rtpproxy") _ _
          (option-Fine h.rtp_cluster _ (λ i.
            then-Fine _ _ (with_cluster-Fine (record h { element = name }) fine _ (λ c. refl))
              (λ g. refl)))
          (if_Fine (name == codes "disconnect_notify") _ _
            (then-Fine _ _ (with_cluster-Fine (record h { element = name }) fine _ (λ c. refl))
              (λ g. refl))
            (if_Fine (name == codes "capacity_limit") _ _
              (topped-Fine h.ctx _
                (λ top. limited-Fine (record h { element = name }) fine top attrs))
              fine))))

  handle-Fine : (t : Token) → Fine (handle t h)
  unfolding handle
  handle-Fine (Token.start_element name attrs) = start_element-Fine name attrs
  handle-Fine (Token.end_element name) = end_element-Fine h fine name
  handle-Fine (Token.char_data content) =
      dropped (characters content h) (characters-Fine h fine content)
    where
      dropped : (r : Result) → FineResult r → Fine (elim r [ none ↦ none | some (h', _) ↦ some h' ])
      dropped none p = tt
      dropped (some (h', e)) p = p
  handle-Fine (Token.syntax_error e) = fine
  handle-Fine (Token.tag_path_error e) = fine
  handle-Fine Token.other = fine

next-Fine :
    (o : Option ValidateHandler) (g : ValidateHandler → Option ValidateHandler)
    → Fine o
    → ((h : ValidateHandler) → Fine (some h) → Fine (g h))
    → Fine (elim o [ none ↦ none | some h ↦ g h ])
next-Fine none g p k = tt
next-Fine (some h) g p k = k h p

handle_all-Fine : (ts : List Token) (h : ValidateHandler) → Fine (some h) → Fine (handle_all ts h)
unfolding handle_all
handle_all-Fine [] h fine = fine
handle_all-Fine (t ∷ ts) h fine =
    next-Fine (handle t h) _ (handle-Fine h fine t) (handle_all-Fine ts)

-- Whatever the tokens of a configuration are: if it is read to its end, no two of its clusters have
-- the same name, but for clusters without one.
pub read_cluster_config-names :
    (debug : Bool) (tokens : List Token) (config : List RtpCluster)
    → read_cluster_config debug tokens ≡ some config
    → names_distinct (cluster_names config) ≡ true
unfolding read_cluster_config
read_cluster_config-names debug tokens config e =
    let fine = handle_all-Fine tokens new_validate_handler refl in ground (arith, fine)
